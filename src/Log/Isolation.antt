-- ===== src/Log/Isolation.antt =====
-- Each client of `stream_logs` gets the log for itself, whatever the others do.
use roc_vad.Prelude.{
  ℕ, Bool, true, false, List, [], ◌∷◌, ◌++◌, ◌≡◌, ◌≢◌, ◌⊎◌, refl, ◌∙◌, ap, sym, ◌==◌, if◌then◌else◌,
  arith, Bool-cases, ==_iff, inl, inr,
}
use roc_vad.Log.{LogMsg, RvLogEntry, sink_it}
use roc_vad.Log.Streams.{
  occurs, DistSink, IsDistSink, Phase, idle, waiting, returned, LogManager, Event, call, log, wake,
  attach_streamer, detach_streamer, deliver, begin_stream, resume_stream, happen, run, create,
}
use roc_vad.Log.Delivery.{sink_it_stopped, receive, deliver_others, deliver_once}

-- How often the streamer of a call is attached.
abbrev pub attachments : Phase → ℕ
attachments idle = 0
attachments waiting = 1
attachments returned = 0

module _ {S W : Type 0} (d : DistSink S) (write : RvLogEntry → W → Bool × W) (fresh : ℕ → W)
    (lawful : IsDistSink d) where
  -- A streamer is attached once while its call waits, and else not at all; a call has returned only
  -- where its stream has stopped.
  pub record IsAttached (m : LogManager S W) : Type 0 where
    pub attached : (c : ℕ) → occurs c (d.sinks m.dist_sink) ≡ attachments (m.calls c)
    pub ended : (c : ℕ) → m.calls c ≡ returned → (m.streamers c).stopped ≡ true

  create-IsAttached : IsAttached (create d write fresh)
  unfolding create
  create-IsAttached = record { attached = lawful.empty; ended = λ c h. absurd (ground (arith, h)) }

  -- A message reaches the streamer of each call once, unless its stream has stopped.
  received :
      (phase : Phase) (msg : LogMsg) (c : ℕ) (m : LogManager S W)
      → IsAttached m
      → m.calls c ≡ phase
      → phase ≢ idle
      → deliver write msg (d.sinks m.dist_sink) m.streamers c ≡ sink_it write msg (m.streamers c)
  received idle msg c m v h called = absurd (called refl)
  received waiting msg c m v h called =
      deliver_once write msg c (d.sinks m.dist_sink) m.streamers (v.attached c ∙ ap attachments h)
  received returned msg c m v h called =
      deliver_others write msg c (d.sinks m.dist_sink) m.streamers (v.attached c ∙ ap attachments h)
      ∙ sym (sink_it_stopped write msg (m.streamers c) (v.ended c h))

  begin-IsAttached :
      (phase : Phase) (b : ℕ) (m : LogManager S W)
      → IsAttached m
      → m.calls b ≡ phase
      → IsAttached (begin_stream d write fresh phase b m)
  unfolding begin_stream attach_streamer
  begin-IsAttached idle b m v h = record {
    attached = λ c. ground (arith, lawful.added c b m.dist_sink, v.attached c, h);
    ended = λ c e. ground (arith, v.ended c);
  }
  begin-IsAttached waiting b m v h = v
  begin-IsAttached returned b m v h = v

  resume-IsAttached :
      (phase : Phase) (b : ℕ) (m : LogManager S W)
      → IsAttached m
      → m.calls b ≡ phase
      → IsAttached (resume_stream d write fresh phase b m)
  unfolding resume_stream detach_streamer
  resume-IsAttached idle b m v h = v
  resume-IsAttached waiting b m v h = elim (Bool-cases (m.streamers b).stopped) [
    | inl stopped ↦ rw stopped (record {
      attached = λ c. ground (arith, lawful.removed c b m.dist_sink, v.attached c);
      ended = λ c e. ground (arith, v.ended c);
    })
    | inr more ↦ rw more v
  ]
  resume-IsAttached returned b m v h = v

  pub happen-IsAttached :
      (e : Event) (m : LogManager S W) → IsAttached m → IsAttached (happen d write fresh e m)
  happen-IsAttached (call b) m v = begin-IsAttached (m.calls b) b m v refl
  happen-IsAttached (log msg) m v = record {
    attached = v.attached;
    ended = λ c e.
        rw
          (deliver_others write msg c (d.sinks m.dist_sink) m.streamers
            (v.attached c ∙ ap attachments e))
          (v.ended c e);
  }
  happen-IsAttached (wake b) m v = resume-IsAttached (m.calls b) b m v refl

  run-IsAttached :
      (es : List Event) (m : LogManager S W) → IsAttached m → IsAttached (run d write fresh es m)
  run-IsAttached [] m v = v
  run-IsAttached (e ∷ es) m v =
      run-IsAttached es (happen d write fresh e m) (happen-IsAttached e m v)

  -- What a call sees of another's beginning, and of a waking.
  abbrev SameFor : ℕ → LogManager S W → LogManager S W → Type 0
  SameFor c m n = (n.streamers c ≡ m.streamers c) × (n.calls c ≢ idle)

  begin_same :
      (phase : Phase) (b c : ℕ) (m : LogManager S W)
      → m.calls b ≡ phase
      → m.calls c ≢ idle
      → SameFor c m (begin_stream d write fresh phase b m)
  unfolding begin_stream attach_streamer
  begin_same idle b c m h called = elim (Bool-cases (c == b)) [
    | inl same ↦ absurd (called (ap m.calls ((==_iff c b).0 same) ∙ h))
    | inr other ↦ rw other (refl, called)
  ]
  begin_same waiting b c m h called = (refl, called)
  begin_same returned b c m h called = (refl, called)

  still_called :
      (b c : ℕ) (m : LogManager S W)
      → m.calls c ≢ idle
      → (if c == b then returned else m.calls c) ≢ idle
  still_called b c m called = elim (Bool-cases (c == b)) [
    | inl same ↦ rw same (λ e. cc)
    | inr other ↦ rw other called
  ]

  resume_same :
      (phase : Phase) (b c : ℕ) (m : LogManager S W)
      → m.calls c ≢ idle
      → SameFor c m (resume_stream d write fresh phase b m)
  unfolding resume_stream detach_streamer
  resume_same idle b c m called = (refl, called)
  resume_same waiting b c m called = elim (Bool-cases (m.streamers b).stopped) [
    | inl stopped ↦ rw stopped (refl, still_called b c m called)
    | inr more ↦ rw more (refl, called)
  ]
  resume_same returned b c m called = (refl, called)

  run_receives :
      (es : List Event) (c : ℕ) (m : LogManager S W)
      → IsAttached m
      → m.calls c ≢ idle
      → (let n = run d write fresh es m in
          (n.streamers c ≡ receive write es (m.streamers c)) × (n.calls c ≢ idle))
  run_receives [] c m v called = (refl, called)
  run_receives (call b ∷ es) c m v called =
      let n = begin_stream d write fresh (m.calls b) b m in
      let (same, still) = begin_same (m.calls b) b c m refl called in
      let (streamer, later) = run_receives es c n (begin-IsAttached (m.calls b) b m v refl) still in
      (streamer ∙ ap (receive write es) same, later)
  run_receives (log msg ∷ es) c m v called =
      let n = happen d write fresh (log msg) m in
      let (streamer, later) = run_receives es c n (happen-IsAttached (log msg) m v) called in
      (streamer ∙ ap (receive write es) (received (m.calls c) msg c m v refl called), later)
  run_receives (wake b ∷ es) c m v called =
      let n = resume_stream d write fresh (m.calls b) b m in
      let (same, still) = resume_same (m.calls b) b c m called in
      let (streamer, later) =
        run_receives es c n (resume-IsAttached (m.calls b) b m v refl) still in
      (streamer ∙ ap (receive write es) same, later)

  run-append :
      (xs ys : List Event) (m : LogManager S W)
      → run d write fresh (xs ++ ys) m ≡ run d write fresh ys (run d write fresh xs m)
  run-append [] ys m = refl
  run-append (e ∷ xs) ys m = run-append xs ys (happen d write fresh e m)

  -- A streamer whose stream goes on is attached once. Where the stream has stopped, the call returns
  -- as soon as its thread wakes, and then the streamer is not attached.
  abbrev pub IsServed : ℕ → LogManager S W → Type 0
  IsServed c n =
      (((n.streamers c).stopped ≡ false)
        × (n.calls c ≡ waiting)
        × (occurs c (d.sinks n.dist_sink) ≡ 1))
      ⊎ (((n.streamers c).stopped ≡ true)
          × ((happen d write fresh (wake c) n).calls c ≡ returned)
          × (occurs c (d.sinks (happen d write fresh (wake c) n).dist_sink) ≡ 0))

  served :
      (phase : Phase) (c : ℕ) (n : LogManager S W)
      → IsAttached n
      → n.calls c ≡ phase
      → phase ≢ idle
      → IsServed c n
  unfolding resume_stream detach_streamer
  served idle c n v h called = absurd (called refl)
  served waiting c n v h called = elim (Bool-cases (n.streamers c).stopped) [
    | inl stopped ↦ inr (
      stopped,
      ground (arith, h, stopped),
      ground (arith, h, stopped, lawful.removed c c n.dist_sink),
    )
    | inr more ↦ inl (more, h, v.attached c ∙ ap attachments h)
  ]
  served returned c n v h called =
      inr (v.ended c h, ground (arith, h), ground (arith, h, v.attached c))

  waiting_ne : waiting ≢ idle
  waiting_ne e = cc

  begun :
      (c : ℕ) (m : LogManager S W)
      → m.calls c ≡ idle
      → let n = happen d write fresh (call c) m in
        (n.streamers c ≡ record { stream = fresh c; stopped = false }) × (n.calls c ≡ waiting)
  unfolding begin_stream attach_streamer
  begun c m h = (ground (arith, h), ground (arith, h))

  -- For any number of clients, and any schedule of their calls, of log messages and of wakings: a
  -- client that calls `stream_logs` once has a stream that is as if it were alone. Its streamer gets
  -- each message that is logged after the call, once and in order, until a write fails; the other
  -- clients change nothing. As long as the stream goes on, the streamer is attached and the call
  -- waits; once it has stopped, the call returns when its thread wakes, and the streamer is detached.
  pub stream_logs_lem :
      (before later : List Event) (c : ℕ)
      → (run d write fresh before (create d write fresh)).calls c ≡ idle
      → (let n = run d write fresh (before ++ call c ∷ later) (create d write fresh) in
          (n.streamers c ≡ receive write later (record { stream = fresh c; stopped = false }))
          × IsServed c n)
  stream_logs_lem before later c h =
      let m = run d write fresh before (create d write fresh) in
      let v = run-IsAttached before (create d write fresh) create-IsAttached in
      let k = happen d write fresh (call c) m in
      let vk = happen-IsAttached (call c) m v in
      let (streamer, called) = begun c m h in
      let still : k.calls c ≢ idle = λ e. waiting_ne (sym called ∙ e) in
      let (same, later_called) = run_receives later c k vk still in
      let n = run d write fresh later k in
      rw (run-append before (call c ∷ later) (create d write fresh)) (
        same ∙ ap (receive write later) streamer,
        served (n.calls c) c n (run-IsAttached later k vk) refl later_called,
      )
