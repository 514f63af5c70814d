-- ===== src/Log/Laws.antt =====
-- The end of a log stream of driver/log_streamer.cpp.
use roc_vad.Prelude.{
  ◌≡◌, ◌≢◌, ◌⊎◌, sym, inl, inr, refl, Bool, true, false, List, [], ◌∷◌, arith, Bool-cases,
}
use roc_vad.Log.Cat
use roc_vad.Log.{
  Level, map_level, RvLogEntry, LogMsg, returned, Waiting, Event, log, turn, spurious, entry_of,
  sink_it, notifies, notify_all, sink_and_notify, wait_client_disconnect, happen, run,
}

module _ {W : Type 0} (write : RvLogEntry → W → Bool × W) where
  -- Each message of the schedule is written with success, one after the other.
  abbrev pub AllWritten : List Event → W → Type 0
  AllWritten [] w = Unit
  AllWritten (log msg ∷ rest) w =
      ((write (entry_of msg) w).0 ≡ true) × AllWritten rest (write (entry_of msg) w).1
  AllWritten (turn ∷ rest) w = AllWritten rest w
  AllWritten (spurious ∷ rest) w = AllWritten rest w

  -- The stream has stopped, and the next turn of the waiting thread returns, if it has not returned.
  abbrev pub Ends : Waiting W → Type 0
  Ends s = (s.streamer.stopped ≡ true) × ((happen write turn s).waiter ≡ returned)

  -- The stream goes on, and the thread waits.
  abbrev pub GoesOn : Waiting W → Type 0
  GoesOn s = (s.streamer.stopped ≡ false) × (s.waiter ≢ returned)

  happen-Ends : (e : Event) (s : Waiting W) → Ends s → Ends (happen write e s)
  unfolding sink_and_notify sink_it notifies notify_all wait_client_disconnect
  happen-Ends (log msg) s (stopped, next) = ground (arith, stopped, next)
  happen-Ends turn s (stopped, next) = ground (arith, stopped, next)
  happen-Ends spurious s (stopped, next) = ground (arith, stopped, next)

  run-Ends : (es : List Event) (s : Waiting W) → Ends s → Ends (run write es s)
  run-Ends [] s ends = ends
  run-Ends (e ∷ es) s ends = run-Ends es (happen write e s) (happen-Ends e s ends)

  turn-GoesOn : (s : Waiting W) → GoesOn s → GoesOn (happen write turn s)
  unfolding wait_client_disconnect
  turn-GoesOn s (live, waits) = ground (arith, live, waits)

  spurious-GoesOn : (s : Waiting W) → GoesOn s → GoesOn (happen write spurious s)
  unfolding notify_all
  spurious-GoesOn s (live, waits) = ground (arith, live, waits)

  written-GoesOn :
      (msg : LogMsg) (s : Waiting W)
      → GoesOn s
      → (write (entry_of msg) s.streamer.stream).0 ≡ true
      → GoesOn (happen write (log msg) s)
        × ((happen write (log msg) s).streamer.stream ≡ (write (entry_of msg) s.streamer.stream).1)
  unfolding sink_and_notify sink_it notifies
  written-GoesOn msg s (live, waits) written = ground (arith, live, waits, written)

  -- A write that fails notifies the waiting thread, so that it does not sleep on.
  failed-Ends :
      (msg : LogMsg) (s : Waiting W)
      → GoesOn s
      → (write (entry_of msg) s.streamer.stream).0 ≡ false
      → Ends (happen write (log msg) s)
  unfolding sink_and_notify sink_it notifies notify_all wait_client_disconnect
  failed-Ends msg s (live, waits) failed = ground (arith, live, waits, failed)

  -- From a stream that goes on and whose thread waits, asleep or not, for every schedule of log
  -- messages, of turns of the thread and of wakings without a notification: either every message was
  -- written with success, the stream goes on and `wait_client_disconnect` has not returned; or the
  -- stream has stopped, and `wait_client_disconnect` has returned or returns at the next turn of its
  -- thread, without a further message or waking. So the first write that fails, at the latest that of
  -- the first message after the client has gone, ends the wait.
  pub wait_client_disconnect_lem :
      (es : List Event) (s : Waiting W)
      → GoesOn s
      → (AllWritten es s.streamer.stream × GoesOn (run write es s)) ⊎ Ends (run write es s)
  wait_client_disconnect_lem [] s live = inl (tt, live)
  wait_client_disconnect_lem (turn ∷ es) s live =
      wait_client_disconnect_lem es (happen write turn s) (turn-GoesOn s live)
  wait_client_disconnect_lem (spurious ∷ es) s live =
      wait_client_disconnect_lem es (happen write spurious s) (spurious-GoesOn s live)
  wait_client_disconnect_lem (log msg ∷ es) s live =
      elim (Bool-cases (write (entry_of msg) s.streamer.stream).0) [
        | inl written ↦
            let (still, same) = written-GoesOn msg s live written in
            elim (wait_client_disconnect_lem es (happen write (log msg) s) still) [
              | inl (all, later) ↦ inl ((written, rw (sym same) all), later)
              | inr ends ↦ inr ends
            ]
        | inr failed ↦ inr (run-Ends es (happen write (log msg) s) (failed-Ends msg s live failed))
      ]

-- A level of the driver's log is printed as the same level by `roc-vad logcat`, but for `off`, at which
-- nothing is logged.
pub map_level_round :
    (level : Level) → (level ≡ Level.off) ⊎ (Cat.map_level (map_level level) ≡ level)
unfolding Cat.map_level map_level
map_level_round Level.trace = inr refl
map_level_round Level.debug = inr refl
map_level_round Level.info = inr refl
map_level_round Level.warn = inr refl
map_level_round Level.err = inr refl
map_level_round Level.critical = inr refl
map_level_round Level.off = inl refl
