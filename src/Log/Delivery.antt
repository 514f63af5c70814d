-- ===== src/Log/Delivery.antt =====
-- A log message at the sinks of driver/log_manager.cpp.
use roc_vad.Prelude.{ℕ, Bool, true, List, [], ◌∷◌, ◌≡◌, refl, ◌==◌, if◌then◌else◌, arith}
use roc_vad.Log.{LogMsg, RvLogEntry, LogStreamer, sink_it}
use roc_vad.Log.Streams.{occurs, Event, call, log, wake, deliver}

module _ {W : Type 0} (write : RvLogEntry → W → Bool × W) where
  pub sink_it_stopped :
      (msg : LogMsg) (s : LogStreamer W) → s.stopped ≡ true → sink_it write msg s ≡ s
  unfolding sink_it
  sink_it_stopped msg s h = ground (arith, h)

  -- One streamer on its own, which gets every message.
  abbrev pub receive : List Event → LogStreamer W → LogStreamer W
  receive [] s = s
  receive (log msg ∷ es) s = receive es (sink_it write msg s)
  receive (call c ∷ es) s = receive es s
  receive (wake c ∷ es) s = receive es s

  abbrev after : LogMsg → ℕ → (ℕ → LogStreamer W) → ℕ → LogStreamer W
  after msg p f q = if q == p then sink_it write msg (f q) else f q

  pub deliver_others :
      (msg : LogMsg) (c : ℕ) (ps : List ℕ) (f : ℕ → LogStreamer W)
      → occurs c ps ≡ 0
      → deliver write msg ps f c ≡ f c
  unfolding deliver
  deliver_others msg c [] f h = refl
  deliver_others msg c (p ∷ ps) f h = ground (arith, deliver_others msg c ps (after msg p f))

  pub deliver_once :
      (msg : LogMsg) (c : ℕ) (ps : List ℕ) (f : ℕ → LogStreamer W)
      → occurs c ps ≡ 1
      → deliver write msg ps f c ≡ sink_it write msg (f c)
  unfolding deliver
  deliver_once msg c [] f h = absurd (omega (arith, h))
  deliver_once msg c (p ∷ ps) f h =
      ground (arith, deliver_others msg c ps (after msg p f), deliver_once msg c ps (after msg p f))
