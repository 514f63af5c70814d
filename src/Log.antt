-- ===== src/Log.antt =====
-- driver/log_streamer.cpp: the log of the driver as a stream to a client. The formatter of spdlog and
-- the writer of the stream are parameters. A text is the list of its bytes. The log thread and
-- the thread that waits for the client are one schedule of events; each keeps the mutex for its step.
pub mod Cat
pub mod Laws
pub mod Streams
pub mod Delivery
pub mod Isolation
mod Tests
use roc_vad.Prelude.{
  ℕ, zero, suc, Bool, true, false, ◌||◌, List, [], ◌∷◌, not, ◌&&◌, ◌==◌, if◌then◌else◌, length,
  get_or, take,
}

-- `spdlog::level::level_enum`
pub data Level : Type 0 where
  trace debug info warn err critical off : Level

-- `RvLogEntry::Level`
pub data RvLevel : Type 0 where
  crit error warn info debug trace : RvLevel
  other : ℕ → RvLevel

unfoldable pub map_level : Level → RvLevel
map_level Level.critical = RvLevel.crit
map_level Level.err = RvLevel.error
map_level Level.warn = RvLevel.warn
map_level Level.info = RvLevel.info
map_level Level.debug = RvLevel.debug
map_level _ = RvLevel.trace

-- `RvLogEntry`, with a time in nanoseconds.
pub record RvLogEntry : Type 0 where
  pub time : ℕ
  pub level : RvLevel
  pub text : List ℕ

-- `log_msg`, with the text that the formatter makes of it.
pub record LogMsg : Type 0 where
  pub time : ℕ
  pub level : Level
  pub formatted : List ℕ

abbrev pub is_newline : ℕ → Bool
is_newline c = c == 10 || c == 13

-- The size of the buffer after the loop that drops line ends, from the size `n` on.
unfoldable pub trimmed_size : List ℕ → ℕ → ℕ
trimmed_size buf zero = zero
trimmed_size buf (suc n) =
    let rest = trimmed_size buf n in if is_newline (get_or buf n 0) then rest else suc n

unfoldable pub entry_of : LogMsg → RvLogEntry
entry_of msg = record {
  time = msg.time;
  level = map_level msg.level;
  text = take (trimmed_size msg.formatted (length msg.formatted)) msg.formatted;
}

-- The streamer, with the state of the stream.
pub record LogStreamer (W : Type 0) : Type 0 where
  pub stream : W
  pub stopped : Bool

-- The thread in `wait_client_disconnect`: it is to look at `stopped_`, sleeps in `cond_.wait`, or has
-- returned.
pub data Waiter : Type 0 where
  looking asleep returned : Waiter

-- A streamer and the thread that waits for its end.
pub record Waiting (W : Type 0) : Type 0 where
  pub streamer : LogStreamer W
  pub waiter : Waiter

-- A message is logged, the waiting thread has its turn, or it wakes though it was not notified, as
-- `cond_.wait` may.
pub data Event : Type 0 where
  log : LogMsg → Event
  turn spurious : Event

-- One round of the loop of `wait_client_disconnect`, which keeps the mutex but where it sleeps.
unfoldable pub wait_client_disconnect : Bool → Waiter → Waiter
wait_client_disconnect stopped looking = if stopped then returned else asleep
wait_client_disconnect stopped asleep = asleep
wait_client_disconnect stopped returned = returned

-- `cond_.notify_all()`, and the end of `cond_.wait` without it.
unfoldable pub notify_all : Waiter → Waiter
notify_all looking = looking
notify_all asleep = looking
notify_all returned = returned

module _ {W : Type 0} (write : RvLogEntry → W → Bool × W) where
  -- The end of `sink_it_`, where `Write` has returned.
  abbrev after_write : Bool × W → LogStreamer W
  after_write (true, w) = record { stream = w; stopped = false }
  after_write (false, w) = record { stream = w; stopped = true }

  -- `sink_it_`, but for the thread that waits.
  unfoldable pub sink_it : LogMsg → LogStreamer W → LogStreamer W
  sink_it msg s = if s.stopped then s else after_write (write (entry_of msg) s.stream)

  -- Whether it notifies this thread.
  unfoldable pub notifies : LogMsg → LogStreamer W → Bool
  notifies msg s = not s.stopped && not (write (entry_of msg) s.stream).0

  -- `sink_it_`
  unfoldable pub sink_and_notify : LogMsg → Waiting W → Waiting W
  sink_and_notify msg s = record {
    streamer = sink_it msg s.streamer;
    waiter = if notifies msg s.streamer then notify_all s.waiter else s.waiter;
  }

  abbrev pub happen : Event → Waiting W → Waiting W
  happen (log msg) s = sink_and_notify msg s
  happen turn s = record s { waiter = wait_client_disconnect s.streamer.stopped s.waiter }
  happen spurious s = record s { waiter = notify_all s.waiter }

  abbrev pub run : List Event → Waiting W → Waiting W
  run [] s = s
  run (e ∷ es) s = run es (happen e s)
