-- ===== src/Log/Streams.antt =====
-- driver/log_manager.cpp, and `stream_logs` of driver/driver_service.cpp: any number of clients read the
-- log at once. The sink of spdlog that passes messages on to others is a parameter. A call of
-- `stream_logs` has a number, by which its streamer is known too. A message of the schedule is one
-- that the log thread hands to the sinks; what its queue drops is not in the schedule.
use roc_vad.Prelude.{ℕ, Bool, false, List, [], ◌∷◌, ◌+◌, ◌≡◌, ◌==◌, if◌then◌else◌}
use roc_vad.Log.{Level, LogMsg, RvLogEntry, LogStreamer, sink_it}

-- `roc_log_level`; `other` stands for the levels below `ROC_LOG_INFO`.
pub data RocLogLevel : Type 0 where
  error info other : RocLogLevel

-- `rocLogger`: the level of a message of roc.
unfoldable pub roc_level : RocLogLevel → Level
roc_level RocLogLevel.error = Level.err
roc_level RocLogLevel.info = Level.info
roc_level _ = Level.debug

-- How often a number stands in a list.
abbrev pub occurs : ℕ → List ℕ → ℕ
occurs c [] = 0
occurs c (p ∷ ps) = (if p == c then 1 else 0) + occurs c ps

-- `spdlog::sinks::dist_sink_mt`: it holds the sinks that were added and not removed.
pub record DistSink (S : Type 0) : Type 0 where
  pub make : S
  pub add_sink : ℕ → S → S
  pub remove_sink : ℕ → S → S
  pub sinks : S → List ℕ

pub record IsDistSink {S : Type 0} (d : DistSink S) : Type 0 where
  pub empty : (c : ℕ) → occurs c (d.sinks d.make) ≡ 0
  pub added :
      (c p : ℕ) (s : S)
      → occurs c (d.sinks (d.add_sink p s)) ≡ (if p == c then 1 else 0) + occurs c (d.sinks s)
  pub removed :
      (c p : ℕ) (s : S)
      → occurs c (d.sinks (d.remove_sink p s)) ≡ (if p == c then 0 else occurs c (d.sinks s))

-- A call of `stream_logs`.
pub data Phase : Type 0 where
  idle waiting returned : Phase

-- The log manager, with the streamers and the calls.
pub record LogManager (S W : Type 0) : Type 0 where
  pub dist_sink : S
  pub streamers : ℕ → LogStreamer W
  pub calls : ℕ → Phase

-- A client calls `stream_logs`, a message reaches the sinks, or the thread of a call wakes.
pub data Event : Type 0 where
  call : ℕ → Event
  log : LogMsg → Event
  wake : ℕ → Event

module _ {W : Type 0} (write : RvLogEntry → W → Bool × W) where
  -- A message at each sink in turn.
  unfoldable pub deliver : LogMsg → List ℕ → (ℕ → LogStreamer W) → ℕ → LogStreamer W
  deliver msg [] streamers = streamers
  deliver msg (p ∷ ps) streamers =
      deliver msg ps (λ q. if q == p then sink_it write msg (streamers q) else streamers q)

-- `fresh` is the stream of a new call.
module _ {S W : Type 0} (d : DistSink S) (write : RvLogEntry → W → Bool × W) (fresh : ℕ → W) where
  unfoldable pub attach_streamer : ℕ → LogManager S W → LogManager S W
  attach_streamer c m = record m {
    dist_sink = d.add_sink c m.dist_sink;
    streamers = λ p. if p == c then record { stream = fresh c; stopped = false } else m.streamers p;
  }

  unfoldable pub detach_streamer : ℕ → LogManager S W → LogManager S W
  detach_streamer c m = record m { dist_sink = d.remove_sink c m.dist_sink }

  abbrev pub in_phase : ℕ → Phase → LogManager S W → LogManager S W
  in_phase c phase m = record m { calls = λ p. if p == c then phase else m.calls p }

  -- `stream_logs` up to the wait; a call has one beginning.
  unfoldable pub begin_stream : Phase → ℕ → LogManager S W → LogManager S W
  begin_stream idle c m = in_phase c waiting (attach_streamer c m)
  begin_stream waiting c m = m
  begin_stream returned c m = m

  -- `stream_logs` from the wait on: it goes on where `stopped_` is set.
  unfoldable pub resume_stream : Phase → ℕ → LogManager S W → LogManager S W
  resume_stream idle c m = m
  resume_stream waiting c m =
      if (m.streamers c).stopped then in_phase c returned (detach_streamer c m) else m
  resume_stream returned c m = m

  abbrev pub happen : Event → LogManager S W → LogManager S W
  happen (call c) m = begin_stream (m.calls c) c m
  happen (log msg) m = record m { streamers = deliver write msg (d.sinks m.dist_sink) m.streamers }
  happen (wake c) m = resume_stream (m.calls c) c m

  abbrev pub run : List Event → LogManager S W → LogManager S W
  run [] m = m
  run (e ∷ es) m = run es (happen e m)

  -- The log manager at first, with no call.
  unfoldable pub create : LogManager S W
  create = record {
    dist_sink = d.make;
    streamers = λ c. record { stream = fresh c; stopped = false };
    calls = λ c. idle;
  }
