-- ===== src/Log/Tests.antt =====
-- A log stream whose client leaves after one message, and two clients at once.
use roc_vad.Prelude.{
  ℕ, suc, ◌++◌, ◌≡◌, ◌⊎◌, refl, Bool, false, List, [], ◌∷◌, ltb, ◌==◌, if◌then◌else◌, arith,
}
use roc_vad.Log.{
  Level, RvLogEntry, LogMsg, Event, log, turn, spurious, Waiting, looking, run, sink_it, notifies,
  notify_all, sink_and_notify, wait_client_disconnect,
}
use roc_vad.Log.Streams
use roc_vad.Log.Streams.{occurs, DistSink, IsDistSink}
use roc_vad.Log.Delivery.{receive}
use roc_vad.Log.Isolation.{IsServed, stream_logs_lem}
use roc_vad.Log.Laws.{AllWritten, Ends, GoesOn, wait_client_disconnect_lem}

abbrev write_one : RvLogEntry → ℕ → Bool × ℕ
write_one entry n = (ltb n 1, suc n)

abbrev msg : LogMsg
msg = record { time = 5; level = Level.info; formatted = 104 ∷ 105 ∷ 10 ∷ [] }

abbrev schedule : List Event
schedule = turn ∷ log msg ∷ spurious ∷ turn ∷ log msg ∷ log msg ∷ []

-- A stream at its beginning.
abbrev begun : Waiting ℕ
begun = record { streamer = record { stream = 0; stopped = false }; waiter = looking }

-- The second write fails while the thread sleeps; it is notified, and returns at its turn.
notified : (run write_one schedule begun).waiter ≡ looking
unfolding sink_and_notify sink_it notifies notify_all wait_client_disconnect
notified = refl

begun-GoesOn : GoesOn write_one begun
begun-GoesOn = (refl, ground arith)

wait_client_disconnect_lem_example :
    (AllWritten write_one schedule 0 × GoesOn write_one (run write_one schedule begun))
    ⊎ Ends write_one (run write_one schedule begun)
wait_client_disconnect_lem_example =
    wait_client_disconnect_lem write_one schedule begun begun-GoesOn

-- A sink that keeps the numbers in a list.
remove : ℕ → List ℕ → List ℕ
remove p [] = []
remove p (q ∷ ps) = let rest = remove p ps in if q == p then rest else q ∷ rest

occurs-remove :
    (c p : ℕ) (ps : List ℕ) → occurs c (remove p ps) ≡ (if p == c then 0 else occurs c ps)
unfolding remove
occurs-remove c p [] = ground arith
occurs-remove c p (q ∷ ps) = ground (arith, occurs-remove c p ps)

abbrev list_sink : DistSink (List ℕ)
list_sink = record { make = []; add_sink = λ p ps. p ∷ ps; remove_sink = remove; sinks = λ ps. ps }

list_sink-IsDistSink : IsDistSink list_sink
list_sink-IsDistSink = record { empty = λ c. refl; added = λ c p ps. refl; removed = occurs-remove }

-- The second client calls between two messages of the first, and leaves after one.
abbrev first_call : List Streams.Event
first_call = Streams.call 1 ∷ Streams.log msg ∷ []

abbrev second_call : List Streams.Event
second_call = Streams.log msg ∷ Streams.wake 1 ∷ Streams.log msg ∷ Streams.wake 2 ∷ []

abbrev start : Streams.LogManager (List ℕ) ℕ
start = Streams.create list_sink write_one (λ c. 0)

second_idle : (Streams.run list_sink write_one (λ c. 0) first_call start).calls 2 ≡ Streams.idle
unfolding Streams.create Streams.begin_stream Streams.attach_streamer
second_idle = refl

stream_logs_lem_example :
    let n =
      Streams.run list_sink write_one (λ c. 0) (first_call ++ Streams.call 2 ∷ second_call) start in
    (n.streamers 2 ≡ receive write_one second_call (record { stream = 0; stopped = false }))
    × IsServed list_sink write_one (λ c. 0) list_sink-IsDistSink 2 n
stream_logs_lem_example =
    stream_logs_lem list_sink write_one (λ c. 0) list_sink-IsDistSink first_call second_call 2
      second_idle
