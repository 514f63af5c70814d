-- ===== src/Handler/Tests.antt =====
-- A run of driver/request_handler.cpp with numbers for the samples.
use roc_vad.Prelude.{ℕ, ◌*◌, ◌≡◌, refl, false, List, [], ◌∷◌, some, arith, length, get_or}
use roc_vad.Samples.{filled, length-filled}
use roc_vad.Ring.{RingBuffer}
use roc_vad.Ring.Slots.{IsStarted}
use roc_vad.Ring.Appends.{Fits}
use roc_vad.Prelude.{suc, ltb, if◌then◌else◌}
use roc_vad.Ring.Write.{heard}
use roc_vad.Handler.{RequestHandler, Gain, on_write_mixed_output, on_read_client_input}
use roc_vad.Handler.Pull.{read_pulls}
use roc_vad.Handler.{enlarged}
use roc_vad.Prelude.{true, ◌==◌}
use roc_vad.Transceiver.Frames.{Frames, Link, read, length-read}
use roc_vad.Handler.Laws.{with_gain, write_passes_on}

abbrev doubled : Gain ℕ
doubled = record { is_unity = false; amplify = λ n. n * 2 }

abbrev ring : RingBuffer ℕ
ring = record {
  buf_data = 1 ∷ 2 ∷ 3 ∷ 4 ∷ [];
  buf_size = 4;
  buf_off = 0;
  head_ts = 0;
  tail_ts = 4;
  first_write = false;
}

ring-IsStarted : IsStarted ring
ring-IsStarted = record {
  started = refl;
  sized = refl;
  nonempty = omega arith;
  small = omega arith;
  off_in = omega arith;
  window = refl;
  tail_in = omega arith;
}

abbrev handler : RequestHandler ℕ
handler = record { chan_count = 2; ring_buf = ring; ring_buf_pos = 4; io_buf = [] }

abbrev written : List ℕ
written = 5 ∷ 6 ∷ []

written-Fits : Fits ring 4 written 2
written-Fits = record {
  some_samples = omega arith;
  shorter = omega arith;
  given = omega arith;
  below_limit = omega arith;
}

write_passes_on_example :
    (k : RequestHandler ℕ) × (sent : List ℕ) × (on_write_mixed_output 0 doubled handler 2 written 2
      ≡ some (k, sent))
    × (length sent ≡ 2)
    × (get_or sent 1 0 ≡ with_gain 0 doubled (get_or written 1 0))
    × (k.ring_buf_pos ≡ k.ring_buf.tail_ts)
    × IsStarted k.ring_buf
write_passes_on_example =
    write_passes_on 0 doubled handler 2 2 1 written ring-IsStarted refl refl written-Fits
      (omega arith)

-- Reads that give nines, or fail in state zero and leave ones; each changes the state.
abbrev frames : Frames ℕ ℕ
frames = record {
  receiver_read = λ n samples w. ((ltb 0 w, filled samples 0 n (if w == 0 then 1 else 9)), suc w);
  sender_write = λ samples w. (true, w);
  in_frame = λ n samples w h. length-filled samples 0 n (if w == 0 then 1 else 9);
}

abbrev link : Link ℕ
link = record { err_count = 0; outside = 7 }

read_pulls_example :
    (k : RequestHandler ℕ) × (out : List ℕ) × (on_read_client_input 0 doubled
        (read frames)
        handler
        1
        (0 ∷ 0 ∷ 0 ∷ [])
        3
        link
      ≡ some (k, out, (read frames 1 (enlarged 0 doubled [] 1) link).1))
    × IsStarted k.ring_buf
    × (k.ring_buf.tail_ts ≡ 5)
    × (get_or out 2 0 ≡ (
        if ltb 4 4
        then heard 0 ring 4
        else with_gain 0 doubled (get_or (read frames 1 (enlarged 0 doubled [] 1) link).0 0 0)))
read_pulls_example =
    read_pulls 0 doubled (read frames) handler 1 3 2 (0 ∷ 0 ∷ 0 ∷ []) link (length-read frames)
      ring-IsStarted (omega arith) (omega arith) (omega arith) (omega arith) (omega arith)
      (omega arith)
