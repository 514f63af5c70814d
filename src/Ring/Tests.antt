-- ===== src/Ring/Tests.antt =====
-- Runs of the ring buffer of driver/ring_buffer.cpp on small buffers, and its theorems there.
use roc_vad.Prelude.{
  ℕ, zero, suc, length, ◌≡◌, refl, inl, true, false, List, [], ◌∷◌, none, some, arith, get_or,
}
use roc_vad.Samples.{copy_n, fill_n, copied, filled, map_from}
use roc_vad.Ring.{
  RingBuffer, create, write, read, n_need_write, mod_checked, offsets, copy_in, copy_out,
  copy_to_buffer, copy_from_buffer, advance, read_window,
}
use roc_vad.Ring.Slots.{IsStarted}
use roc_vad.Ring.Write.{heard}
use roc_vad.Ring.Appends.{IsFresh, write_next, write_skip, write_first}
use roc_vad.Ring.Read.{read_hears}
use roc_vad.Ring.Limits.{write_too_old, write_whole, read_outside, read_whole}
use roc_vad.Ring.Demand.{n_need_write_reaches}

-- The window is from 11 to 15, and the sample of 11 stands in slot 3.
abbrev turned : RingBuffer ℕ
turned = record {
  buf_data = 112 ∷ 113 ∷ 114 ∷ 111 ∷ [];
  buf_size = 4;
  buf_off = 3;
  head_ts = 11;
  tail_ts = 15;
  first_write = false;
}

abbrev fresh : RingBuffer ℕ
fresh = record {
  buf_data = 0 ∷ 0 ∷ 0 ∷ 0 ∷ [];
  buf_size = 4;
  buf_off = 0;
  head_ts = 0;
  tail_ts = 0;
  first_write = true;
}

abbrev three : List ℕ
three = 7 ∷ 8 ∷ 9 ∷ []

create_run : create 0 4 ≡ some fresh
unfolding create
create_run = refl

write_run :
    write turned 13 three 3
    ≡ some
        (record turned { buf_data = 112 ∷ 7 ∷ 8 ∷ 9 ∷ []; buf_off = 0; head_ts = 12; tail_ts = 16 })
unfolding write advance mod_checked copy_to_buffer offsets copy_in copy_n copied map_from
write_run = refl

read_run : read 0 turned 13 (1 ∷ 2 ∷ 3 ∷ 4 ∷ []) 3 ≡ some (113 ∷ 114 ∷ 0 ∷ 4 ∷ [])
unfolding read read_window mod_checked copy_from_buffer offsets copy_out copy_n fill_n copied filled
    map_from
read_run = refl

turned-IsStarted : IsStarted turned
turned-IsStarted = record {
  started = refl;
  sized = refl;
  nonempty = omega arith;
  small = omega arith;
  off_in = omega arith;
  window = refl;
  tail_in = omega arith;
}

fresh-quiet : (i : ℕ) → get_or fresh.buf_data i 0 ≡ 0
fresh-quiet zero = refl
fresh-quiet (suc zero) = refl
fresh-quiet (suc (suc zero)) = refl
fresh-quiet (suc (suc (suc zero))) = refl
fresh-quiet (suc (suc (suc (suc i)))) = refl

fresh-IsFresh : IsFresh 0 fresh
fresh-IsFresh = record {
  first = refl;
  sized = refl;
  nonempty = omega arith;
  small = omega arith;
  head = refl;
  tail = refl;
  quiet = fresh-quiet;
}

write_next_example :
    (r : RingBuffer ℕ) × (write turned 13 three 3 ≡ some r)
    × IsStarted r
    × (r.tail_ts ≡ 16)
    × (heard 0 r 14 ≡ 8)
write_next_example =
    write_next 0 turned 13 three 3 14 turned-IsStarted (omega arith) (omega arith) (omega arith)
      (inl (omega arith))

write_skip_example :
    (r : RingBuffer ℕ) × (write turned 16 (5 ∷ []) 1 ≡ some r) × (heard 0 r 15 ≡ 111)
write_skip_example =
    write_skip 0 turned 16 (5 ∷ []) 1 15 turned-IsStarted (omega arith) (omega arith) (omega arith)
      (omega arith) (omega arith)

write_first_example :
    (r : RingBuffer ℕ) × (write fresh 100 three 3 ≡ some r)
    × IsStarted r
    × (r.tail_ts ≡ 103)
    × (heard 0 r 101 ≡ 8)
write_first_example = write_first 0 fresh 100 three 3 101 fresh-IsFresh (omega arith) (omega arith)

read_hears_example :
    (out : List ℕ) × (read 0 turned 13 (1 ∷ 2 ∷ 3 ∷ 4 ∷ []) 3 ≡ some out)
    × (length out ≡ 4)
    × (get_or out 1 0 ≡ 114)
read_hears_example =
    read_hears 0 turned turned-IsStarted 13 3 (1 ∷ 2 ∷ 3 ∷ 4 ∷ []) 1
      (record {
        room = omega arith;
        below_limit = omega arith;
        not_after = omega arith;
        not_before = omega arith;
        not_whole = inl (omega arith);
      })
      (omega arith) (omega arith)

write_too_old_example : write turned 10 three 2 ≡ none
write_too_old_example =
    write_too_old turned turned-IsStarted 10 2 three (inl (omega arith)) (omega arith) (omega arith)

write_whole_example :
    (r : RingBuffer ℕ) × (write turned 15 (1 ∷ 2 ∷ 3 ∷ 4 ∷ []) 4 ≡ some r)
    × (r.tail_ts ≡ 19)
    × (r.head_ts ≡ 15)
    × (r.buf_data ≡ turned.buf_data)
write_whole_example =
    write_whole turned turned-IsStarted 15 4 (1 ∷ 2 ∷ 3 ∷ 4 ∷ []) refl (omega arith) (omega arith)

read_outside_example : read 0 turned 16 three 3 ≡ none
read_outside_example =
    read_outside 0 turned turned-IsStarted 16 3 three (inl (omega arith)) (omega arith)
      (omega arith) refl

read_whole_example : read 0 turned 11 (1 ∷ 2 ∷ 3 ∷ 4 ∷ []) 4 ≡ some (1 ∷ 2 ∷ 3 ∷ 4 ∷ [])
read_whole_example =
    read_whole 0 turned turned-IsStarted 11 4 (1 ∷ 2 ∷ 3 ∷ 4 ∷ []) refl refl (omega arith)

n_need_write_reaches_example :
    (r : RingBuffer ℕ) × (write turned 15 three (n_need_write turned 17) ≡ some r)
    × IsStarted r
    × (r.tail_ts ≡ 17)
unfolding n_need_write
n_need_write_reaches_example =
    n_need_write_reaches 0 turned turned-IsStarted 17 three (omega arith) (omega arith)
      (omega arith) (omega arith)
