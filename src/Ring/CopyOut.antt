-- ===== src/Ring/CopyOut.antt =====
-- `copy_from_buffer_` of driver/ring_buffer.cpp, index by index.
use roc_vad.Prelude.{
  ℕ, ◌+◌, ◌-◌, ◌%◌, ◌≤◌, ◌<◌, ◌≡◌, ◌&&◌, List, some, arith, ltb, leb, if◌then◌else◌, length, get_or,
}
use roc_vad.Prelude.Word.{turn}
use roc_vad.Samples.{copied, copy_n, length-copied, get_or-copied, get_or_irrelevant}
use roc_vad.Ring.{RingBuffer, copy_out}

-- What `copy_out` leaves in the array `out`, from the index `at` on.
module _ {A : Type 0} (size : ℕ) (buf : List A) where
  pub got : List A → ℕ → ℕ → ℕ → List A
  got out at b n =
      if leb b ((b + n) % size)
      then copied buf b ((b + n) % size - b) out at
      else copied buf 0 ((b + n) % size) (copied buf b (size - b) out at) (at + (size - b))

  pub length-got : (out : List A) (at b n : ℕ) → length (got out at b n) ≡ length out
  unfolding got
  length-got out at b n = ground (
    arith,
    length-copied buf b ((b + n) % size - b) out at,
    length-copied buf 0 ((b + n) % size) (copied buf b (size - b) out at) (at + (size - b)),
    length-copied buf b (size - b) out at,
  )

  pub get_or-got :
      (out : List A) (at b n i : ℕ) (d : A)
      → b < size
      → n < size
      → i < length out
      → at + n ≤ length out
      → length buf ≡ size
      → get_or (got out at b n) i d ≡ (
          if leb at i && ltb i (at + n)
          then get_or buf ((b + (i - at)) % size) d
          else get_or out i d)
  unfolding got
  get_or-got out at b n i d hb hn hi ho hl = ground (
    arith,
    turn size b n hb,
    turn size b (i - at) hb,
    get_or-copied buf b ((b + n) % size - b) out at i d,
    get_or-copied buf b (size - b) out at i d,
    get_or-copied buf 0 ((b + n) % size) (copied buf b (size - b) out at) (at + (size - b)) i d,
    length-copied buf b (size - b) out at,
    get_or_irrelevant buf ((b + (i - at)) % size) (get_or out i d) d,
    get_or_irrelevant buf ((b + (i - at)) % size) (get_or (copied buf b (size - b) out at) i d) d,
  )

  pub copy_out-eq :
      (r : RingBuffer A) (out : List A) (at b n : ℕ)
      → r.buf_size ≡ size
      → r.buf_data ≡ buf
      → b < size
      → n < size
      → at + n ≤ length out
      → length buf ≡ size
      → copy_out r out at (b, (b + n) % size) ≡ some (got out at b n)
  unfolding copy_out got copy_n
  copy_out-eq r out at b n e e' hb hn ho hl =
      ground (arith, turn size b n hb, length-copied buf b (size - b) out at)
