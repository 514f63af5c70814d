-- ===== src/Ring/Slots.antt =====
-- The physical slots of a `RingBuffer`, and what the two private copies of
-- driver/ring_buffer.cpp do to them.
use native.Mathlib.Nat.{mod-add-mod, mod-eq-sub-mod, mod-lt}
use roc_vad.Prelude.{
  ℕ, ◌+◌, ◌-◌, ◌%◌, ◌^◌, ◌≤◌, ◌<◌, ◌≡◌, ◌∙◌, ap, false, List, some, arith, ltb, leb, if◌then◌else◌,
  length, get_or,
}
use roc_vad.Prelude.Word.{add64, sub64, turn}
use roc_vad.Samples.{copied, copy_n, length-copied, get_or-copied, get_or_irrelevant}
use roc_vad.Ring.{RingBuffer, mod_checked, offsets, copy_in}

-- The slot of the sample with timestamp `t`.
abbrev pub slot : {A : Type 0} → RingBuffer A → ℕ → ℕ
slot r t = (r.buf_off + (t - r.head_ts)) % r.buf_size

-- The slots go round: from that of `a` it is `t - a` steps to that of `t`.
pub slot_steps :
    {A : Type 0} (r : RingBuffer A) (a t : ℕ)
    → r.head_ts ≤ a
    → a ≤ t
    → (slot r a + (t - a)) % r.buf_size ≡ slot r t
slot_steps r a t h k =
    mod-add-mod (r.buf_off + (a - r.head_ts)) r.buf_size (t - a)
    ∙ ap (λ n. n % r.buf_size) (omega arith)

-- Going on past the end of the array, the slots begin again.
pub slot_round :
    {A : Type 0} (r : RingBuffer A) (a t : ℕ)
    → r.head_ts ≤ t
    → t ≤ a
    → a ≤ t + r.buf_size
    → (slot r a + (t + r.buf_size - a)) % r.buf_size ≡ slot r t
slot_round r a t h k l =
    mod-add-mod (r.buf_off + (a - r.head_ts)) r.buf_size (t + r.buf_size - a)
    ∙ ap (λ n. n % r.buf_size) regroup
    ∙ mod-eq-sub-mod {n = r.buf_off + (t - r.head_ts) + r.buf_size} (omega arith)
    ∙ ap (λ n. n % r.buf_size) (omega arith)
  where
    regroup :
        r.buf_off + (a - r.head_ts) + (t + r.buf_size - a)
        ≡ r.buf_off + (t - r.head_ts) + r.buf_size
    regroup = omega arith

-- A buffer that has been written: its window is as long as its array, and ends below 2 ^ 64.
pub record IsStarted {A : Type 0} (r : RingBuffer A) : Type 0 where
  pub started : r.first_write ≡ false
  pub sized : length r.buf_data ≡ r.buf_size
  pub nonempty : 0 < r.buf_size
  pub small : r.buf_size ≤ 2 ^ 63
  pub off_in : r.buf_off < r.buf_size
  pub window : r.tail_ts ≡ r.head_ts + r.buf_size
  pub tail_in : r.tail_ts < 2 ^ 64

module _ {A : Type 0} (r : RingBuffer A) (v : IsStarted r) where
  pub slot-lt : (t : ℕ) → slot r t < r.buf_size
  slot-lt t = mod-lt (r.buf_off + (t - r.head_ts)) v.nonempty

  -- Inside the window the assertions hold, and the offsets are the slots.
  pub offsets_lem :
      (timestamp n : ℕ)
      → r.head_ts ≤ timestamp
      → timestamp + n ≤ r.tail_ts
      → offsets r timestamp n ≡ some (slot r timestamp, (slot r timestamp + n) % r.buf_size)
  unfolding offsets mod_checked
  offsets_lem timestamp n h k = ground (arith, slot-lt timestamp, begin, v)
    where
      begin : sub64 (add64 r.buf_off timestamp) r.head_ts ≡ r.buf_off + (timestamp - r.head_ts)
      begin = omega arith

-- What `copy_in` leaves in the array, with `b` the slot of the first sample.
module _ {A : Type 0} (size : ℕ) (samples : List A) where
  pub put : List A → ℕ → ℕ → List A
  put buf b n =
      if leb b ((b + n) % size)
      then copied samples 0 ((b + n) % size - b) buf b
      else copied samples (size - b) ((b + n) % size) (copied samples 0 (size - b) buf b) 0

  pub length-put : (buf : List A) (b n : ℕ) → length (put buf b n) ≡ length buf
  unfolding put
  length-put buf b n = ground (
    arith,
    length-copied samples 0 ((b + n) % size - b) buf b,
    length-copied samples (size - b) ((b + n) % size) (copied samples 0 (size - b) buf b) 0,
    length-copied samples 0 (size - b) buf b,
  )

  -- The copied samples stand in the `n` slots from `b` on, and the other slots are as before.
  pub get_or-put :
      (buf : List A) (b n k : ℕ) (d : A)
      → b < size
      → n < size
      → k < size
      → n ≤ length samples
      → length buf ≡ size
      → get_or (put buf b n) ((b + k) % size) d
        ≡ (if ltb k n then get_or samples k d else get_or buf ((b + k) % size) d)
  unfolding put
  get_or-put buf b n k d hb hn hk hs hl = ground (
    arith,
    turn size b n hb,
    turn size b k hb,
    get_or-copied samples 0 ((b + n) % size - b) buf b ((b + k) % size) d,
    get_or-copied samples 0 (size - b) buf b ((b + k) % size) d,
    get_or-copied samples (size - b) ((b + n) % size) (copied samples 0 (size - b) buf b) 0
        ((b + k) % size) d,
    length-copied samples 0 (size - b) buf b,
    get_or_irrelevant samples k (get_or buf ((b + k) % size) d) d,
    get_or_irrelevant samples k (get_or (copied samples 0 (size - b) buf b) ((b + k) % size) d) d,
  )

  -- The copy stays inside both arrays.
  pub copy_in-eq :
      (r : RingBuffer A) (b n : ℕ)
      → r.buf_size ≡ size
      → b < size
      → n < size
      → n ≤ length samples
      → length r.buf_data ≡ size
      → copy_in r samples (b, (b + n) % size) ≡ some (put r.buf_data b n)
  unfolding copy_in put copy_n
  copy_in-eq r b n e hb hn hs hl =
      ground (arith, turn size b n hb, length-copied samples 0 (size - b) r.buf_data b)
