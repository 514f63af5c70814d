-- ===== src/Ring/Appends.antt =====
-- `RingBuffer::write` of driver/ring_buffer.cpp as an operation on a timeline of samples.
use native.Mathlib.Nat.{mod-eq-sub-mod}
use roc_vad.Prelude.{
  ℕ, ◌+◌, ◌-◌, ◌%◌, ◌^◌, ◌≤◌, ◌<◌, max, ◌≡◌, refl, ap, ◌∙◌, true, ◌&&◌, ◌⊎◌, List, some, arith, ltb,
  leb, if◌then◌else◌, length, get_or,
}
use roc_vad.Ring.{RingBuffer, place, copy_to_buffer, write}
use roc_vad.Ring.Slots.{slot, IsStarted}
use roc_vad.Ring.Write.{
  heard, written, write-written, moved, moved-fields, moved-IsStarted, filled_in-IsStarted,
  heard-filled_in, heard-moved, slot-moved, copy_to_buffer-filled_in, filled_in, filled_in-fields,
}

-- A write that the code supports: fewer samples than the buffer holds, none older than its window.
pub record Fits {A : Type 0} (r : RingBuffer A) (timestamp : ℕ) (samples : List A) (n : ℕ)
    : Type 0 where
  pub some_samples : 0 < n
  pub shorter : n < r.buf_size
  pub given : n ≤ length samples
  pub below_limit : timestamp + n < 2 ^ 64

-- A buffer that nothing was written to.
pub record IsFresh {A : Type 0} (silence : A) (r : RingBuffer A) : Type 0 where
  pub first : r.first_write ≡ true
  pub sized : length r.buf_data ≡ r.buf_size
  pub nonempty : 0 < r.buf_size
  pub small : r.buf_size ≤ 2 ^ 63
  pub head : r.head_ts ≡ 0
  pub tail : r.tail_ts ≡ 0
  pub quiet : (i : ℕ) → get_or r.buf_data i silence ≡ silence

place-fields :
    {A : Type 0} (r : RingBuffer A) (timestamp n : ℕ)
    → r.buf_size ≤ 2 ^ 63
    → 0 < r.buf_size
    → r.buf_size ≤ timestamp + n
    → timestamp + n < 2 ^ 64
    → ((place r timestamp n).tail_ts ≡ timestamp + n)
      × ((place r timestamp n).head_ts ≡ timestamp + n - r.buf_size)
      × ((place r timestamp n).buf_size ≡ r.buf_size)
      × ((place r timestamp n).buf_data ≡ r.buf_data)
unfolding place
place-fields r timestamp n small pos big below = (omega arith, omega arith, refl, refl)

place-IsStarted :
    {A : Type 0} (silence : A) (r : RingBuffer A) (timestamp n : ℕ)
    → IsFresh silence r
    → r.buf_size ≤ timestamp + n
    → timestamp + n < 2 ^ 64
    → IsStarted (place r timestamp n)
unfolding place
place-IsStarted silence r timestamp n v big below = ground (arith, v)

write-place :
    {A : Type 0} (r : RingBuffer A) (timestamp : ℕ) (samples : List A) (n : ℕ)
    → r.first_write ≡ true
    → Fits r timestamp samples n
    → r.buf_size ≤ timestamp + n
    → write r timestamp samples n ≡ copy_to_buffer (place r timestamp n) timestamp samples n
unfolding write
write-place r timestamp samples n first f big = ground (arith, f)

-- A timestamp behind the window has the slot of the one a whole buffer length before.
slot-behind :
    {A : Type 0} (r : RingBuffer A) (t : ℕ)
    → IsStarted r
    → r.tail_ts ≤ t
    → slot r t ≡ slot r (t - r.buf_size)
slot-behind r t v h =
    mod-eq-sub-mod {n = r.buf_off + (t - r.head_ts)} (omega arith)
    ∙ ap (λ k. k % r.buf_size) (omega arith)

module _ {A : Type 0} (silence : A) (r : RingBuffer A) (timestamp : ℕ) (samples : List A)
    (n : ℕ) where
  -- A write to a started buffer, of at least one sample and fewer than it holds, that does not begin
  -- before the window and ends below 2 ^ 64, succeeds and leaves the buffer well formed. The window
  -- ends at the later of its old end and the end of the samples. The samples are heard at their
  -- timestamps; every other timestamp that is not before the new window keeps what was heard there,
  -- save those that the write skipped: those at or after the old end and before the samples.
  pub write_next :
      (t : ℕ)
      → IsStarted r
      → Fits r timestamp samples n
      → r.head_ts ≤ timestamp
      → max r.tail_ts (timestamp + n) ≤ t + r.buf_size
      → (t < r.tail_ts) ⊎ (timestamp ≤ t)
      → (r' : RingBuffer A) × (write r timestamp samples n ≡ some r')
        × IsStarted r'
        × (r'.tail_ts ≡ max r.tail_ts (timestamp + n))
        × (heard silence r' t ≡ (
            if leb timestamp t && ltb t (timestamp + n)
            then get_or samples (t - timestamp) silence
            else heard silence r t))
  write_next t v f h in_window side = (
    written r timestamp samples n,
    write-written r timestamp samples n v f.some_samples f.shorter f.given h f.below_limit,
    filled_in-IsStarted m timestamp samples n started,
    ground (arith, moved-fields r timestamp n, filled_in-fields m timestamp samples n),
    ground (
      arith,
      v,
      f,
      moved-fields r timestamp n,
      filled_in-fields m timestamp samples n,
      heard-filled_in silence m timestamp samples n t started,
      heard-moved silence r timestamp n t v,
    ),
  )
    where
      m : RingBuffer A
      m = moved r timestamp n

      started : IsStarted m
      started = moved-IsStarted r timestamp n v f.below_limit

  -- A write to a started buffer, of at least one sample and fewer than it holds, that ends below
  -- 2 ^ 64 and skips timestamps: a skipped one that is in the new window, and less than a buffer
  -- length behind the old end, does not become silent. It repeats the sample of one buffer length
  -- before.
  pub write_skip :
      (t : ℕ)
      → IsStarted r
      → Fits r timestamp samples n
      → r.tail_ts ≤ t
      → t < timestamp
      → t < r.tail_ts + r.buf_size
      → timestamp + n ≤ t + r.buf_size
      → (r' : RingBuffer A) × (write r timestamp samples n ≡ some r')
        × (heard silence r' t ≡ heard silence r (t - r.buf_size))
  write_skip t v f skipped before near kept = (
    written r timestamp samples n,
    write-written r timestamp samples n v f.some_samples f.shorter f.given (omega arith)
        f.below_limit,
    ground (
      arith,
      v,
      f,
      moved-fields r timestamp n,
      filled_in-fields m timestamp samples n,
      heard-filled_in silence m timestamp samples n t started,
      slot-moved r timestamp n t v,
      slot-behind r t v,
    ),
  )
    where
      m : RingBuffer A
      m = moved r timestamp n

      started : IsStarted m
      started = moved-IsStarted r timestamp n v f.below_limit

  -- The first write to a fresh buffer, of at least one sample and fewer than it holds, that ends at
  -- the buffer's length or later and below 2 ^ 64: it succeeds and opens the window, which ends
  -- behind the samples. They are heard at their timestamps, and every other timestamp is silent.
  pub write_first :
      (t : ℕ)
      → IsFresh silence r
      → Fits r timestamp samples n
      → r.buf_size ≤ timestamp + n
      → (r' : RingBuffer A) × (write r timestamp samples n ≡ some r')
        × IsStarted r'
        × (r'.tail_ts ≡ timestamp + n)
        × (heard silence r' t ≡ (
            if leb timestamp t && ltb t (timestamp + n)
            then get_or samples (t - timestamp) silence
            else silence))
  write_first t v f big = (
    filled_in p timestamp samples n,
    ground (
      arith,
      write-place r timestamp samples n v.first f big,
      copy_to_buffer-filled_in p timestamp samples n started,
      placed,
      v,
      f,
    ),
    filled_in-IsStarted p timestamp samples n started,
    ground (arith, placed, filled_in-fields p timestamp samples n),
    ground (
      arith,
      v,
      f,
      placed,
      heard-filled_in silence p timestamp samples n t started,
      v.quiet (slot p t),
    ),
  )
    where
      p : RingBuffer A
      p = place r timestamp n

      placed :
          (p.tail_ts ≡ timestamp + n)
          × (p.head_ts ≡ timestamp + n - r.buf_size)
          × (p.buf_size ≡ r.buf_size)
          × (p.buf_data ≡ r.buf_data)
      placed = place-fields r timestamp n v.small v.nonempty big f.below_limit

      started : IsStarted p
      started = place-IsStarted silence r timestamp n v big f.below_limit
