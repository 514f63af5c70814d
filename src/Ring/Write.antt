-- ===== src/Ring/Write.antt =====
-- What `RingBuffer::write` of driver/ring_buffer.cpp does to a buffer, seen by timestamps.
use native.Mathlib.Nat.{mod-add-mod, mod-eq_of_lt, mod-lt}
use roc_vad.Prelude.{
  ℕ, ◌+◌, ◌-◌, ◌%◌, ◌^◌, ◌≤◌, ◌<◌, max, ◌≡◌, refl, ap, ◌∙◌, ◌&&◌, ◌⊎◌, List, some, arith, ltb, leb,
  if◌then◌else◌, length, get_or,
}
use roc_vad.Ring.{RingBuffer, mod_checked, advance, copy_to_buffer, write}
use roc_vad.Ring.Slots.{
  slot, slot_steps, slot_round, IsStarted, slot-lt, offsets_lem, put, length-put, get_or-put,
  copy_in-eq,
}

-- The sample that the buffer holds for the timestamp `t`: silence outside the window.
abbrev pub heard : {A : Type 0} → A → RingBuffer A → ℕ → A
heard silence r t =
    if leb r.head_ts t && ltb t r.tail_ts then get_or r.buf_data (slot r t) silence else silence

module _ {A : Type 0} where
  -- The window after a write of `n` samples at `timestamp`.
  pub moved : RingBuffer A → ℕ → ℕ → RingBuffer A
  moved r timestamp n =
      let tail = max r.tail_ts (timestamp + n) in
      record r {
        tail_ts = tail;
        head_ts = tail - r.buf_size;
        buf_off = (r.buf_off + (tail - r.buf_size - r.head_ts)) % r.buf_size;
      }

  pub advance-moved :
      (r : RingBuffer A) (timestamp n : ℕ)
      → IsStarted r
      → timestamp + n < 2 ^ 64
      → advance r timestamp n ≡ some (moved r timestamp n)
  unfolding advance moved mod_checked
  advance-moved r timestamp n v h = ground (arith, mod-eq_of_lt v.off_in)

  pub moved-IsStarted :
      (r : RingBuffer A) (timestamp n : ℕ)
      → IsStarted r
      → timestamp + n < 2 ^ 64
      → IsStarted (moved r timestamp n)
  unfolding moved
  moved-IsStarted r timestamp n v h = ground (
    arith,
    mod-lt (r.buf_off + (max r.tail_ts (timestamp + n) - r.buf_size - r.head_ts)) v.nonempty,
  )

  -- Moving the window leaves every sample in its slot.
  pub slot-moved :
      (r : RingBuffer A) (timestamp n t : ℕ)
      → IsStarted r
      → (moved r timestamp n).head_ts ≤ t
      → slot (moved r timestamp n) t ≡ slot r t
  unfolding moved
  slot-moved r timestamp n t v h =
      mod-add-mod (r.buf_off + (max r.tail_ts (timestamp + n) - r.buf_size - r.head_ts)) r.buf_size
        (t - (max r.tail_ts (timestamp + n) - r.buf_size))
      ∙ ap (λ k. k % r.buf_size) (omega arith)

  -- The copy at the end of `write`.
  pub filled_in : RingBuffer A → ℕ → List A → ℕ → RingBuffer A
  filled_in r timestamp samples n = record r {
    buf_data = put r.buf_size samples r.buf_data (slot r timestamp) n;
  }

  pub filled_in-fields :
      (r : RingBuffer A) (timestamp : ℕ) (samples : List A) (n : ℕ)
      → ((filled_in r timestamp samples n).tail_ts ≡ r.tail_ts)
        × ((filled_in r timestamp samples n).head_ts ≡ r.head_ts)
  unfolding filled_in
  filled_in-fields r timestamp samples n = (refl, refl)

  pub copy_to_buffer-filled_in :
      (r : RingBuffer A) (timestamp : ℕ) (samples : List A) (n : ℕ)
      → IsStarted r
      → r.head_ts ≤ timestamp
      → timestamp + n ≤ r.tail_ts
      → n < r.buf_size
      → n ≤ length samples
      → copy_to_buffer r timestamp samples n ≡ some (filled_in r timestamp samples n)
  unfolding copy_to_buffer filled_in
  copy_to_buffer-filled_in r timestamp samples n v h k hn hs = ground (
    arith,
    offsets_lem r v timestamp n,
    copy_in-eq r.buf_size samples r (slot r timestamp) n,
    slot-lt r v timestamp,
  )

  pub filled_in-IsStarted :
      (r : RingBuffer A) (timestamp : ℕ) (samples : List A) (n : ℕ)
      → IsStarted r
      → IsStarted (filled_in r timestamp samples n)
  unfolding filled_in
  filled_in-IsStarted r timestamp samples n v =
      ground (arith, v, length-put r.buf_size samples r.buf_data (slot r timestamp) n)

  -- The copied samples are heard at their timestamps, and the rest of the window is as before.
  pub heard-filled_in :
      (silence : A) (r : RingBuffer A) (timestamp : ℕ) (samples : List A) (n t : ℕ)
      → IsStarted r
      → r.head_ts ≤ timestamp
      → timestamp + n ≤ r.tail_ts
      → n < r.buf_size
      → n ≤ length samples
      → heard silence (filled_in r timestamp samples n) t ≡ (
          if leb timestamp t && ltb t (timestamp + n)
          then get_or samples (t - timestamp) silence
          else heard silence r t)
  unfolding filled_in
  heard-filled_in silence r timestamp samples n t v h k hn hs = ground (
    arith,
    v,
    slot-lt r v timestamp,
    slot_steps r timestamp t,
    slot_round r timestamp t,
    get_or-put r.buf_size samples r.buf_data (slot r timestamp) n (t - timestamp) silence,
    get_or-put r.buf_size samples r.buf_data (slot r timestamp) n (t + r.buf_size - timestamp)
        silence,
  )

  pub moved-fields :
      (r : RingBuffer A) (timestamp n : ℕ)
      → ((moved r timestamp n).tail_ts ≡ max r.tail_ts (timestamp + n))
        × ((moved r timestamp n).head_ts ≡ max r.tail_ts (timestamp + n) - r.buf_size)
        × ((moved r timestamp n).buf_size ≡ r.buf_size)
        × ((moved r timestamp n).buf_data ≡ r.buf_data)
        × ((moved r timestamp n).first_write ≡ r.first_write)
  unfolding moved
  moved-fields r timestamp n = (refl, refl, refl, refl, refl)

  -- A sample that both windows hold stays where it is.
  pub heard-moved :
      (silence : A) (r : RingBuffer A) (timestamp n t : ℕ)
      → IsStarted r
      → (moved r timestamp n).head_ts ≤ t
      → (t < r.tail_ts) ⊎ (timestamp + n ≤ t)
      → heard silence (moved r timestamp n) t ≡ heard silence r t
  heard-moved silence r timestamp n t v h side =
      ground (arith, v, moved-fields r timestamp n, slot-moved r timestamp n t v h)

  -- The buffer that a write leaves.
  abbrev pub written : RingBuffer A → ℕ → List A → ℕ → RingBuffer A
  written r timestamp samples n = filled_in (moved r timestamp n) timestamp samples n

  pub write-written :
      (r : RingBuffer A) (timestamp : ℕ) (samples : List A) (n : ℕ)
      → IsStarted r
      → 0 < n
      → n < r.buf_size
      → n ≤ length samples
      → r.head_ts ≤ timestamp
      → timestamp + n < 2 ^ 64
      → write r timestamp samples n ≡ some (written r timestamp samples n)
  unfolding write
  write-written r timestamp samples n v pos fits hs h k = ground (
    arith,
    v,
    moved-fields r timestamp n,
    advance-moved r timestamp n v k,
    copy_to_buffer-filled_in (moved r timestamp n) timestamp samples n
        (moved-IsStarted r timestamp n v k),
  )
