-- ===== src/Ring/Limits.antt =====
-- The requests that `RingBuffer::write` and `RingBuffer::read` of driver/ring_buffer.cpp do not
-- support, and what happens on them.
use roc_vad.Prelude.{
  ℕ, ◌+◌, ◌-◌, ◌%◌, ◌^◌, ◌≤◌, ◌<◌, max, ◌≡◌, ◌⊎◌, inl, inr, List, none, some, arith, length,
}
use roc_vad.Prelude.Word.{turn}
use roc_vad.Samples.{copied-zero, copy_n, fill_n}
use roc_vad.Ring.{
  RingBuffer, offsets, copy_in, copy_out, copy_to_buffer, copy_from_buffer, write, read,
  read_window,
}
use roc_vad.Ring.Slots.{slot, IsStarted, slot-lt, offsets_lem}
use roc_vad.Ring.Write.{moved, moved-fields, moved-IsStarted, advance-moved}

whole_turn : (m b : ℕ) → b < m → (b + m) % m ≡ b
whole_turn m b h = omega (arith, turn m b m h (omega arith))

module _ {A : Type 0} (r : RingBuffer A) (v : IsStarted r) (timestamp n : ℕ)
    (samples : List A) where
  -- A write that begins before the new window fails the assertion of the copy: one that begins
  -- before the old window, or one of more samples than the buffer holds.
  pub write_too_old :
      (timestamp < r.head_ts) ⊎ (r.buf_size < n)
      → 0 < n
      → timestamp + n < 2 ^ 64
      → write r timestamp samples n ≡ none
  unfolding write copy_to_buffer offsets
  write_too_old side pos k =
      ground (arith, v, advance-moved r timestamp n v k, moved-fields r timestamp n)

  -- A write to a started buffer of exactly as many samples as it holds, that does not begin before the
  -- window and ends below 2 ^ 64, succeeds: it moves the window and stores none of the samples.
  pub write_whole :
      n ≡ r.buf_size
      → r.head_ts ≤ timestamp
      → timestamp + n < 2 ^ 64
      → (r' : RingBuffer A) × (write r timestamp samples n ≡ some r')
        × (r'.tail_ts ≡ timestamp + n)
        × (r'.head_ts ≡ timestamp)
        × (r'.buf_data ≡ r.buf_data)
  unfolding write copy_to_buffer copy_in copy_n
  write_whole e h k = (
    m,
    ground (
      arith,
      v,
      m-fields,
      advance-moved r timestamp n v k,
      offsets_lem m m-IsStarted timestamp n,
      round (slot m timestamp) (slot-lt m m-IsStarted timestamp),
      copied-zero samples 0 m.buf_data (slot m timestamp),
    ),
    ground (arith, v, m-fields),
    ground (arith, v, m-fields),
    ground (arith, m-fields),
  )
    where
      m : RingBuffer A
      m = moved r timestamp n

      m-IsStarted : IsStarted m
      m-IsStarted = moved-IsStarted r timestamp n v k

      m-fields :
          (m.tail_ts ≡ max r.tail_ts (timestamp + n))
          × (m.head_ts ≡ max r.tail_ts (timestamp + n) - r.buf_size)
          × (m.buf_size ≡ r.buf_size)
          × (m.buf_data ≡ r.buf_data)
          × (m.first_write ≡ r.first_write)
      m-fields = moved-fields r timestamp n

      round : (b : ℕ) → b < m.buf_size → (b + n) % m.buf_size ≡ b
      round b h = ground (arith, v, m-fields, whole_turn m.buf_size b h)

module _ {A : Type 0} (silence : A) (r : RingBuffer A) (v : IsStarted r) (timestamp n : ℕ)
    (samples : List A) where
  -- A read that begins behind the window by at least one sample is a write outside the caller's array.
  pub read_after :
      r.tail_ts < timestamp
      → 0 < n
      → timestamp + n < 2 ^ 64
      → length samples < 2 ^ 64
      → read silence r timestamp samples n ≡ none
  unfolding read read_window fill_n
  read_after h pos k small = ground (arith, v)

  -- So is a read that ends before the window, into an array of the requested length.
  pub read_before :
      timestamp + n < r.head_ts
      → 0 < n
      → length samples ≡ n
      → read silence r timestamp samples n ≡ none
  unfolding read read_window fill_n
  read_before h pos e = ground (arith, v)

  -- A read of at least one sample, into an array of the requested length, that begins behind the
  -- window or ends before it, is a write outside the caller's array.
  pub read_outside :
      (r.tail_ts < timestamp) ⊎ (timestamp + n < r.head_ts)
      → 0 < n
      → timestamp + n < 2 ^ 64
      → length samples ≡ n
      → read silence r timestamp samples n ≡ none
  read_outside (inl behind) pos k e = read_after behind pos k (omega (arith, e))
  read_outside (inr before) pos k e = read_before before pos e

  -- A read of exactly the window copies nothing: the caller's array is as it was.
  pub read_whole :
      timestamp ≡ r.head_ts
      → n ≡ r.buf_size
      → n ≤ length samples
      → read silence r timestamp samples n ≡ some samples
  unfolding read read_window copy_from_buffer copy_out copy_n
  read_whole e1 e2 room = ground (
    arith,
    v,
    offsets_lem r v timestamp n,
    slot-lt r v timestamp,
    whole_turn r.buf_size (slot r timestamp),
    copied-zero r.buf_data (slot r timestamp) samples 0,
  )
