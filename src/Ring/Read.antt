-- ===== src/Ring/Read.antt =====
-- What `RingBuffer::read` of driver/ring_buffer.cpp leaves in the caller's array.
use roc_vad.Prelude.{
  ℕ, ◌+◌, ◌-◌, ◌^◌, ◌≤◌, ◌<◌, min, max, ◌≡◌, refl, ◌&&◌, ◌⊎◌, List, some, arith, ltb, leb,
  if◌then◌else◌, length, get_or,
}
use roc_vad.Samples.{filled, fill_n, length-filled, get_or-filled}
use roc_vad.Ring.{RingBuffer, copy_from_buffer, read_window, read}
use roc_vad.Ring.Slots.{slot, slot_steps, IsStarted, slot-lt, offsets_lem}
use roc_vad.Ring.Write.{heard}
use roc_vad.Ring.CopyOut.{got, length-got, get_or-got, copy_out-eq}

-- A read inside or across the ends of the window, of fewer samples than the buffer holds from it.
pub record Reads {A : Type 0} (r : RingBuffer A) (timestamp n : ℕ) (samples : List A) : Type 0 where
  pub room : n ≤ length samples
  pub below_limit : timestamp + n < 2 ^ 64
  pub not_after : timestamp ≤ r.tail_ts
  pub not_before : r.head_ts ≤ timestamp + n
  pub not_whole : (r.head_ts < timestamp) ⊎ (timestamp + n < r.tail_ts)

module _ {A : Type 0} (silence : A) (r : RingBuffer A) (v : IsStarted r) (timestamp n : ℕ)
    (samples : List A) where
  -- The middle part of the caller's array comes from the buffer.
  copied_part :
      (before : List A) (from_ts to_ts : ℕ)
      → length before ≡ length samples
      → r.head_ts ≤ from_ts
      → timestamp ≤ from_ts
      → from_ts < to_ts
      → to_ts ≤ timestamp + n
      → to_ts ≤ r.tail_ts
      → to_ts - from_ts < r.buf_size
      → n ≤ length samples
      → copy_from_buffer r from_ts before (from_ts - timestamp) (to_ts - from_ts)
        ≡ some (
            got r.buf_size r.buf_data before
              (from_ts - timestamp)
              (slot r from_ts)
              (to_ts - from_ts))
  unfolding copy_from_buffer
  copied_part before from_ts to_ts same h1 h2 h3 h4 h5 h6 h7 = ground (
    arith,
    v,
    offsets_lem r v from_ts (to_ts - from_ts),
    slot-lt r v from_ts,
    copy_out-eq r.buf_size r.buf_data r before (from_ts - timestamp) (slot r from_ts)
        (to_ts - from_ts),
  )

  -- The three parts that `read` puts together.
  front : ℕ → List A
  front from_ts =
      if ltb 0 (from_ts - timestamp)
      then filled samples 0 (from_ts - timestamp) silence
      else samples

  middle : ℕ → ℕ → List A
  middle from_ts to_ts =
      if ltb from_ts to_ts
      then got r.buf_size r.buf_data (front from_ts) (from_ts - timestamp) (slot r from_ts)
          (to_ts - from_ts)
      else front from_ts

  whole : ℕ → ℕ → List A
  whole from_ts to_ts =
      if ltb 0 (timestamp + n - to_ts)
      then filled (middle from_ts to_ts) (to_ts - timestamp) (timestamp + n - to_ts) silence
      else middle from_ts to_ts

  length-front : (from_ts : ℕ) → length (front from_ts) ≡ length samples
  unfolding front
  length-front from_ts = ground (arith, length-filled samples 0 (from_ts - timestamp) silence)

  length-middle : (from_ts to_ts : ℕ) → length (middle from_ts to_ts) ≡ length samples
  unfolding middle
  length-middle from_ts to_ts = ground (
    arith,
    length-front from_ts,
    length-got r.buf_size r.buf_data (front from_ts) (from_ts - timestamp) (slot r from_ts)
        (to_ts - from_ts),
  )

  length-whole : (from_ts to_ts : ℕ) → length (whole from_ts to_ts) ≡ length samples
  unfolding whole
  length-whole from_ts to_ts = ground (
    arith,
    length-middle from_ts to_ts,
    length-filled (middle from_ts to_ts) (to_ts - timestamp) (timestamp + n - to_ts) silence,
  )

  module _ (from_ts to_ts : ℕ) (f : Reads r timestamp n samples)
      (e1 : from_ts ≡ max timestamp r.head_ts) (e2 : to_ts ≡ min (timestamp + n) r.tail_ts) where
    read_window-whole :
        read_window silence r timestamp samples n from_ts to_ts ≡ some (whole from_ts to_ts)
    unfolding read_window fill_n whole middle front
    read_window-whole = ground (
      arith,
      v,
      f,
      length-front from_ts,
      length-middle from_ts to_ts,
      copied_part (front from_ts) from_ts to_ts (length-front from_ts),
    )

    get_or-middle :
        (i : ℕ)
        → i < length samples
        → get_or (middle from_ts to_ts) i silence ≡ (
            if leb from_ts (timestamp + i) && ltb (timestamp + i) to_ts
            then get_or r.buf_data (slot r (timestamp + i)) silence
            else get_or (front from_ts) i silence)
    unfolding middle
    get_or-middle i h = ground (
      arith,
      v,
      f,
      length-front from_ts,
      slot-lt r v from_ts,
      slot_steps r from_ts (timestamp + i),
      get_or-got r.buf_size r.buf_data (front from_ts) (from_ts - timestamp) (slot r from_ts)
          (to_ts - from_ts) i silence,
    )

    get_or-whole :
        (i : ℕ)
        → i < length samples
        → get_or (whole from_ts to_ts) i silence
          ≡ (if ltb i n then heard silence r (timestamp + i) else get_or samples i silence)
    unfolding whole front
    get_or-whole i h = ground (
      arith,
      v,
      f,
      length-middle from_ts to_ts,
      get_or-middle i h,
      get_or-filled (middle from_ts to_ts) (to_ts - timestamp) (timestamp + n - to_ts) silence i
          silence,
      get_or-filled samples 0 (from_ts - timestamp) silence i silence,
    )

  -- A read of at most the array's length, across or inside the ends of the window but not over the
  -- whole of it, succeeds. It fills the first `n` places of the caller's array with what is heard at
  -- the requested timestamps, silence outside the window, and leaves the other places alone.
  pub read_hears :
      (i : ℕ)
      → Reads r timestamp n samples
      → 0 < n
      → i < length samples
      → (out : List A) × (read silence r timestamp samples n ≡ some out)
        × (length out ≡ length samples)
        × (get_or out i silence
            ≡ (if ltb i n then heard silence r (timestamp + i) else get_or samples i silence))
  unfolding read
  read_hears i f pos h = (
    whole from_ts to_ts,
    ground (arith, v, f, read_window-whole from_ts to_ts f refl refl),
    length-whole from_ts to_ts,
    get_or-whole from_ts to_ts f refl refl i h,
  )
    where
      from_ts : ℕ
      from_ts = max timestamp r.head_ts

      to_ts : ℕ
      to_ts = min (timestamp + n) r.tail_ts
