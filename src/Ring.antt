-- ===== src/Ring.antt =====
-- driver/ring_buffer.hpp and driver/ring_buffer.cpp: the last samples written, addressed by
-- absolute timestamps. `A` is the type of a sample (`float`), and `silence` is its zero.
-- `none` is a failed assertion, a division by zero or an access outside an array.
pub mod Slots
pub mod Write
pub mod Appends
mod CopyOut
pub mod Read
pub mod Limits
pub mod Demand
mod Tests
use roc_vad.Prelude.{
  ℕ, ◌+◌, ◌-◌, ◌%◌, min, max, Bool, true, false, not, ◌||◌, List, Option, none, some, ltb, leb,
  ◌==◌, if◌then◌else◌, replicate,
}
use roc_vad.Prelude.Word.{add64, sub64}
use roc_vad.Prelude.Maybe.{◌>>=◌, ◌>>◌, check}
use roc_vad.Samples.{fill_n, copy_n}

pub record RingBuffer (A : Type 0) : Type 0 where
  pub buf_data : List A
  pub buf_size : ℕ
  pub buf_off : ℕ
  pub head_ts : ℕ
  pub tail_ts : ℕ
  pub first_write : Bool

-- `a % b` of the hardware, which has no answer for `b == 0`.
unfoldable pub mod_checked : ℕ → ℕ → Option ℕ
mod_checked a b = if b == 0 then none else some (a % b)

module _ {A : Type 0} (silence : A) where
  -- `std::fill_n(&buf_data_[0], buf_size_, 0)` fills the whole vector.
  unfoldable pub restart : RingBuffer A → RingBuffer A
  restart r = record r {
    buf_data = replicate r.buf_size silence;
    buf_off = 0;
    head_ts = 0;
    tail_ts = 0;
    first_write = true;
  }

  -- The constructor. It takes the address of the first sample, so that there has to be one.
  unfoldable pub create : ℕ → Option (RingBuffer A)
  unfolding restart
  create n_samples =
      if n_samples == 0
      then none
      else some (
          restart (record {
            buf_data = replicate n_samples silence;
            buf_size = n_samples;
            buf_off = 0;
            head_ts = 0;
            tail_ts = 0;
            first_write = true;
          }))

module _ {A : Type 0} where
  unfoldable pub n_need_write : RingBuffer A → ℕ → ℕ
  n_need_write r timestamp =
      if r.first_write || ltb timestamp r.tail_ts
      then 0
      else min (sub64 timestamp r.tail_ts) r.buf_size

  unfoldable pub n_can_read : RingBuffer A → ℕ → ℕ
  n_can_read r timestamp =
      if r.first_write || leb r.tail_ts timestamp
      then 0
      else min (sub64 r.tail_ts timestamp) r.buf_size

  -- The assertions that both copies begin with, and the offsets where the copy begins and ends.
  unfoldable pub offsets : RingBuffer A → ℕ → ℕ → Option (ℕ × ℕ)
  offsets r timestamp n_samples = do
    check (leb r.head_ts timestamp)
    check (leb (add64 timestamp n_samples) r.tail_ts)
    begin_off ← mod_checked (sub64 (add64 r.buf_off timestamp) r.head_ts) r.buf_size
    end_off ← mod_checked (add64 begin_off n_samples) r.buf_size
    some (begin_off, end_off)

  unfoldable pub copy_in : RingBuffer A → List A → ℕ × ℕ → Option (List A)
  copy_in r samples (begin_off, end_off) =
      if leb begin_off end_off
      then copy_n samples 0 (end_off - begin_off) r.buf_data begin_off
      else (do
        buf ← copy_n samples 0 (r.buf_size - begin_off) r.buf_data begin_off
        copy_n samples (r.buf_size - begin_off) end_off buf 0)

  unfoldable pub copy_out : RingBuffer A → List A → ℕ → ℕ × ℕ → Option (List A)
  copy_out r samples at (begin_off, end_off) =
      if leb begin_off end_off
      then copy_n r.buf_data begin_off (end_off - begin_off) samples at
      else (do
        out ← copy_n r.buf_data begin_off (r.buf_size - begin_off) samples at
        copy_n r.buf_data 0 end_off out (at + (r.buf_size - begin_off)))

  unfoldable pub copy_to_buffer : RingBuffer A → ℕ → List A → ℕ → Option (RingBuffer A)
  copy_to_buffer r timestamp samples n_samples = do
    offs ← offsets r timestamp n_samples
    buf ← copy_in r samples offs
    some (record r { buf_data = buf })

  -- The samples go to `samples` from the index `at` on.
  unfoldable pub copy_from_buffer : RingBuffer A → ℕ → List A → ℕ → ℕ → Option (List A)
  copy_from_buffer r timestamp samples at n_samples = do
    offs ← offsets r timestamp n_samples
    copy_out r samples at offs

  -- The first write places the window, so that it ends behind the samples.
  unfoldable pub place : RingBuffer A → ℕ → ℕ → RingBuffer A
  place r timestamp n_samples = record r {
    tail_ts = add64 timestamp n_samples;
    head_ts = sub64 (add64 timestamp n_samples) r.buf_size;
    buf_off = 0;
    first_write = false;
  }

  -- A later write moves it forward, never back.
  unfoldable pub advance : RingBuffer A → ℕ → ℕ → Option (RingBuffer A)
  advance r timestamp n_samples =
      let tail = max r.tail_ts (add64 timestamp n_samples) in
      let head = max r.head_ts (sub64 tail r.buf_size) in
      if not (head == r.head_ts)
      then (do
        off ← mod_checked (add64 r.buf_off (sub64 head r.head_ts)) r.buf_size
        some (record r { tail_ts = tail; head_ts = head; buf_off = off }))
      else some (record r { tail_ts = tail; head_ts = head })

  unfoldable pub write : RingBuffer A → ℕ → List A → ℕ → Option (RingBuffer A)
  write r timestamp samples n_samples =
      if n_samples == 0
      then some r
      else if r.first_write
      then (if ltb (add64 timestamp n_samples) r.buf_size
          then some r
          else copy_to_buffer (place r timestamp n_samples) timestamp samples
              (min n_samples r.buf_size))
      else (do
        moved ← advance r timestamp n_samples
        copy_to_buffer moved timestamp samples (min n_samples r.buf_size))

  -- `samples` is the caller's array, and the result is what it holds afterwards.
  unfoldable pub read_window : A → RingBuffer A → ℕ → List A → ℕ → ℕ → ℕ → Option (List A)
  read_window silence r timestamp samples n_samples from_ts to_ts = do
    let n_from_buffer = sub64 to_ts from_ts
    let n_zeros_before = sub64 from_ts timestamp
    let n_zeros_after = sub64 (add64 timestamp n_samples) to_ts
    before ← if ltb 0 n_zeros_before then fill_n samples 0 n_zeros_before silence else some samples
    copied ←
        if ltb from_ts to_ts
        then copy_from_buffer r from_ts before n_zeros_before n_from_buffer
        else some before
    if ltb 0 n_zeros_after
        then fill_n copied (add64 n_zeros_before n_from_buffer) n_zeros_after silence
        else some copied

  unfoldable pub read : A → RingBuffer A → ℕ → List A → ℕ → Option (List A)
  read silence r timestamp samples n_samples =
      if n_samples == 0
      then some samples
      else if r.first_write
      then fill_n samples 0 n_samples silence
      else read_window silence r timestamp samples n_samples (max timestamp r.head_ts)
          (min (add64 timestamp n_samples) r.tail_ts)
