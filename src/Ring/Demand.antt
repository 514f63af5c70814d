-- ===== src/Ring/Demand.antt =====
-- How many samples the buffer of driver/ring_buffer.cpp asks for, and how many it offers.
use roc_vad.Prelude.{ℕ, ◌+◌, ◌^◌, ◌≤◌, ◌<◌, ◌≡◌, some, arith, List, length, inr, ◌↔◌}
use roc_vad.Ring.{RingBuffer, n_need_write, n_can_read, write}
use roc_vad.Ring.Slots.{IsStarted}
use roc_vad.Ring.Appends.{write_next}

module _ {A : Type 0} (r : RingBuffer A) (v : IsStarted r) where
  need_exactly :
      (timestamp : ℕ)
      → timestamp < 2 ^ 64
      → 0 < n_need_write r timestamp
      → n_need_write r timestamp < r.buf_size
      → r.tail_ts + n_need_write r timestamp ≡ timestamp
  unfolding n_need_write
  need_exactly timestamp small pos part = ground (arith, v)

  -- The offered samples all stand in the window: a timestamp is among the `n_can_read` last ones
  -- of the window exactly when it is at or after the requested one.
  pub n_can_read_window :
      (timestamp t : ℕ)
      → timestamp < 2 ^ 64
      → r.head_ts ≤ t
      → t < r.tail_ts
      → (r.tail_ts ≤ t + n_can_read r timestamp) ↔ (timestamp ≤ t)
  unfolding n_can_read
  n_can_read_window timestamp t small h k = (λ a. ground (arith, v), λ a. ground (arith, v))

module _ {A : Type 0} (silence : A) (r : RingBuffer A) (v : IsStarted r) where
  -- Appending the number of samples that `n_need_write` asks for at the end of the window, where
  -- that is neither nothing nor the whole buffer, brings the end to the requested timestamp.
  pub n_need_write_reaches :
      (timestamp : ℕ) (samples : List A)
      → timestamp < 2 ^ 64
      → 0 < n_need_write r timestamp
      → n_need_write r timestamp < r.buf_size
      → n_need_write r timestamp ≤ length samples
      → (r' : RingBuffer A) × (write r r.tail_ts samples (n_need_write r timestamp) ≡ some r')
        × IsStarted r'
        × (r'.tail_ts ≡ timestamp)
  n_need_write_reaches timestamp samples small pos part given =
      let (r', done, valid, tail, _) =
        write_next silence r r.tail_ts samples (n_need_write r timestamp) timestamp v
          (record {
            some_samples = pos;
            shorter = part;
            given = given;
            below_limit = omega (arith, need_exactly r v timestamp small pos part);
          })
          (omega (arith, v.window)) (omega (arith, need_exactly r v timestamp small pos part))
          (inr (omega (arith, need_exactly r v timestamp small pos part))) in
      (r', done, valid, omega (arith, tail, need_exactly r v timestamp small pos part))
