-- ===== src/Transceiver/Frames.antt =====
-- The real-time calls of driver/sender.cpp and driver/receiver.cpp. `pause` and `resume` do nothing.
use roc_vad.Prelude.{ℕ, ◌+◌, ◌%◌, ◌^◌, ◌≡◌, ◌≤◌, refl, Bool, true, false, List, ◌==◌, length}

-- `roc_receiver_read` of a frame of `n` samples, with what stands in its array before: whether it
-- succeeds, and what stands in its array afterwards, also where it fails; and `roc_sender_write`.
pub record Frames (W A : Type 0) : Type 0 where
  pub receiver_read : ℕ → List A → W → (Bool × List A) × W
  pub sender_write : List A → W → Bool × W
  pub in_frame :
      (n : ℕ) (samples : List A) (w : W)
      → n ≤ length samples
      → length (receiver_read n samples w).0.1 ≡ length samples

-- The error count of a transceiver, and the library.
pub record Link (W : Type 0) : Type 0 where
  pub err_count : ℕ
  pub outside : W

abbrev err_report_freq : ℕ
err_report_freq = 5000

-- `err_count_++ % err_report_freq_ == 0`
unfoldable pub is_reported : ℕ → Bool
is_reported err_count = err_count % err_report_freq == 0

module _ {W A : Type 0} (frames : Frames W A) where
  abbrev counted : ℕ → W → Link W
  counted err_count w = record { err_count = (err_count + 1) % 2 ^ 64; outside = w }

  abbrev after_read : ℕ → (Bool × List A) × W → List A × Link W
  after_read err_count ((false, samples), w) = (samples, counted err_count w)
  after_read err_count ((true, samples), w) =
      (samples, record { err_count = err_count; outside = w })

  -- `Receiver::read`: the array afterwards. An error is counted, and the caller does not learn of it.
  unfoldable pub read : ℕ → List A → Link W → List A × Link W
  read n samples l = after_read l.err_count (frames.receiver_read n samples l.outside)

  abbrev after_write : ℕ → Bool × W → Link W
  after_write err_count (true, w) = record { err_count = err_count; outside = w }
  after_write err_count (false, w) = counted err_count w

  -- `Sender::write`
  unfoldable pub write : List A → Link W → Link W
  write samples l = after_write l.err_count (frames.sender_write samples l.outside)

  after_read-samples : (count : ℕ) (r : (Bool × List A) × W) → (after_read count r).0 ≡ r.0.1
  after_read-samples count ((false, samples), w) = refl
  after_read-samples count ((true, samples), w) = refl

  -- A read keeps the length of the array.
  pub length-read :
      (n : ℕ) (samples : List A) (l : Link W)
      → n ≤ length samples
      → length (read n samples l).0 ≡ length samples
  unfolding read
  length-read n samples l room =
      rw (after_read-samples l.err_count (frames.receiver_read n samples l.outside))
        (frames.in_frame n samples l.outside room)
