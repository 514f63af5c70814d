-- ===== src/Handler.antt =====
-- driver/request_handler.cpp: what the HAL writes to a sender device goes through the ring buffer to
-- the sender, and what it reads from a receiver device comes from the receiver through the buffer. A sample is of type `A`; the timestamp is the number that the source casts it to, and
-- what is passed to the transceiver is a result. `none` is a fault, as in Ring.
pub mod Laws
pub mod Pull
mod Tests
use roc_vad.Prelude.{
  ℕ, ◌-◌, ◌≡◌, Bool, true, false, List, [], Option, none, some, ltb, ◌==◌, ◌++◌, if◌then◌else◌,
  length, replicate, take,
}
use roc_vad.Prelude.Word.{add64, mul64}
use roc_vad.Prelude.Maybe.{◌>>=◌, ◌>>◌}
use roc_vad.Samples.{map_from}
use roc_vad.Ring
use roc_vad.Ring.{RingBuffer, n_can_read, n_need_write, restart}

pub record RequestHandler (A : Type 0) : Type 0 where
  pub chan_count : ℕ
  pub ring_buf : RingBuffer A
  pub ring_buf_pos : ℕ
  pub io_buf : List A

-- The volume: whether the gain is exactly one, and the multiplication by it.
pub record Gain (A : Type 0) : Type 0 where
  pub is_unity : Bool
  pub amplify : A → A

-- `apply_volume_` on the first `n` samples.
unfoldable pub apply_volume : {A : Type 0} → Gain A → List A → ℕ → List A
apply_volume g samples n =
    if g.is_unity
    then samples
    else map_from (λ i sample. if ltb i n then g.amplify sample else sample) 0 samples

module _ {A : Type 0} (silence : A) (g : Gain A) where
  -- The constructor, from the device encoding.
  unfoldable pub make_handler : ℕ → ℕ → Option (RequestHandler A)
  make_handler channel_count buffer_samples = do
    ring ← Ring.create silence (mul64 buffer_samples channel_count)
    some (record {
      chan_count = channel_count;
      ring_buf = ring;
      ring_buf_pos = 0;
      io_buf = replicate (mul64 buffer_samples channel_count) silence;
    })

  -- `if (io_buf_.size() < n) io_buf_.resize(n);`
  unfoldable pub enlarged : List A → ℕ → List A
  enlarged io_buf n =
      if ltb (length io_buf) n then io_buf ++ replicate (n - length io_buf) silence else io_buf

  -- The second half of `OnWriteMixedOutput`: what is new in the buffer goes to the sender.
  unfoldable pub pass_on : RequestHandler A → Option (RequestHandler A × List A)
  pass_on h =
      let rd_samples = n_can_read h.ring_buf h.ring_buf_pos in
      if ltb 0 rd_samples
      then (do
        got ← Ring.read silence h.ring_buf h.ring_buf_pos (enlarged h.io_buf rd_samples) rd_samples
        let scaled = apply_volume g got rd_samples
        some (
          record h { io_buf = scaled; ring_buf_pos = add64 h.ring_buf_pos rd_samples },
          take rd_samples scaled,
        ))
      else some (h, [])

  unfoldable pub on_write_mixed_output :
      RequestHandler A → ℕ → List A → ℕ → Option (RequestHandler A × List A)
  on_write_mixed_output h timestamp samples sample_cnt = do
    let sample_ts = mul64 timestamp h.chan_count
    let pos = if h.ring_buf.first_write then sample_ts else h.ring_buf_pos
    ring ← Ring.write h.ring_buf sample_ts samples sample_cnt
    pass_on (record h { ring_buf = ring; ring_buf_pos = pos })

  -- `net_transceiver_->read(io_buf_.data(), wr_samples)`: the array afterwards, and the state of the
  -- transceiver.
  module _ {W : Type 0} (receive : ℕ → List A → W → List A × W) where
    -- The samples that are appended to the buffer for a read.
    unfoldable pub take_in : RequestHandler A → ℕ → ℕ → W → Option (RequestHandler A × W)
    take_in h sample_ts wr_samples w =
        let (got, v) = receive wr_samples (enlarged h.io_buf wr_samples) w in
        let scaled = apply_volume g got wr_samples in
        (do
          ring ←
              Ring.write h.ring_buf
                (if h.ring_buf.first_write then sample_ts else h.ring_buf.tail_ts) scaled wr_samples
          some (record h { ring_buf = ring; io_buf = scaled }, v))

    -- `bytes` is the array of the client; its new content is a result.
    unfoldable pub on_read_client_input :
        RequestHandler A → ℕ → List A → ℕ → W → Option (RequestHandler A × List A × W)
    on_read_client_input h timestamp bytes sample_cnt w =
        let sample_ts = mul64 timestamp h.chan_count in
        let wr_samples =
          if h.ring_buf.first_write
          then sample_cnt
          else n_need_write h.ring_buf (add64 sample_ts sample_cnt) in
        (do
          (k, v) ← (if ltb 0 wr_samples then take_in h sample_ts wr_samples w else some (h, w))
          out ← Ring.read silence k.ring_buf sample_ts bytes sample_cnt
          some (k, out, v))

  -- `OnStartIO` and `OnStopIO`; `resume` and `pause` are those of the transceiver.
  unfoldable pub on_start_io : {W : Type 0} → (W → W) → RequestHandler A → W → RequestHandler A × W
  on_start_io resume h w = (record h { ring_buf = restart silence h.ring_buf }, resume w)

  unfoldable pub on_stop_io : {W : Type 0} → (W → W) → RequestHandler A → W → RequestHandler A × W
  on_stop_io pause h w = (h, pause w)
