-- ===== src/Device/Buffer.antt =====
-- The request handler that the constructor of driver/device.cpp makes, and its ring buffer.
use roc_vad.Prelude.{ℕ, ◌≡◌, Option, some}
use roc_vad.Ring
use roc_vad.Ring.{RingBuffer, write, place, copy_to_buffer, offsets}
use roc_vad.Ring.Appends.{IsFresh}
use roc_vad.Handler.{RequestHandler, Gain, make_handler}
use roc_vad.Device.{Device}

-- `req_handler_` of a device, whose volume control gives the gain. `none` is a fault, as in Ring.
unfoldable pub request_handler : {A : Type 0} → A → Gain A → Device → Option (RequestHandler A)
request_handler silence g d =
    make_handler silence g d.info.device_encoding.channel_count
      d.info.device_encoding.buffer_samples

module _ {A : Type 0} (silence : A) where
  -- What the constructor of the request handler makes for a product of the two counts.
  abbrev pub Made : ℕ → Option (RequestHandler A) → Type 0
  Made size made =
      (h : RequestHandler A) × (made ≡ some h)
      × IsFresh silence h.ring_buf
      × (h.ring_buf.buf_size ≡ size)
