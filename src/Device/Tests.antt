-- ===== src/Device/Tests.antt =====
-- Runs of the constructor of driver/device.cpp.
use roc_vad.Prelude.{ℕ, ◌≡◌, ◌*◌, ◌+◌, ◌/◌, true, arith}
use roc_vad.Index.{is_free, create}
use roc_vad.Index.Alloc.{IsValid}
use roc_vad.Device.{Platform, Device, construct, destroy}
use roc_vad.Defs.{DeviceInfo, default_local_encoding}
use roc_vad.Prelude.Int.{pos}
use roc_vad.Handler.{Gain}
use roc_vad.Device.Laws.{destroy-construct}
use roc_vad.Device.Samples.{platform, wanted, shared, device, create-IsValid, five_free, made}

destroy-construct_example :
    let t = destroy platform device (construct platform wanted shared).1 in
    (is_free t.index_allocator 5 ≡ is_free create 5) × IsValid t.index_allocator
destroy-construct_example =
    destroy-construct platform wanted shared device 5 5 create-IsValid (omega arith) (omega arith)
      five_free made

abbrev full : Gain ℕ
full = record { is_unity = true; amplify = λ n. n }

-- A platform that rounds the length to whole samples, and a buffer of 5000 ns.
abbrev rounding : Platform ℕ ℕ
rounding = record platform { round_samples = λ ns rate. (ns * rate + 500_000_000) / 1_000_000_000 }

abbrev short : DeviceInfo
short = record wanted {
  device_encoding = record default_local_encoding { buffer_length_ns = pos 5_000 };
}

abbrev short_device : Device
short_device = record device {
  info = record short {
    uid = "0a-1b";
    device_encoding = record short.device_encoding { channel_count = 2; buffer_samples = 0 };
  };
}
