-- ===== src/Device/Samples.antt =====
-- A device for the runs of driver/device.cpp, with libraries that count HAL devices.
use roc_vad.Prelude.{ℕ, suc, ◌+◌, ◌-◌, ◌≡◌, ltb, refl, true, [], ◌∷◌, some, none}
use roc_vad.Result.{ok}
use roc_vad.EnumMap.Settings.{RocInterface}
use roc_vad.Defs.{
  DeviceType, DeviceEndpointInfo, DeviceInfo, default_local_encoding, default_sender_config,
}
use roc_vad.Index.{is_free, create, acquire, set_free, grown, resize}
use roc_vad.Index.Alloc.{IsValid, create_lem}
use roc_vad.Transceiver.{Roc, Transceiver, open_sender, choose_encoding, connect, with_endpoint}
use roc_vad.Device.{
  Hal, Platform, Shared, Device, construct, take_device_index, device_channels, start, bind_all,
  sort_endpoints, insert_endpoint, toggle,
}

abbrev pub roc : Roc ℕ
roc = record {
  avp_l16_stereo = 10;
  context_open = λ size w. (some 1, w);
  context_close = λ c w. w;
  context_register_encoding = λ c e w. (true, w);
  sender_open = λ c s w. (some 2, w);
  sender_close = λ s w. w;
  sender_connect = λ s slot i h w. (true, w);
  receiver_open = λ c s w. (some 3, w);
  receiver_close = λ r w. w;
  receiver_bind = λ r slot i h w. (true, w);
  endpoint_allocate = λ w. (some 7, w);
  endpoint_set_uri = λ h uri w. (true, w);
  endpoint_deallocate = λ h w. w;
}

abbrev pub hal : Hal ℕ
hal = record {
  create_device = λ p w. (4, w);
  has_device = λ h w. ltb 0 w;
  add_device = λ h w. w + 1;
  remove_device = λ h w. w - 1;
}

abbrev pub platform : Platform ℕ ℕ
platform = record {
  roc = roc;
  hal = hal;
  source = record { generate_uid = λ u. ("0a-1b", suc u); filled = λ u. refl };
  round_samples = λ ns rate. 2646;
  default_name = λ n. "Roc Virtual Device";
  interface_value = λ i. 0;
}

abbrev pub remote : DeviceEndpointInfo
remote = record { slot = 0; interface = RocInterface.audio_source; uri = "rtp://10.0.0.1:5000" }

abbrev pub wanted : DeviceInfo
wanted = record {
  type = DeviceType.sender;
  index = 5;
  uid = "";
  name = "desk";
  enabled = true;
  device_encoding = default_local_encoding;
  sender_config = some default_sender_config;
  receiver_config = none;
  local_endpoints = [];
  remote_endpoints = remote ∷ [];
}

abbrev pub shared : Shared ℕ ℕ
shared = record { index_allocator = create; uid_generator = 0; outside = 0 }

abbrev pub device : Device
device = record {
  info = record wanted {
    uid = "0a-1b";
    device_encoding = record default_local_encoding { channel_count = 2; buffer_samples = 2646 };
  };
  net_transceiver = Transceiver.sender 1 2;
  hal_device = 4;
}

pub create-IsValid : IsValid create
create-IsValid = (create_lem 0).0

pub five_free : is_free create 5 ≡ true
five_free = (create_lem 5).1

pub made : (construct platform wanted shared).0 ≡ ok device
unfolding construct take_device_index acquire is_free create set_free grown resize device_channels
    start open_sender choose_encoding bind_all sort_endpoints insert_endpoint connect with_endpoint
    toggle
made = refl
