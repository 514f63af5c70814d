-- ===== src/Transceiver/Tests.antt =====
-- A run of driver/sender.cpp with a library that only counts endpoints.
use roc_vad.Prelude.{ℕ, suc, ◌-◌, true, Bool, not, ◌==◌, some}
use roc_vad.EnumMap.Settings.{RocInterface}
use roc_vad.Defs.{DeviceEndpointInfo}
use roc_vad.Transceiver.{Roc, Transceiver}

abbrev accepts : ℕ → Bool
accepts slot = not (slot == 9)

-- It refuses endpoints of the slot 9.
abbrev counting : Roc ℕ
counting = record {
  avp_l16_stereo = 10;
  context_open = λ size w. (some 1, w);
  context_close = λ c w. w;
  context_register_encoding = λ c e w. (true, w);
  sender_open = λ c s w. (some 2, w);
  sender_close = λ s w. w;
  sender_connect = λ s slot i h w. (accepts slot, w);
  receiver_open = λ c s w. (some 3, w);
  receiver_close = λ r w. w;
  receiver_bind = λ r slot i h w. (accepts slot, w);
  endpoint_allocate = λ w. (some w, suc w);
  endpoint_set_uri = λ h uri w. (true, w);
  endpoint_deallocate = λ h w. w - 1;
}

abbrev count : ℕ → ℕ
count w = w

abbrev endpoint : DeviceEndpointInfo
endpoint = record { slot = 9; interface = RocInterface.audio_source; uri = "rtp://10.0.0.1:5000" }
