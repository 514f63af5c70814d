-- ===== src/Storage/Tests.antt =====
-- A device list in a storage of one place, whose bytes are the messages themselves.
use roc_vad.Prelude.{◌≡◌, refl, true, List, arith, [], ◌∷◌, map, Option, none, some, length}
use roc_vad.Prelude.Int.{ℤ}
use roc_vad.Message.{RvDeviceInfo}
use roc_vad.Serdes.DeviceLaws.{carried_info}
use roc_vad.Serdes.Samples.{
  clock, clock-IsLossless, device, device-IsStorable, message, list_written,
}
use roc_vad.Storage.{Storage, load_devices, save_devices}
use roc_vad.Storage.Laws.{IsReliable, load_devices-save_devices}

abbrev Messages : Type 0
Messages = List (RvDeviceInfo ℤ)

abbrev place : Storage (Option Messages) ℤ Messages
place = record {
  read_bytes = λ w. w;
  write_bytes = λ bytes w. (true, some bytes);
  size = λ bytes. length bytes;
  serialize = λ msg. msg;
  parse_from_array = λ bytes. some bytes;
}

no_bytes : (msg : Messages) → length msg ≡ 0 → msg ≡ []
no_bytes [] h = refl
no_bytes (m ∷ msg) h = absurd (omega (arith, h))

place-IsReliable : IsReliable place
place-IsReliable = record { parsed = λ msg. refl; no_bytes = no_bytes; stored = λ bytes w h. refl }

load_devices-save_devices_example :
    load_devices place clock 0 (save_devices place clock 0 (device ∷ []) none).1
    ≡ map carried_info (device ∷ [])
load_devices-save_devices_example =
    load_devices-save_devices place clock 0 place-IsReliable clock-IsLossless (device ∷ [])
      (message ∷ []) none (device-IsStorable, tt) list_written refl
