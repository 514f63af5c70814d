-- ===== src/Storage.antt =====
-- driver/device_storage.cpp: the device list in the persistent storage of the HAL, as a message.
-- Protobuf's bytes and the storage of libASPL are parameters; failures are only logged.
pub mod Laws
mod Tests
use roc_vad.Prelude.{ℕ, Bool, List, [], Option, none, some, ◌==◌, if◌then◌else◌}
use roc_vad.Result.{Result, ok, throw}
use roc_vad.Exec.{Exec, and_then}
use roc_vad.Defs.{DeviceInfo}
use roc_vad.Message.{RvDeviceInfo}
use roc_vad.Serdes.Basic.{TimeUtil}
use roc_vad.Serdes.Device.{device_list_from_rpc, device_list_to_rpc}

-- `aspl::Storage` at the key "device_list", and the bytes of `RvDeviceList`, whose type is `B`.
pub record Storage (W D B : Type 0) : Type 0 where
  pub read_bytes : W → Option B
  pub write_bytes : B → W → Bool × W
  pub size : B → ℕ
  pub serialize : List (RvDeviceInfo D) → B
  pub parse_from_array : B → Option (List (RvDeviceInfo D))

module _ {W D B : Type 0} (storage : Storage W D B) (time : TimeUtil D) (default_slot : ℕ) where
  -- `catch (std::exception& e) { return {}; }`
  abbrev or_empty : Result (List DeviceInfo) → List DeviceInfo
  or_empty (throw e) = []
  or_empty (ok devices) = devices

  abbrev of_message : Option (List (RvDeviceInfo D)) → List DeviceInfo
  of_message none = []
  of_message (some msg) = or_empty (device_list_from_rpc time default_slot msg)

  abbrev of_bytes : Option B → List DeviceInfo
  of_bytes none = []
  of_bytes (some bytes) =
      if storage.size bytes == 0 then [] else of_message (storage.parse_from_array bytes)

  unfoldable pub load_devices : W → List DeviceInfo
  load_devices w = of_bytes (storage.read_bytes w)

  unfoldable pub save_devices : List DeviceInfo → Exec W (Unit {0})
  save_devices devices w =
      and_then (device_list_to_rpc time devices, w)
        (λ msg v. (ok tt, (storage.write_bytes (storage.serialize msg) v).1))
