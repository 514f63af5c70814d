-- ===== src/Storage/Laws.antt =====
-- What driver/device_storage.cpp saves is what it loads the next time.
use roc_vad.Prelude.{
  ℕ, ◌≡◌, refl, sym, ◌∙◌, ap, true, List, [], map, some, ◌==◌, arith, All, inl, inr, Bool-cases,
}
use roc_vad.Result.{ok}
use roc_vad.Defs.{DeviceInfo}
use roc_vad.Message.{RvDeviceInfo}
use roc_vad.Serdes.Basic.{TimeUtil}
use roc_vad.Serdes.Device.{device_list_to_rpc, device_list_from_rpc}
use roc_vad.Serdes.ConfigLaws.{IsLossless}
use roc_vad.Serdes.DeviceLaws.{IsStorable, carried_info, device_list_round}
use roc_vad.Storage.{Storage, load_devices, save_devices}

-- Protobuf parses what it has serialized, and only an empty list has no bytes; the storage returns
-- what was written with success.
pub record IsReliable {W D B : Type 0} (storage : Storage W D B) : Type 0 where
  pub parsed :
      (msg : List (RvDeviceInfo D)) → storage.parse_from_array (storage.serialize msg) ≡ some msg
  pub no_bytes : (msg : List (RvDeviceInfo D)) → storage.size (storage.serialize msg) ≡ 0 → msg ≡ []
  pub stored :
      (bytes : B) (w : W)
      → (storage.write_bytes bytes w).0 ≡ true
      → storage.read_bytes (storage.write_bytes bytes w).1 ≡ some bytes

module _ {W D B : Type 0} (storage : Storage W D B) (time : TimeUtil D) (default_slot : ℕ)
    (reliable : IsReliable storage) (lossless : IsLossless time) where
  -- Where the storage and the bytes of protobuf are reliable and durations keep 64-bit nanoseconds:
  -- a list of storable devices that is converted and written with success is loaded again device by
  -- device, in its order, but for the channel count and the buffer's samples that the device
  -- computes itself; an empty list too.
  pub load_devices-save_devices :
      (devices : List DeviceInfo) (msg : List (RvDeviceInfo D)) (w : W)
      → All IsStorable devices
      → device_list_to_rpc time devices ≡ ok msg
      → (storage.write_bytes (storage.serialize msg) w).0 ≡ true
      → load_devices storage time default_slot (save_devices storage time default_slot devices w).1
        ≡ map carried_info devices
  unfolding load_devices save_devices device_list_from_rpc
  load_devices-save_devices devices msg w storable written success =
      let round = device_list_round time lossless default_slot devices msg storable written in
      let read = reliable.stored (storage.serialize msg) w success in
      elim (Bool-cases (storage.size (storage.serialize msg) == 0)) [
        | inl nothing ↦
            let empty = reliable.no_bytes msg (ground (arith, nothing)) in
            let none_left : device_list_from_rpc time default_slot []
                ≡ ok (map carried_info devices) =
              ap (device_list_from_rpc time default_slot) (sym empty) ∙ round in
            rw (written, read, nothing) (ground (arith, none_left))
        | inr some_bytes ↦ rw (written, read, some_bytes, reliable.parsed msg, round) refl
      ]
