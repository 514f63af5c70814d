-- ===== src/Manager/Tests.antt =====
-- A run of driver/device_manager.cpp: a device is added, enabled, looked up and deleted.
use roc_vad.Prelude.{ℕ, List, [], ◌∷◌, map, some, refl, All, arith, ◌≡◌, none, true}
use roc_vad.Result.{throw, invalid_argument}
use roc_vad.Index.{is_free}
use roc_vad.Prelude.Int.{ℤ}
use roc_vad.Message.{RvDeviceInfo}
use roc_vad.Storage.{load_devices}
use roc_vad.Serdes.Device.{device_list_from_rpc}
use roc_vad.Manager.Restart.{Restored, outcomes, create-Restored}
use roc_vad.Device.Samples.{wanted, five_free, device}
use roc_vad.Manager.{
  Host, blank, by_index, by_uid, create, get_device, get_all_devices, delete_device,
}
use roc_vad.Manager.Consistent.{IsConsistent}
use roc_vad.Manager.Table.{Reach}
use roc_vad.Manager.View.{view}
use roc_vad.Manager.Commands.{add, AllAllowed, run, run-create-Reach}
use roc_vad.Manager.Queries.{
  Ascending, answer, find_info, get_device-get_all_devices, get_device-delete_device,
}
use roc_vad.Manager.Samples.{
  no_storage, request, wanted_read, host, commands, commands_allowed, one_device,
  one_device-IsConsistent, found_by_uid,
}

run-create-Reach_example :
    let m = run host commands (create host 0 0) in IsConsistent m × Reach (λ j. none) (view m)
run-create-Reach_example = run-create-Reach host 0 0 commands commands_allowed

get_device-get_all_devices_example :
    Ascending (get_all_devices host one_device)
    × (get_device host (by_index 5) one_device
        ≡ (answer (find_info 5 (get_all_devices host one_device)), one_device))
get_device-get_all_devices_example =
    get_device-get_all_devices host one_device 5 one_device-IsConsistent

get_device-delete_device_example :
    let n = (delete_device host (by_uid "0a-1b") one_device).1 in
    (get_device host (by_index 5) n ≡ (throw invalid_argument, n))
    × (get_device host (by_uid "0a-1b") n ≡ (throw invalid_argument, n))
    × (is_free n.shared.index_allocator 5 ≡ true)
get_device-delete_device_example =
    get_device-delete_device host (by_uid "0a-1b") one_device device.info one_device-IsConsistent
      found_by_uid

-- A storage that holds the request for a device.
abbrev stored : Host ℕ ℕ ℤ (List (RvDeviceInfo ℤ))
stored = record host { storage = record no_storage { read_bytes = λ w. some (request ∷ []) } }

stored_read : load_devices stored.storage stored.time stored.default_slot 0 ≡ wanted ∷ []
unfolding load_devices device_list_from_rpc
stored_read = rw wanted_read

stored_allowed :
    AllAllowed stored
      (map add (load_devices stored.storage stored.time stored.default_slot 0))
      (blank stored 0 0)
stored_allowed = rw stored_read ((5, omega arith, five_free, omega arith, λ e. refl), tt)

create-Restored_example : All (Restored stored (create stored 0 0)) (
    outcomes stored
      (load_devices stored.storage stored.time stored.default_slot 0)
      (blank stored 0 0))
create-Restored_example = create-Restored stored 0 0 stored_allowed
