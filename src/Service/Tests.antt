-- ===== src/Service/Tests.antt =====
-- Requests to driver/driver_service.cpp for a device that is there and one that is not.
use roc_vad.Prelude.{◌≡◌, refl, some, none, true, arith}
use roc_vad.EnumMap.Settings
use roc_vad.Message.{RvDeviceSelector, RvEndpointInfo, RvEndpointRequest}
use roc_vad.Manager.Samples.{
  host, empty, one_device, unknown_uid, request, wanted_read, device_message, message_written,
  device_added,
}
use roc_vad.Manager
use roc_vad.Device.Samples.{wanted, device}
use roc_vad.Serdes.Samples.{clock}
use roc_vad.Serdes.Device.{device_info_to_rpc}
use roc_vad.Result.{Result, ok, throw}
use roc_vad.Exec.{and_then, lift}
use roc_vad.Service.{
  reply, execute_command, key_of, status_ok, status_invalid_argument, get_device, add_device,
  delete_device, toggle_device, bind, connect,
}
use roc_vad.Service.Laws.{get_device_rpc-add_device_rpc, unknown_device}

abbrev endpoint : RvEndpointInfo
endpoint = record {
  slot = none;
  interface = Settings.RvInterface.audio_source;
  uri = "rtp://10.0.0.1:5000";
}

unknown_device_example :
    let to_endpoint : RvEndpointRequest = record {
      device = RvDeviceSelector.by_uid "ff";
      endpoint = endpoint;
    } in
    (get_device host (RvDeviceSelector.by_uid "ff") one_device
      ≡ ((status_invalid_argument, none), one_device))
    × (delete_device host (RvDeviceSelector.by_uid "ff") one_device
        ≡ ((status_invalid_argument, none), one_device))
    × (toggle_device host
          (record { device = RvDeviceSelector.by_uid "ff"; enabled = true })
          one_device
        ≡ ((status_invalid_argument, none), one_device))
    × (bind host to_endpoint one_device ≡ ((status_invalid_argument, none), one_device))
    × (connect host to_endpoint one_device ≡ ((status_invalid_argument, none), one_device))
unfolding key_of
unknown_device_example =
    unknown_device host (RvDeviceSelector.by_uid "ff") true endpoint one_device unknown_uid

reply_after :
    {S A C : Type 0} (r : Result A × S) (a : A) (convert : A → Result C) (c : C)
    → r.0 ≡ ok a
    → convert a ≡ ok c
    → (reply (and_then r (λ x. lift (convert x)))).0 ≡ (status_ok, some c)
reply_after (throw e, s) a convert c h k = absurd (ground (arith, h))
reply_after (ok x, s) a convert c h k = ground (arith, h, k)

added : (add_device host request empty).0 ≡ (status_ok, some device_message)
unfolding add_device execute_command
added = rw wanted_read (
    reply_after (Manager.add_device host wanted empty) device.info (device_info_to_rpc clock)
      device_message device_added message_written)

get_device_rpc-add_device_rpc_example :
    let n = (add_device host request empty).1 in
    (get_device host (RvDeviceSelector.by_index 5) n ≡ ((status_ok, some device_message), n))
    × (get_device host (RvDeviceSelector.by_uid "0a-1b") n ≡ ((status_ok, some device_message), n))
get_device_rpc-add_device_rpc_example =
    get_device_rpc-add_device_rpc host request device_message 5 "0a-1b" empty added refl refl
