-- ===== src/Service.antt =====
-- driver/driver_service.cpp: the commands of the RPC service on the table of devices. A response is
-- sent with the status OK alone, so that a reply is a status and perhaps a message.
pub mod Laws
mod Tests
use Prim.Native.String.{String}
use roc_vad.Prelude.{ℕ, List, Option, none, some}
use roc_vad.Result.{Exception, Result, ok, throw, invalid_argument, runtime_error, other_exception}
use roc_vad.Exec.{Exec, ◌>>=◌, ◌>>◌, lift}
use roc_vad.Defs.{DeviceInfo, DeviceEndpointInfo}
use roc_vad.Message.{
  RvDeviceInfo, RvDeviceSelector, RvToggleRequest, RvEndpointInfo, RvEndpointRequest,
}
use roc_vad.Serdes.Endpoint.{endpoint_info_from_rpc, endpoint_info_to_rpc}
use roc_vad.Serdes.Device.{device_info_from_rpc, device_info_to_rpc, device_list_to_rpc}
use roc_vad.Manager.{Host, Manager, Key, by_index, by_uid}
use roc_vad.Manager

-- `grpc::StatusCode`
pub data StatusCode : Type 0 where
  status_ok status_invalid_argument status_internal status_unknown : StatusCode

abbrev pub Reply : Type 0 → Type 0
Reply A = StatusCode × Option A

abbrev status_of : Exception → StatusCode
status_of invalid_argument = status_invalid_argument
status_of runtime_error = status_internal
status_of other_exception = status_unknown

-- `RvDriverInfo`
pub record RvDriverInfo : Type 0 where
  pub version : String
  pub commit : String

-- `has_index()` decides; the `uid()` of a selector that is not set is empty.
unfoldable pub key_of : RvDeviceSelector → Key
key_of (RvDeviceSelector.by_index index) = by_index index
key_of (RvDeviceSelector.by_uid uid) = by_uid uid
key_of RvDeviceSelector.unset = by_uid ""

module _ {S : Type 0} where
  abbrev pub reply : {A : Type 0} → Result A × S → Reply A × S
  reply (throw e, s) = ((status_of e, none), s)
  reply (ok a, s) = ((status_ok, some a), s)

  -- `execute_command_`
  unfoldable pub execute_command : {A : Type 0} → Exec S A → S → Reply A × S
  execute_command func s = reply (func s)

module _ {W U D B : Type 0} (host : Host W U D B) where
  abbrev M : Type 0
  M = Manager W U

  abbrev Rpc : Type 0 → Type 0
  Rpc A = M → Reply A × M

  unfoldable pub ping : Rpc (Unit {0})
  ping = execute_command (λ m. (ok tt, m))

  unfoldable pub driver_info : RvDriverInfo → Rpc RvDriverInfo
  driver_info build = execute_command (λ m. (ok build, m))

  unfoldable pub get_all_devices : Rpc (List (RvDeviceInfo D))
  get_all_devices =
      execute_command (λ m. (device_list_to_rpc host.time (Manager.get_all_devices host m), m))

  unfoldable pub get_device : RvDeviceSelector → Rpc (RvDeviceInfo D)
  get_device request = execute_command (do
    device_info ← Manager.get_device host (key_of request)
    lift (device_info_to_rpc host.time device_info))

  unfoldable pub add_device : RvDeviceInfo D → Rpc (RvDeviceInfo D)
  add_device request = execute_command (do
    wanted ← lift (device_info_from_rpc host.time host.default_slot request)
    device_info ← Manager.add_device host wanted
    lift (device_info_to_rpc host.time device_info))

  unfoldable pub delete_device : RvDeviceSelector → Rpc (Unit {0})
  delete_device request = execute_command (Manager.delete_device host (key_of request))

  unfoldable pub toggle_device : RvToggleRequest → Rpc (Unit {0})
  toggle_device request =
      execute_command (Manager.toggle_device host (key_of request.device) request.enabled)

  unfoldable pub bind : RvEndpointRequest → Rpc RvEndpointInfo
  bind request = execute_command (do
    endpoint ← lift (endpoint_info_from_rpc host.default_slot request.endpoint)
    endpoint_info ← Manager.bind_device host (key_of request.device) endpoint
    lift (endpoint_info_to_rpc endpoint_info))

  unfoldable pub connect : RvEndpointRequest → Rpc RvEndpointInfo
  connect request = execute_command (do
    endpoint ← lift (endpoint_info_from_rpc host.default_slot request.endpoint)
    endpoint_info ← Manager.connect_device host (key_of request.device) endpoint
    lift (endpoint_info_to_rpc endpoint_info))
