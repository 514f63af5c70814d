-- ===== src/Service/Laws.antt =====
-- What a client of driver/driver_service.cpp sees.
use Prim.Native.String.{String}
use roc_vad.Prelude.{ℕ, ◌≡◌, ◌⊎◌, refl, sym, ◌∙◌, Bool, none, some, arith, inl, inr, Bool-cases}
use roc_vad.Result.{
  Result, ok, throw, invalid_argument, runtime_error, other_exception, >>=-eq-ok, map_result,
}
use roc_vad.Exec.{and_then, lift, and_then_ok}
use roc_vad.Defs.{DeviceInfo, DeviceEndpointInfo, is_empty}
use roc_vad.Message.{RvDeviceInfo, RvDeviceSelector, RvEndpointInfo, RvEndpointRequest}
use roc_vad.EnumMap.Lookup.{enum_from_rpc}
use roc_vad.EnumMap.Settings.{RvInterface, RocInterface, RvInterface-discrete}
use roc_vad.Serdes.Basic.{TimeUtil, or_kept, interface_from_rpc}
use roc_vad.Serdes.Endpoint.{endpoint_info_from_rpc, endpoint_info_to_rpc}
use roc_vad.Serdes.Device.{
  device_info_from_rpc, device_info_to_rpc, local_encoding_to_rpc, network_to_rpc,
}
use roc_vad.Manager.{Host, Manager, Key, by_index, by_uid, pointer_of}
use roc_vad.Manager
use roc_vad.Manager.Commands.{get_device-add_device}
use roc_vad.Service.{
  reply, status_ok, status_invalid_argument, key_of, execute_command, get_device, add_device,
  delete_device, toggle_device, bind, connect,
}

reply_ok :
    {S A : Type 0} (r : Result A × S) (a : A) → (reply r).0 ≡ (status_ok, some a) → r.0 ≡ ok a
reply_ok (throw invalid_argument, s) a h = absurd (ground (arith, h))
reply_ok (throw runtime_error, s) a h = absurd (ground (arith, h))
reply_ok (throw other_exception, s) a h = absurd (ground (arith, h))
reply_ok (ok b, s) a h = ground (arith, h)

reply_state : {S A : Type 0} (r : Result A × S) → (reply r).1 ≡ r.1
reply_state (throw e, s) = refl
reply_state (ok b, s) = refl

-- The interface of an endpoint is in the table, or it is refused.
enum_or_refused :
    (i : RvInterface)
    → (interface_from_rpc i ≡ throw invalid_argument)
      ⊎ ((j : RocInterface) × (interface_from_rpc i ≡ ok j))
unfolding interface_from_rpc enum_from_rpc RvInterface-discrete
enum_or_refused RvInterface.consolidated = inr (RocInterface.aggregate, refl)
enum_or_refused RvInterface.audio_source = inr (RocInterface.audio_source, refl)
enum_or_refused RvInterface.audio_repair = inr (RocInterface.audio_repair, refl)
enum_or_refused RvInterface.audio_control = inr (RocInterface.audio_control, refl)
enum_or_refused (RvInterface.other n) = inl refl

-- A conversion after a step leaves its state.
lift_state :
    {S A B : Type 0} (r : Result A × S) (convert : A → Result B)
    → (and_then r (λ a. lift (convert a))).1 ≡ r.1
lift_state (throw e, s) convert = refl
lift_state (ok a, s) convert = refl

-- The index and the UID in a message.
device_info_to_rpc-names :
    {D : Type 0} (time : TimeUtil D) (info : DeviceInfo) (msg : RvDeviceInfo D)
    → device_info_to_rpc time info ≡ ok msg
    → (msg.index ≡ some info.index) × (msg.uid ≡ some info.uid)
unfolding device_info_to_rpc
device_info_to_rpc-names time info msg h =
    let (_, _, h) = >>=-eq-ok (local_encoding_to_rpc time info.device_encoding) _ h in
    let (_, _, h) =
      >>=-eq-ok (network_to_rpc time info.type info.sender_config info.receiver_config) _ h in
    let (_, _, h) = >>=-eq-ok (map_result endpoint_info_to_rpc info.local_endpoints) _ h in
    let (_, _, h) = >>=-eq-ok (map_result endpoint_info_to_rpc info.remote_endpoints) _ h in
    ground (arith, h)

module _ {W U D B : Type 0} (host : Host W U D B) where
  -- What a request to add a device has done when it succeeds.
  added :
      (request msg : RvDeviceInfo D) (m : Manager W U)
      → (add_device host request m).0 ≡ (status_ok, some msg)
      → (wanted result : DeviceInfo) × ((Manager.add_device host wanted m).0 ≡ ok result)
        × (device_info_to_rpc host.time result ≡ ok msg)
        × ((add_device host request m).1 ≡ (Manager.add_device host wanted m).1)
  unfolding add_device execute_command
  added request msg m h =
      let made = device_info_from_rpc host.time host.default_slot request in
      let (wanted, ew, h1) = and_then_ok (made, m) _ (reply_ok _ msg h) in
      let (result, er, et) = and_then_ok (Manager.add_device host wanted m) _ h1 in
      let last =
        and_then (Manager.add_device host wanted m) (λ i. lift (device_info_to_rpc host.time i)) in
      (
        wanted,
        result,
        er,
        et,
        rw ew (
            reply_state last
            ∙ lift_state (Manager.add_device host wanted m) (device_info_to_rpc host.time)),
      )

  get_found :
      (selector : RvDeviceSelector) (info : DeviceInfo) (msg : RvDeviceInfo D) (m : Manager W U)
      → Manager.get_device host (key_of selector) m ≡ (ok info, m)
      → device_info_to_rpc host.time info ≡ ok msg
      → get_device host selector m ≡ ((status_ok, some msg), m)
  unfolding get_device execute_command
  get_found selector info msg m found sent = rw (found, sent) refl

  -- A device that a client adds with success is found by the index and by the UID in the reply, and
  -- `get_device` replies the same message.
  pub get_device_rpc-add_device_rpc :
      (request msg : RvDeviceInfo D) (i : ℕ) (u : String) (m : Manager W U)
      → (add_device host request m).0 ≡ (status_ok, some msg)
      → msg.index ≡ some i
      → msg.uid ≡ some u
      → let n = (add_device host request m).1 in
        (get_device host (RvDeviceSelector.by_index i) n ≡ ((status_ok, some msg), n))
        × (get_device host (RvDeviceSelector.by_uid u) n ≡ ((status_ok, some msg), n))
  unfolding key_of
  get_device_rpc-add_device_rpc request msg i u m h index uid =
      let (wanted, result, made, sent, state) = added request msg m h in
      let (own_index, own_uid) = device_info_to_rpc-names host.time result msg sent in
      let (at_index, at_uid) = get_device-add_device host wanted result m made in
      let same_index : result.index ≡ i = ground (arith, index, own_index) in
      let same_uid : result.uid ≡ u = ground (arith, uid, own_uid) in
      rw (sym same_index, sym same_uid, state)
        (
          get_found (RvDeviceSelector.by_index result.index) result msg _ at_index sent,
          get_found (RvDeviceSelector.by_uid result.uid) result msg _ at_uid sent,
        )

  -- What becomes of an endpoint before the device is looked for.
  endpoint_or_refused :
      (e : RvEndpointInfo)
      → (endpoint_info_from_rpc host.default_slot e ≡ throw invalid_argument)
        ⊎ ((endpoint : DeviceEndpointInfo) × (endpoint_info_from_rpc host.default_slot e
              ≡ ok endpoint))
  unfolding endpoint_info_from_rpc
  endpoint_or_refused e = elim (enum_or_refused e.interface) [
    | inl refused ↦ inl (rw refused)
    | inr (interface, found) ↦ elim (Bool-cases (is_empty e.uri)) [
      | inl empty ↦ inl (rw (found, empty))
      | inr filled ↦ inr (
        record { slot = or_kept e.slot host.default_slot; interface = interface; uri = e.uri },
        rw (found, filled),
      )
    ]
  ]

  -- With a selector that no device has, all five commands reply INVALID_ARGUMENT, whatever the rest of
  -- the request is, and change nothing.
  pub unknown_device :
      (selector : RvDeviceSelector) (enabled : Bool) (endpoint : RvEndpointInfo) (m : Manager W U)
      → pointer_of host (key_of selector) m ≡ none
      → let to_endpoint : RvEndpointRequest = record { device = selector; endpoint = endpoint } in
        (get_device host selector m ≡ ((status_invalid_argument, none), m))
        × (delete_device host selector m ≡ ((status_invalid_argument, none), m))
        × (toggle_device host (record { device = selector; enabled = enabled }) m
            ≡ ((status_invalid_argument, none), m))
        × (bind host to_endpoint m ≡ ((status_invalid_argument, none), m))
        × (connect host to_endpoint m ≡ ((status_invalid_argument, none), m))
  unfolding get_device delete_device toggle_device bind connect execute_command Manager.get_device
      Manager.delete_device Manager.toggle_device Manager.bind_device Manager.connect_device
  unknown_device selector enabled endpoint m unknown = elim (endpoint_or_refused endpoint) [
    | inl refused ↦ (rw unknown, rw unknown, rw unknown, rw refused, rw refused)
    | inr (e, converted) ↦
        (rw unknown, rw unknown, rw unknown, rw (converted, unknown), rw (converted, unknown))
  ]
