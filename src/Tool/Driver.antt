-- ===== src/Tool/Driver.antt =====
-- The tool with the driver: the commands of tool/ that are sent to driver/driver_service.cpp.
use Prim.Native.String.{String}
use roc_vad.Prelude.{
  ℕ, ◌≡◌, ◌⊎◌, refl, Bool, true, false, List, [], ◌∷◌, Option, none, some, length,
}
use roc_vad.Result.{Result, ok, throw}
use roc_vad.Defs.{DeviceInfo}
use roc_vad.EnumMap.Settings.{RvInterface}
use roc_vad.Message.{RvDeviceSelector, RvEndpointInfo, RvEndpointRequest}
use roc_vad.Serdes.Basic.{TimeUtil}
use roc_vad.Parse.{Text}
use roc_vad.Manager.{Host, Manager, is_some}
use roc_vad.Manager.Queries.{get_device-toggle_device}
use roc_vad.Manager
use roc_vad.Manager.Consistent.{IsConsistent}
use roc_vad.Service.{Reply, StatusCode, status_ok, RvDriverInfo, key_of}
use roc_vad.Service
use roc_vad.Tool.{Remote, connect}
use roc_vad.Tool.Select.{SelectOptions, selector, enable_device, disable_device}
use roc_vad.Tool.Endpoints.{EndpointOptions, Output, uris_fit}
use roc_vad.Tool.AddReceiver.{ReceiverOptions, has_encoding, build_receiver}
use roc_vad.Tool.AddReceiver

-- The requests are sent one by one, and none after one that fails; the responses before it are kept.
abbrev pub send_all :
    {W : Type 0}
    → (RvEndpointRequest → W → Option RvEndpointInfo × W)
    → List RvEndpointRequest
    → W
    → (Bool × List RvEndpointInfo) × W
send_all send [] w = ((true, []), w)
send_all send (r ∷ rest) w =
    let (response, v) = send r w in
    elim response [
      | none ↦ ((false, []), v)
      | some e ↦ let (result, u) = send_all send rest v in ((result.0, e ∷ result.1), u)
    ]

-- The request of one option, before the others.
abbrev pub requested :
    RvDeviceSelector
    → Option ℕ
    → RvInterface
    → Option String
    → List RvEndpointRequest
    → List RvEndpointRequest
requested device slot interface none rest = rest
requested device slot interface (some uri) rest =
    record { device = device; endpoint = record { slot = slot; interface = interface; uri = uri } }
    ∷ rest

abbrev pub requests : RvDeviceSelector → EndpointOptions → List RvEndpointRequest
requests device o = requested device o.slot RvInterface.audio_source o.source_endpoint (
    requested device o.slot RvInterface.audio_repair o.repair_endpoint
      (requested device o.slot RvInterface.audio_control o.control_endpoint []))

abbrev Send : Type 0 → Type 0
Send W = RvEndpointRequest → W → Option RvEndpointInfo × W

module _ {W D : Type 0} (bytes : String → Text) (remote : Remote W D) (o : EndpointOptions)
    (w : W) where
  -- How a command ends that sends with `send`: it fails before it connects, it cannot connect, or it
  -- sends its requests.
  abbrev pub Sends : Send W → Output × W → Type 0
  Sends send result =
      (((selector bytes remote o.device ≡ none) ⊎ (uris_fit o ≡ false))
        × (result ≡ ((false, []), w)))
      ⊎ (((connect remote w).0 ≡ false) × (result ≡ ((false, []), (connect remote w).1)))
      ⊎ ((device : RvDeviceSelector) × (selector bytes remote o.device ≡ some device)
          × ((connect remote w).0 ≡ true)
          × (result ≡ send_all send (requests device o) (connect remote w).1)
          × ((result.0.0 ≡ false) ⊎ (length result.0.1 ≡ length (requests device o))))

-- `device add receiver` without an option on the packet encoding sends the same request with
-- `--max-packet-size` as without it.
pub build_receiver_drops :
    {D : Type 0} (time : TimeUtil D) (o : ReceiverOptions)
    → has_encoding o.encoding ≡ false
    → build_receiver time o ≡ build_receiver time (record o { max_packet_size = none })
unfolding build_receiver AddReceiver.build_encoding AddReceiver.build_tuning
    AddReceiver.build_latency
build_receiver_drops time o none_given = rw none_given

-- The driver in the place of the stub, with a connection that holds.
abbrev pub response : {A M : Type 0} → Reply A × M → Option A × M
response ((_, message), m) = (message, m)

abbrev pub success : {A M : Type 0} → Reply A × M → Bool × M
success ((_, message), m) = (is_some message, m)

abbrev pub driver : {W U D B : Type 0} → Host W U D B → RvDriverInfo → Remote (Manager W U) D
driver host build = record {
  create_channel = λ m. (true, m);
  new_stub = λ m. (true, m);
  ping = λ m. success (Service.ping host m);
  driver_info = λ m. response (Service.driver_info host build m);
  get_all_devices = λ m. response (Service.get_all_devices host m);
  get_device = λ request m. response (Service.get_device host request m);
  add_device = λ request m. response (Service.add_device host request m);
  delete_device = λ request m. success (Service.delete_device host request m);
  toggle_device = λ request m. success (Service.toggle_device host request m);
  bind = λ request m. response (Service.bind host request m);
  connect = λ request m. response (Service.connect host request m);
}

module _ {W U D B : Type 0} (host : Host W U D B) (build : RvDriverInfo)
    (bytes : String → Text) where
  toggled :
      (enabled : Bool) (device : RvDeviceSelector) (m : Manager W U)
      → (success (Service.toggle_device host (record { device = device; enabled = enabled }) m)).1
        ≡ (Manager.toggle_device host (key_of device) enabled m).1
  unfolding Service.toggle_device Service.execute_command
  toggled enabled device m = go (Manager.toggle_device host (key_of device) enabled m)
    where
      go : (r : Result (Unit {0}) × Manager W U) → (success (Service.reply r)).1 ≡ r.1
      go (throw e, n) = refl
      go (ok u, n) = refl

  enabled_state :
      (o : SelectOptions) (device : RvDeviceSelector) (m : Manager W U)
      → selector bytes (driver host build) o ≡ some device
      → (enable_device bytes (driver host build) o m).1
        ≡ (Manager.toggle_device host (key_of device) true m).1
  unfolding enable_device connect Service.ping Service.execute_command
  enabled_state o device m chosen = rw chosen (toggled true device m)

  disabled_state :
      (o : SelectOptions) (device : RvDeviceSelector) (m : Manager W U)
      → selector bytes (driver host build) o ≡ some device
      → (disable_device bytes (driver host build) o m).1
        ≡ (Manager.toggle_device host (key_of device) false m).1
  unfolding disable_device connect Service.ping Service.execute_command
  disabled_state o device m chosen = rw chosen (toggled false device m)

  -- In a consistent state of a driver that the tool can reach, after `device enable` or `device
  -- disable` of a device that the driver knows, the driver describes it as enabled or disabled, and
  -- otherwise as before, also where the list cannot be saved.
  pub enable_device-get_device :
      (o : SelectOptions) (device : RvDeviceSelector) (info : DeviceInfo) (m : Manager W U)
      → IsConsistent m
      → selector bytes (driver host build) o ≡ some device
      → (Manager.get_device host (key_of device) m).0 ≡ ok info
      → ((Manager.get_device host (key_of device) (enable_device bytes (driver host build) o m).1).0
          ≡ ok (record info { enabled = true }))
        × ((Manager.get_device host
              (key_of device)
              (disable_device bytes (driver host build) o m).1).0
            ≡ ok (record info { enabled = false }))
  enable_device-get_device o device info m v chosen found = (
    rw (enabled_state o device m chosen)
        (get_device-toggle_device host (key_of device) true m info v found),
    rw (disabled_state o device m chosen)
        (get_device-toggle_device host (key_of device) false m info v found),
  )
