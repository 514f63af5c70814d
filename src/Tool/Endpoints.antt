-- ===== src/Tool/Endpoints.antt =====
-- tool/cmd_device_bind.cpp and tool/cmd_device_connect.cpp, which differ in the command that is sent.
use Prim.Native.String.{String}
use roc_vad.Prelude.{
  ℕ, Bool, true, false, not, ◌||◌, ◌&&◌, List, [], ◌∷◌, Option, none, some, if◌then◌else◌,
}
use roc_vad.EnumMap.Settings.{RvInterface}
use roc_vad.Defs.{is_empty}
use roc_vad.Message.{RvDeviceSelector, RvEndpointInfo, RvEndpointRequest}
use roc_vad.Parse.{Text}
use roc_vad.Tool.{Remote}
use roc_vad.Tool
use roc_vad.Tool.Select.{SelectOptions, selector}

-- The members of `CmdDeviceBind`.
pub record EndpointOptions : Type 0 where
  pub device : SelectOptions
  pub slot : Option ℕ
  pub source_endpoint : Option String
  pub repair_endpoint : Option String
  pub control_endpoint : Option String

abbrev given : Option String → Bool
given none = false
given (some uri) = true

abbrev given_empty : Option String → Bool
given_empty none = false
given_empty (some uri) = is_empty uri

-- The checks of the three URIs.
abbrev pub uris_fit : EndpointOptions → Bool
uris_fit o =
    (given o.source_endpoint || given o.repair_endpoint || given o.control_endpoint)
    && not (
        given_empty o.source_endpoint
        || given_empty o.repair_endpoint
        || given_empty o.control_endpoint)

-- The result, and the endpoints that are printed before.
abbrev pub Output : Type 0
Output = Bool × List RvEndpointInfo

module _ {W : Type 0} where
  abbrev pub print_then : RvEndpointInfo → Output × W → Output × W
  print_then e ((done, printed), w) = ((done, e ∷ printed), w)

  -- The rest of a command, after a response.
  abbrev pub after_send : Option RvEndpointInfo × W → (W → Output × W) → Output × W
  after_send (none, w) next = ((false, []), w)
  after_send (some e, w) next = print_then e (next w)

  -- `send_command_`, for one of the options.
  abbrev pub send_option :
      (RvEndpointRequest → W → Option RvEndpointInfo × W)
      → RvDeviceSelector
      → Option ℕ
      → RvInterface
      → Option String
      → (W → Output × W)
      → W
      → Output × W
  send_option send device slot interface none next w = next w
  send_option send device slot interface (some uri) next w =
      after_send
        (send
          (record {
            device = device;
            endpoint = record { slot = slot; interface = interface; uri = uri };
          })
          w)
        next

  unfoldable pub send_endpoints :
      (RvEndpointRequest → W → Option RvEndpointInfo × W)
      → RvDeviceSelector
      → EndpointOptions
      → W
      → Output × W
  send_endpoints send device o =
      send_option send device o.slot RvInterface.audio_source o.source_endpoint (
        send_option send device o.slot RvInterface.audio_repair o.repair_endpoint (
          send_option send device o.slot RvInterface.audio_control o.control_endpoint
            (λ w. ((true, []), w))))

  abbrev pub connected_or_false : Bool × W → (W → Output × W) → Output × W
  connected_or_false (false, w) next = ((false, []), w)
  connected_or_false (true, w) next = next w

  module _ {D : Type 0} (bytes : String → Text) (remote : Remote W D) where
    abbrev execute :
        (RvEndpointRequest → W → Option RvEndpointInfo × W) → EndpointOptions → W → Output × W
    execute send o w = elim (selector bytes remote o.device) [
      | none ↦ ((false, []), w)
      | some device ↦
          if uris_fit o
          then connected_or_false (Tool.connect remote w) (send_endpoints send device o)
          else ((false, []), w)
    ]

    unfoldable pub bind_device : EndpointOptions → W → Output × W
    bind_device = execute remote.bind

    unfoldable pub connect_device : EndpointOptions → W → Output × W
    connect_device = execute remote.connect
