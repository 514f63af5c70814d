-- ===== src/Output/Device.antt =====
-- Devices and versions in tool/print.cpp. Whether the message of a device holds a device encoding is
-- given beside it.
use Prim.Native.String.{String, len}
use text.Mathlib.Text.{get?}
use roc_vad.Prelude.{Bool, true, false, List, [], ◌∷◌, ◌++◌, min, if◌then◌else◌}
use roc_vad.Message.{NetworkConfig, RvDeviceInfo, RvEndpointInfo}
use roc_vad.Serdes.Basic.{or_kept}
use roc_vad.Service.{RvDriverInfo}
use roc_vad.Output.{num, str, Line, println, Format, format_device_type}
use roc_vad.Output.Endpoints.{print_endpoint_list}
use roc_vad.Output.Config.{line, print_device_encoding, print_sender_config, print_receiver_config}

-- The state of a device.
abbrev on_or_off : Bool → String
on_or_off true = "on"
on_or_off false = "off"

-- `substr(0, 7)` of the digits of a commit.
abbrev short_commit : String → String
short_commit commit = or_kept (get? commit 0 (min 7 (len commit))) ""

-- `own` is the build of the tool.
unfoldable pub print_driver_and_client_info : RvDriverInfo → RvDriverInfo → List Line
print_driver_and_client_info own driver_info =
    println "driver is loaded" []
    ∷ println "" []
    ∷ println "driver:" []
    ∷ println "  version: {}" (str driver_info.version ∷ [])
    ∷ println "  commit:  {}" (str (short_commit driver_info.commit) ∷ [])
    ∷ println "" []
    ∷ println "client:" []
    ∷ println "  version: {}" (str own.version ∷ [])
    ∷ println "  commit:  {}" (str (short_commit own.commit) ∷ [])
    ∷ []

module _ {D : Type 0} (fmt : Format D) where
  abbrev print_network_config : NetworkConfig D → List Line
  print_network_config NetworkConfig.unset = []
  print_network_config (NetworkConfig.sender_config c) = print_sender_config fmt c
  print_network_config (NetworkConfig.receiver_config c) = print_receiver_config fmt c

  -- A list of endpoints under its heading, unless it is empty.
  abbrev print_endpoints : String → List RvEndpointInfo → List Line
  print_endpoints heading [] = []
  print_endpoints heading (e ∷ es) =
      println "" [] ∷ println heading [] ∷ print_endpoint_list fmt (e ∷ es)

  unfoldable pub print_device_info : Bool → RvDeviceInfo D → List Line
  print_device_info has_device_encoding i =
      println "device #{}" (num (or_kept i.index 0) ∷ [])
        ∷ println "" []
        ∷ line "  type:   {}" (format_device_type i.type)
        ∷ line "  uid:    {}" (or_kept i.uid "")
        ∷ line "  name:   {}" (or_kept i.name "")
        ∷ line "  state:  {}" (on_or_off (or_kept i.enabled false))
        ∷ (if has_device_encoding
            then println "" [] ∷ print_device_encoding fmt i.device_encoding
            else [])
      ++ print_network_config i.network_config
      ++ print_endpoints "  local_endpoints:" i.local_endpoints
      ++ print_endpoints "  remote_endpoints:" i.remote_endpoints

  -- The devices in full, with an empty line between two of them.
  unfoldable pub print_details : Bool → List (Bool × RvDeviceInfo D) → List Line
  print_details is_first [] = []
  print_details is_first ((has_encoding, i) ∷ rest) =
      let lines = print_device_info has_encoding i ++ print_details false rest in
      if is_first then lines else println "" [] ∷ lines

  -- The table of devices.
  unfoldable pub print_rows : List (Bool × RvDeviceInfo D) → List Line
  print_rows [] = []
  print_rows ((has_encoding, i) ∷ rest) =
      println "{:<8} {:<10} {:<7} {:<30} {}" (
        num (or_kept i.index 0)
        ∷ str (format_device_type i.type)
        ∷ str (on_or_off (or_kept i.enabled false))
        ∷ str (or_kept i.uid "")
        ∷ str (or_kept i.name "")
        ∷ [])
      ∷ print_rows rest

  unfoldable pub print_device_list : List (Bool × RvDeviceInfo D) → Bool → List Line
  print_device_list devices show_info =
      if show_info
      then print_details true devices
      else println "{:<8} {:<10} {:<7} {:<30} {}"
          (str "index" ∷ str "type" ∷ str "state" ∷ str "uid" ∷ str "name" ∷ [])
        ∷ print_rows devices
