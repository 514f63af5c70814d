-- ===== src/Tool/Select.antt =====
-- The commands of the tool on one device, which is named by index or by UID: tool/cmd_device_show.cpp,
-- cmd_device_delete.cpp, cmd_device_enable.cpp and cmd_device_disable.cpp; and the two without
-- options, cmd_device_list.cpp and cmd_info.cpp. Where nothing is printed but the success, only
-- the result is kept.
use Prim.Native.String.{String}
use mathlib.Core.Option
use roc_vad.Prelude.{Bool, true, false, List, Option, none, some}
use roc_vad.Message.{RvDeviceInfo, RvDeviceSelector}
use roc_vad.Parse.{Text, parse_index}
use roc_vad.Service.{RvDriverInfo}
use roc_vad.Tool.{Remote, connect, if_connected, on_success}

-- `use_uid_` and `index_or_uid_`.
pub record SelectOptions : Type 0 where
  pub use_uid : Bool
  pub index_or_uid : String

-- `bytes` are the bytes of a text.
module _ {W D : Type 0} (bytes : String → Text) (remote : Remote W D) where
  abbrev selector_of : Bool → String → Option RvDeviceSelector
  selector_of true uid = some (RvDeviceSelector.by_uid uid)
  selector_of false index = Option.map RvDeviceSelector.by_index (parse_index (bytes index))

  -- The selector of a request; a bad index is refused before the connection.
  unfoldable pub selector : SelectOptions → Option RvDeviceSelector
  selector o = selector_of o.use_uid o.index_or_uid

  unfoldable pub show_device : SelectOptions → W → Option (RvDeviceInfo D) × W
  show_device o w = elim (selector o) [
    | none ↦ (none, w)
    | some device ↦ if_connected (connect remote w) (remote.get_device device)
  ]

  unfoldable pub delete_device : SelectOptions → W → Bool × W
  delete_device o w = elim (selector o) [
    | none ↦ (false, w)
    | some device ↦ on_success (connect remote w) (remote.delete_device device)
  ]

  -- `enable` and `disable` differ in one argument.
  abbrev pub toggle_selected : Bool → Option RvDeviceSelector → W → Bool × W
  toggle_selected enabled none w = (false, w)
  toggle_selected enabled (some device) w =
      on_success (connect remote w)
        (remote.toggle_device (record { device = device; enabled = enabled }))

  unfoldable pub enable_device : SelectOptions → W → Bool × W
  enable_device o = toggle_selected true (selector o)

  unfoldable pub disable_device : SelectOptions → W → Bool × W
  disable_device o = toggle_selected false (selector o)

  unfoldable pub list_devices : W → Option (List (RvDeviceInfo D)) × W
  list_devices w = if_connected (connect remote w) remote.get_all_devices

  unfoldable pub show_info : W → Option RvDriverInfo × W
  show_info w = if_connected (connect remote w) remote.driver_info
