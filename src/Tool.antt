-- ===== src/Tool.antt =====
-- tool/connector.cpp, and what the commands of the tool share. A command calls the driver through the
-- stub that protoc generates, which is a parameter; `none` is a status that is not OK. Connecting is
-- silent or not, which only the log shows.
pub mod Build
pub mod AddSender
pub mod AddReceiver
pub mod Endpoints
pub mod Select
pub mod Requests
pub mod Sent
pub mod Driver
pub mod Cli
pub mod Uninstall
mod Tests
mod MainTests
use Prim.Native.String.{String}
use roc_vad.Prelude.{ℕ, Bool, true, false, List, Option, none, some, if◌then◌else◌}
use roc_vad.Service.{RvDriverInfo}
use roc_vad.Message.{
  RvDeviceInfo, RvDeviceSelector, RvToggleRequest, RvEndpointInfo, RvEndpointRequest,
}

-- gRPC, with the stub of `RvDriver`: creating a channel and a stub, and the commands.
pub record Remote (W D : Type 0) : Type 0 where
  pub create_channel : W → Bool × W
  pub new_stub : W → Bool × W
  pub ping : W → Bool × W
  pub driver_info : W → Option RvDriverInfo × W
  pub get_all_devices : W → Option (List (RvDeviceInfo D)) × W
  pub get_device : RvDeviceSelector → W → Option (RvDeviceInfo D) × W
  pub add_device : RvDeviceInfo D → W → Option (RvDeviceInfo D) × W
  pub delete_device : RvDeviceSelector → W → Bool × W
  pub toggle_device : RvToggleRequest → W → Bool × W
  pub bind : RvEndpointRequest → W → Option RvEndpointInfo × W
  pub connect : RvEndpointRequest → W → Option RvEndpointInfo × W

module _ {W : Type 0} where
  -- The next step, where this one succeeded.
  abbrev pub on_success : Bool × W → (W → Bool × W) → Bool × W
  on_success (false, w) next = (false, w)
  on_success (true, w) next = next w

  -- A command that prints nothing, where the connection failed.
  abbrev pub if_connected : {A : Type 0} → Bool × W → (W → Option A × W) → Option A × W
  if_connected (false, w) next = (none, w)
  if_connected (true, w) next = next w

  -- `Connector::connect`, whether it returns a stub.
  unfoldable pub connect : {D : Type 0} → Remote W D → W → Bool × W
  connect remote w =
      on_success (remote.create_channel w) (λ v. on_success (remote.new_stub v) remote.ping)
