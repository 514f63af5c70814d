-- ===== src/Serdes/Device.antt =====
-- Device infos and device lists in driver/rpc_serdes.cpp.
use mathlib.Core.Option
use roc_vad.Prelude.{ℕ, Bool, true, List, Option, none, some, ◌==◌, if◌then◌else◌}
use roc_vad.Result.{Result, ok, throw, invalid_argument, ◌>>=◌, map_result}
use roc_vad.Defs.{
  DeviceType, DeviceLocalEncoding, DeviceSenderConfig, DeviceReceiverConfig, DeviceInfo,
  default_local_encoding, default_sender_config, default_receiver_config, is_empty,
}
use roc_vad.Message.{
  RvDeviceType, RvDeviceEncoding, RvDeviceInfo, NetworkConfig, blank_sender_config,
  blank_receiver_config,
}
use roc_vad.Serdes.Basic.{
  TimeUtil, or_kept, convert_or_kept, channel_layout_from_rpc, channel_layout_to_rpc,
}
use roc_vad.Serdes.Endpoint.{
  tracks_from_rpc, tracks_to_rpc, endpoint_info_from_rpc, endpoint_info_to_rpc,
}
use roc_vad.Serdes.Config.{
  sender_config_from_rpc, sender_config_to_rpc, receiver_config_from_rpc, receiver_config_to_rpc,
}

-- A field that may be unset, but not set to the value that `is_bad` tells.
unfoldable pub unless_bad {ℓ} : {A : Type ℓ} → (A → Bool) → Option A → A → Result A
unless_bad is_bad none kept = ok kept
unless_bad is_bad (some a) kept = if is_bad a then throw invalid_argument else ok a

-- A sample rate of zero counts as unset.
unfoldable pub sample_rate_from_rpc : Option ℕ → ℕ → ℕ
sample_rate_from_rpc none kept = kept
sample_rate_from_rpc (some rate) kept = if rate == 0 then kept else rate

module _ {D : Type 0} (time : TimeUtil D) where
  open time use {duration_to_nanoseconds, nanoseconds_to_duration}

  unfoldable pub local_encoding_from_rpc : RvDeviceEncoding D → Result DeviceLocalEncoding
  local_encoding_from_rpc e = do
    let out = default_local_encoding
    layout ← convert_or_kept channel_layout_from_rpc e.channel_layout out.channel_layout
    channel_count ← tracks_from_rpc layout e.track_count out.channel_count
    ok (record {
      sample_rate = sample_rate_from_rpc e.sample_rate out.sample_rate;
      channel_layout = layout;
      buffer_length_ns =
          or_kept (Option.map duration_to_nanoseconds e.buffer_length) out.buffer_length_ns;
      channel_count = channel_count;
      buffer_samples = out.buffer_samples;
    })

  unfoldable pub local_encoding_to_rpc : DeviceLocalEncoding → Result (RvDeviceEncoding D)
  local_encoding_to_rpc e = do
    layout ← channel_layout_to_rpc e.channel_layout
    ok (record {
      sample_rate = some e.sample_rate;
      channel_layout = some layout;
      track_count = tracks_to_rpc e.channel_layout e.channel_count;
      buffer_length = some (nanoseconds_to_duration e.buffer_length_ns);
    })

  -- The device type and the configurations: that of the other type must be absent.
  unfoldable pub network_from_rpc :
      RvDeviceType
      → NetworkConfig D
      → Result (DeviceType × Option DeviceSenderConfig × Option DeviceReceiverConfig)
  network_from_rpc RvDeviceType.sender NetworkConfig.unset =
      ok (DeviceType.sender, some default_sender_config, none)
  network_from_rpc RvDeviceType.sender (NetworkConfig.sender_config c) = do
    config ← sender_config_from_rpc time c
    ok (DeviceType.sender, some config, none)
  network_from_rpc RvDeviceType.sender (NetworkConfig.receiver_config c) = throw invalid_argument
  network_from_rpc RvDeviceType.receiver NetworkConfig.unset =
      ok (DeviceType.receiver, none, some default_receiver_config)
  network_from_rpc RvDeviceType.receiver (NetworkConfig.sender_config c) = throw invalid_argument
  network_from_rpc RvDeviceType.receiver (NetworkConfig.receiver_config c) = do
    config ← receiver_config_from_rpc time c
    ok (DeviceType.receiver, none, some config)
  network_from_rpc (RvDeviceType.other n) network = throw invalid_argument

  unfoldable pub type_to_rpc : DeviceType → RvDeviceType
  type_to_rpc DeviceType.sender = RvDeviceType.sender
  type_to_rpc DeviceType.receiver = RvDeviceType.receiver

  -- `mutable_sender_config` and `mutable_receiver_config` of the type, with no field set.
  blank_network : DeviceType → NetworkConfig D
  blank_network DeviceType.sender = NetworkConfig.sender_config (blank_sender_config D)
  blank_network DeviceType.receiver = NetworkConfig.receiver_config (blank_receiver_config D)

  -- The receiver configuration is written last; the two share a `oneof`, so it replaces the other.
  unfoldable pub network_to_rpc :
      DeviceType
      → Option DeviceSenderConfig
      → Option DeviceReceiverConfig
      → Result (NetworkConfig D)
  unfolding blank_network
  network_to_rpc type none none = ok (blank_network type)
  network_to_rpc type (some s) none = do
    config ← sender_config_to_rpc time s
    ok (elim type [
      | DeviceType.sender ↦ NetworkConfig.sender_config config
      | DeviceType.receiver ↦ blank_network DeviceType.receiver
    ])
  network_to_rpc type none (some r) = do
    config ← receiver_config_to_rpc time r
    ok (NetworkConfig.receiver_config config)
  network_to_rpc type (some s) (some r) = do
    unused ← sender_config_to_rpc time s
    config ← receiver_config_to_rpc time r
    ok (NetworkConfig.receiver_config config)

  module _ (default_slot : ℕ) where
    unfoldable pub device_info_from_rpc : RvDeviceInfo D → Result DeviceInfo
    device_info_from_rpc in_info = do
      network ← network_from_rpc in_info.type in_info.network_config
      index ← unless_bad (λ n. n == 0) in_info.index 0
      uid ← unless_bad is_empty in_info.uid ""
      name ← unless_bad is_empty in_info.name ""
      encoding ← local_encoding_from_rpc in_info.device_encoding
      local_endpoints ← map_result (endpoint_info_from_rpc default_slot) in_info.local_endpoints
      remote_endpoints ← map_result (endpoint_info_from_rpc default_slot) in_info.remote_endpoints
      ok (record {
        type = network.0;
        index = index;
        uid = uid;
        name = name;
        enabled = or_kept in_info.enabled true;
        device_encoding = encoding;
        sender_config = network.1;
        receiver_config = network.2;
        local_endpoints = local_endpoints;
        remote_endpoints = remote_endpoints;
      })

    unfoldable pub device_list_from_rpc : List (RvDeviceInfo D) → Result (List DeviceInfo)
    device_list_from_rpc = map_result device_info_from_rpc

  unfoldable pub device_info_to_rpc : DeviceInfo → Result (RvDeviceInfo D)
  device_info_to_rpc i = do
    encoding ← local_encoding_to_rpc i.device_encoding
    network ← network_to_rpc i.type i.sender_config i.receiver_config
    local_endpoints ← map_result endpoint_info_to_rpc i.local_endpoints
    remote_endpoints ← map_result endpoint_info_to_rpc i.remote_endpoints
    ok (record {
      type = type_to_rpc i.type;
      index = some i.index;
      uid = some i.uid;
      name = some i.name;
      enabled = some i.enabled;
      device_encoding = encoding;
      network_config = network;
      local_endpoints = local_endpoints;
      remote_endpoints = remote_endpoints;
    })

  unfoldable pub device_list_to_rpc : List DeviceInfo → Result (List (RvDeviceInfo D))
  device_list_to_rpc = map_result device_info_to_rpc
