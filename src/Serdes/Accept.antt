-- ===== src/Serdes/Accept.antt =====
-- What driver/rpc_serdes.cpp lets through: each value that it accepts is in its documented range.
use roc_vad.Prelude.{
  ℕ, ◌≡◌, ◌≢◌, ◌==◌, leb, ◌||◌, All, Bool, true, false, List, [], ◌∷◌, Option, none, some, arith,
}
use roc_vad.Result.{ok, throw_if, invalid_argument, >>=-eq-ok, map_result}
use roc_vad.EnumMap.Settings.{RocChannelLayout}
use roc_vad.Defs.{
  DeviceType, DeviceLocalEncoding, DeviceSenderConfig, DeviceReceiverConfig, DeviceEndpointInfo,
  DeviceInfo, is_empty, DevicePacketEncoding,
}
use roc_vad.Message.{
  RvDeviceType, RvDeviceEncoding, RvDeviceInfo, RvEndpointInfo, NetworkConfig, RvPacketEncoding,
}
use roc_vad.Serdes.Basic.{
  TimeUtil, convert_or_kept, channel_layout_from_rpc, interface_from_rpc, sample_format_from_rpc,
}
use roc_vad.Serdes.Endpoint.{tracks_from_rpc, packet_encoding_from_rpc, endpoint_info_from_rpc}
use roc_vad.Serdes.Config.{sender_config_from_rpc, receiver_config_from_rpc}
use roc_vad.Serdes.Device.{
  unless_bad, sample_rate_from_rpc, local_encoding_from_rpc, network_from_rpc, device_info_from_rpc,
}
use roc_vad.Serdes.EndpointLaws.{IsSendable, TracksFit}

-- The device has the configuration of its type, and no other.
abbrev pub own_config : DeviceType → Option DeviceSenderConfig → Option DeviceReceiverConfig → Bool
own_config DeviceType.sender (some s) none = true
own_config DeviceType.receiver none (some r) = true
own_config _ _ _ = false

pub record IsAccepted (i : DeviceInfo) : Type 0 where
  pub rate : i.device_encoding.sample_rate ≢ 0
  pub tracks : TracksFit i.device_encoding.channel_layout i.device_encoding.channel_count 0
  pub config : own_config i.type i.sender_config i.receiver_config ≡ true
  pub local_uris : All (λ (e : DeviceEndpointInfo). is_empty e.uri ≡ false) i.local_endpoints
  pub remote_uris : All (λ (e : DeviceEndpointInfo). is_empty e.uri ≡ false) i.remote_endpoints

tracks_from_rpc-fit :
    (layout : RocChannelLayout) (field : Option ℕ) (kept count : ℕ)
    → tracks_from_rpc layout field kept ≡ ok count
    → TracksFit layout count kept
unfolding tracks_from_rpc
tracks_from_rpc-fit RocChannelLayout.multitrack none kept count h = ground arith
tracks_from_rpc-fit RocChannelLayout.multitrack (some n) kept count h = ground arith
tracks_from_rpc-fit RocChannelLayout.mono none kept count h = ground arith
tracks_from_rpc-fit RocChannelLayout.mono (some n) kept count h = ground arith
tracks_from_rpc-fit RocChannelLayout.stereo none kept count h = ground arith
tracks_from_rpc-fit RocChannelLayout.stereo (some n) kept count h = ground arith
tracks_from_rpc-fit (RocChannelLayout.other k) none kept count h = ground arith
tracks_from_rpc-fit (RocChannelLayout.other k) (some n) kept count h = ground arith

-- A packet encoding that is accepted has an identifier from 1 to 254, a rate, the PCM format, and a
-- track count from 1 to 1024 with the multi-track layout and zero with the others: it can be sent.
pub packet_encoding_from_rpc-IsSendable :
    (m : RvPacketEncoding) (e : DevicePacketEncoding)
    → packet_encoding_from_rpc m ≡ ok e
    → IsSendable e
unfolding packet_encoding_from_rpc
packet_encoding_from_rpc-IsSendable m e h =
    let (_, e1, h) =
      >>=-eq-ok (throw_if (leb m.encoding_id 0 || leb 255 m.encoding_id) invalid_argument) _ h in
    let (_, e2, h) = >>=-eq-ok (throw_if (m.sample_rate == 0) invalid_argument) _ h in
    let (subformat, e3, h) = >>=-eq-ok (sample_format_from_rpc m.sample_format) _ h in
    let (channels, e4, h) = >>=-eq-ok (channel_layout_from_rpc m.channel_layout) _ h in
    let (tracks, e5, h) = >>=-eq-ok (tracks_from_rpc channels m.track_count 0) _ h in
    record {
      id_low = ground arith;
      id_high = ground arith;
      rate = ground arith;
      format = ground arith;
      tracks = ground (arith, tracks_from_rpc-fit channels m.track_count 0 tracks e5);
    }

module _ {D : Type 0} (time : TimeUtil D) where
  local_encoding_accepted :
      (m : RvDeviceEncoding D) (e : DeviceLocalEncoding)
      → local_encoding_from_rpc time m ≡ ok e
      → (e.sample_rate ≢ 0) × TracksFit e.channel_layout e.channel_count 0
  unfolding local_encoding_from_rpc sample_rate_from_rpc
  local_encoding_accepted m e h =
      let (layout, e1, h) =
        >>=-eq-ok (convert_or_kept channel_layout_from_rpc m.channel_layout RocChannelLayout.stereo)
          _ h in
      let (tracks, e2, h) = >>=-eq-ok (tracks_from_rpc layout m.track_count 0) _ h in
      (
        elim m.sample_rate [ none ↦ ground arith | some r ↦ ground arith ],
        ground (arith, tracks_from_rpc-fit layout m.track_count 0 tracks e2),
      )

  network_accepted :
      (t : RvDeviceType) (m : NetworkConfig D) (type : DeviceType) (s : Option DeviceSenderConfig)
      (r : Option DeviceReceiverConfig)
      → network_from_rpc time t m ≡ ok (type, s, r)
      → own_config type s r ≡ true
  unfolding network_from_rpc
  network_accepted RvDeviceType.sender NetworkConfig.unset type s r h = ground arith
  network_accepted RvDeviceType.sender (NetworkConfig.sender_config c) type s r h =
      let (_, e1, h) = >>=-eq-ok (sender_config_from_rpc time c) _ h in ground arith
  network_accepted RvDeviceType.sender (NetworkConfig.receiver_config c) type s r h = ground arith
  network_accepted RvDeviceType.receiver NetworkConfig.unset type s r h = ground arith
  network_accepted RvDeviceType.receiver (NetworkConfig.sender_config c) type s r h = ground arith
  network_accepted RvDeviceType.receiver (NetworkConfig.receiver_config c) type s r h =
      let (_, e1, h) = >>=-eq-ok (receiver_config_from_rpc time c) _ h in ground arith
  network_accepted (RvDeviceType.other n) m type s r h = ground arith

  endpoints_accepted :
      (default_slot : ℕ) (ms : List RvEndpointInfo) (es : List DeviceEndpointInfo)
      → map_result (endpoint_info_from_rpc default_slot) ms ≡ ok es
      → All (λ (e : DeviceEndpointInfo). is_empty e.uri ≡ false) es
  unfolding endpoint_info_from_rpc
  endpoints_accepted default_slot [] es h = ground arith
  endpoints_accepted default_slot (m ∷ ms) es h =
      let (e, e1, h) = >>=-eq-ok (endpoint_info_from_rpc default_slot m) _ h in
      let (rest, e2, h) = >>=-eq-ok (map_result (endpoint_info_from_rpc default_slot) ms) _ h in
      let (interface, e3, _) = >>=-eq-ok (interface_from_rpc m.interface) _ e1 in
      ground (arith, endpoints_accepted default_slot ms rest e2)

  -- A device message that is accepted gives a device with a sample rate, a channel count that fits its
  -- layout, the configuration of its type and no other, and endpoints that all have a URI.
  pub device_info_from_rpc-IsAccepted :
      (default_slot : ℕ) (m : RvDeviceInfo D) (i : DeviceInfo)
      → device_info_from_rpc time default_slot m ≡ ok i
      → IsAccepted i
  unfolding device_info_from_rpc
  device_info_from_rpc-IsAccepted default_slot m i h =
      let (network, e1, h) = >>=-eq-ok (network_from_rpc time m.type m.network_config) _ h in
      let (index, e2, h) = >>=-eq-ok (unless_bad (λ n. n == 0) m.index 0) _ h in
      let (uid, e3, h) = >>=-eq-ok (unless_bad is_empty m.uid "") _ h in
      let (name, e4, h) = >>=-eq-ok (unless_bad is_empty m.name "") _ h in
      let (encoding, e5, h) = >>=-eq-ok (local_encoding_from_rpc time m.device_encoding) _ h in
      let (locals, e6, h) =
        >>=-eq-ok (map_result (endpoint_info_from_rpc default_slot) m.local_endpoints) _ h in
      let (remotes, e7, h) =
        >>=-eq-ok (map_result (endpoint_info_from_rpc default_slot) m.remote_endpoints) _ h in
      let fit = local_encoding_accepted m.device_encoding encoding e5 in
      record {
        rate = ground (arith, fit.0);
        tracks = ground (arith, fit.1);
        config =
            ground
              (arith, network_accepted m.type m.network_config network.0 network.1 network.2 e1);
        local_uris = ground (arith, endpoints_accepted default_slot m.local_endpoints locals e6);
        remote_uris = ground (arith, endpoints_accepted default_slot m.remote_endpoints remotes e7);
      }
