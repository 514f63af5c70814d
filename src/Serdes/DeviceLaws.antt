-- ===== src/Serdes/DeviceLaws.antt =====
-- What is written of a device to the protocol, or to the storage, is read back.
use roc_vad.Prelude.{
  ℕ, ◌≤◌, ◌≡◌, ◌≢◌, ◌⊎◌, ◌==◌, All, Bool, false, List, [], ◌∷◌, map, Option, none, some, arith,
  if◌then◌else◌,
}
use roc_vad.Result.{ok, >>=-eq-ok, map_result, map_result_round}
use roc_vad.Defs.{
  DeviceType, DeviceLocalEncoding, DeviceSenderConfig, DeviceReceiverConfig, DeviceEndpointInfo,
  DeviceInfo, is_empty, min_track_count, max_track_count,
}
use roc_vad.Message.{RvDeviceEncoding, RvDeviceInfo, RvEndpointInfo, NetworkConfig}
use roc_vad.Serdes.Basic.{TimeUtil, channel_layout_to_rpc}
use roc_vad.Serdes.Endpoint.{
  is_multitrack, tracks_from_rpc, tracks_to_rpc, endpoint_info_from_rpc, endpoint_info_to_rpc,
}
use roc_vad.Serdes.Config.{sender_config_to_rpc, receiver_config_to_rpc}
use roc_vad.Serdes.Device.{
  unless_bad, sample_rate_from_rpc, local_encoding_from_rpc, local_encoding_to_rpc,
  network_from_rpc, network_to_rpc, type_to_rpc, device_info_from_rpc, device_info_to_rpc,
  device_list_from_rpc, device_list_to_rpc,
}
use roc_vad.Serdes.EnumLaws.{channel_layout_round}
use roc_vad.Serdes.EndpointLaws.{endpoint_info_round}
use roc_vad.Serdes.ConfigLaws.{
  IsInt64, IsLossless, IsSendableSender, IsSendableReceiver, sender_config_round,
  receiver_config_round,
}

-- The device has the configuration of its type, and no other.
pub data HasConfig
    : DeviceType → Option DeviceSenderConfig → Option DeviceReceiverConfig → Type 0 where
  of_sender :
      (s : DeviceSenderConfig) → IsSendableSender s → HasConfig DeviceType.sender (some s) none
  of_receiver :
      (r : DeviceReceiverConfig)
      → IsSendableReceiver r
      → HasConfig DeviceType.receiver none (some r)

-- A device as the driver keeps it: with index, UID and name, and values that the protocol takes.
pub record IsStorable (i : DeviceInfo) : Type 0 where
  pub index : i.index ≢ 0
  pub uid : is_empty i.uid ≡ false
  pub name : is_empty i.name ≡ false
  pub rate : i.device_encoding.sample_rate ≢ 0
  pub buffer_length : IsInt64 i.device_encoding.buffer_length_ns
  pub tracks :
      (is_multitrack i.device_encoding.channel_layout ≡ false)
      ⊎ ((min_track_count ≤ i.device_encoding.channel_count)
          × (i.device_encoding.channel_count ≤ max_track_count))
  pub config : HasConfig i.type i.sender_config i.receiver_config
  pub local_uris : All (λ (e : DeviceEndpointInfo). is_empty e.uri ≡ false) i.local_endpoints
  pub remote_uris : All (λ (e : DeviceEndpointInfo). is_empty e.uri ≡ false) i.remote_endpoints

-- The encoding without what the protocol does not carry: the buffer's samples, and the channel count
-- of a layout that is not multi-track. The device computes both again.
abbrev pub carried : DeviceLocalEncoding → DeviceLocalEncoding
carried e = record e {
  channel_count = if is_multitrack e.channel_layout then e.channel_count else 0;
  buffer_samples = 0;
}

abbrev pub carried_info : DeviceInfo → DeviceInfo
carried_info i = record i { device_encoding = carried i.device_encoding }

unless_bad_round :
    {A : Type 0} (is_bad : A → Bool) (a kept : A)
    → is_bad a ≡ false
    → unless_bad is_bad (some a) kept ≡ ok a
unfolding unless_bad
unless_bad_round is_bad a kept h = ground arith

module _ {D : Type 0} (time : TimeUtil D) (lossless : IsLossless time) where
  local_encoding_round :
      (e : DeviceLocalEncoding) (m : RvDeviceEncoding D)
      → e.sample_rate ≢ 0
      → IsInt64 e.buffer_length_ns
      → (is_multitrack e.channel_layout ≡ false)
        ⊎ ((min_track_count ≤ e.channel_count) × (e.channel_count ≤ max_track_count))
      → local_encoding_to_rpc time e ≡ ok m
      → local_encoding_from_rpc time m ≡ ok (carried e)
  unfolding local_encoding_to_rpc local_encoding_from_rpc sample_rate_from_rpc tracks_to_rpc
      tracks_from_rpc
  local_encoding_round e m rate length tracks h =
      let (layout, e1, h) = >>=-eq-ok (channel_layout_to_rpc e.channel_layout) _ h in
      ground (
        arith,
        channel_layout_round e.channel_layout layout e1,
        lossless.nanoseconds e.buffer_length_ns length,
      )

  network_round :
      (type : DeviceType) (s : Option DeviceSenderConfig) (r : Option DeviceReceiverConfig)
      (m : NetworkConfig D)
      → HasConfig type s r
      → network_to_rpc time type s r ≡ ok m
      → network_from_rpc time (type_to_rpc time type) m ≡ ok (type, s, r)
  unfolding network_to_rpc network_from_rpc type_to_rpc
  network_round type s r m (of_sender c v) h =
      let (out, e1, h) = >>=-eq-ok (sender_config_to_rpc time c) _ h in
      ground (arith, sender_config_round time lossless c out v e1)
  network_round type s r m (of_receiver c v) h =
      let (out, e1, h) = >>=-eq-ok (receiver_config_to_rpc time c) _ h in
      ground (arith, receiver_config_round time lossless c out v e1)

  -- A storable device comes back from its message, but for what the protocol does not carry.
  pub device_info_round :
      (default_slot : ℕ) (i : DeviceInfo) (m : RvDeviceInfo D)
      → IsStorable i
      → device_info_to_rpc time i ≡ ok m
      → device_info_from_rpc time default_slot m ≡ ok (carried_info i)
  unfolding device_info_to_rpc device_info_from_rpc
  device_info_round default_slot i m v h =
      let (encoding, e1, h) = >>=-eq-ok (local_encoding_to_rpc time i.device_encoding) _ h in
      let (network, e2, h) =
        >>=-eq-ok (network_to_rpc time i.type i.sender_config i.receiver_config) _ h in
      let (locals, e3, h) = >>=-eq-ok (map_result endpoint_info_to_rpc i.local_endpoints) _ h in
      let (remotes, e4, h) = >>=-eq-ok (map_result endpoint_info_to_rpc i.remote_endpoints) _ h in
      ground (
        arith,
        local_encoding_round i.device_encoding encoding v.rate v.buffer_length v.tracks e1,
        network_round i.type i.sender_config i.receiver_config network v.config e2,
        endpoints_round i.local_endpoints locals v.local_uris e3,
        endpoints_round i.remote_endpoints remotes v.remote_uris e4,
        unless_bad_round (λ n. n == 0) i.index 0,
        unless_bad_round is_empty i.uid "" v.uid,
        unless_bad_round is_empty i.name "" v.name,
      )
    where
      endpoints_round :
          (es : List DeviceEndpointInfo) (ms : List RvEndpointInfo)
          → All (λ (e : DeviceEndpointInfo). is_empty e.uri ≡ false) es
          → map_result endpoint_info_to_rpc es ≡ ok ms
          → map_result (endpoint_info_from_rpc default_slot) ms ≡ ok es
      endpoints_round =
          map_result_round endpoint_info_to_rpc (endpoint_info_from_rpc default_slot)
            (λ e. is_empty e.uri ≡ false) (endpoint_info_round default_slot)

  -- So does a list of storable devices, each in its place.
  pub device_list_round :
      (default_slot : ℕ) (is : List DeviceInfo) (ms : List (RvDeviceInfo D))
      → All IsStorable is
      → device_list_to_rpc time is ≡ ok ms
      → device_list_from_rpc time default_slot ms ≡ ok (map carried_info is)
  unfolding device_list_to_rpc device_list_from_rpc
  device_list_round default_slot [] ms v h = ground arith
  device_list_round default_slot (i ∷ is) ms v h =
      let (m, e1, h) = >>=-eq-ok (device_info_to_rpc time i) _ h in
      let (rest, e2, h) = >>=-eq-ok (map_result (device_info_to_rpc time) is) _ h in
      ground (
        arith,
        device_info_round default_slot i m v.0 e1,
        device_list_round default_slot is rest v.1 e2,
      )
