-- ===== src/Serdes/EndpointLaws.antt =====
-- Packet encodings and endpoints come back from the protocol as they went.
use roc_vad.Prelude.{ℕ, ◌≤◌, ◌<◌, ◌≡◌, ◌≢◌, false, arith, if◌then◌else◌}
use roc_vad.Result.{ok}
use roc_vad.EnumMap.Settings.{RocChannelLayout}
use roc_vad.Defs.{
  RocFormat, DevicePacketEncoding, DeviceEndpointInfo, min_track_count, max_track_count, is_empty,
}
use roc_vad.Message.{RvPacketEncoding, RvEndpointInfo}
use roc_vad.Serdes.Endpoint.{
  is_multitrack, tracks_from_rpc, tracks_to_rpc, packet_encoding_from_rpc, packet_encoding_to_rpc,
  endpoint_info_from_rpc, endpoint_info_to_rpc,
}
use roc_vad.Serdes.EnumLaws.{sample_format_round, channel_layout_round, interface_round}

-- A track count that fits the layout; where the layout has no tracks, it is `kept`.
abbrev pub TracksFit : RocChannelLayout → ℕ → ℕ → Type 0
TracksFit layout count kept =
    if is_multitrack layout
    then (min_track_count ≤ count) × (count ≤ max_track_count)
    else (count ≡ kept)

pub tracks_round :
    (layout : RocChannelLayout) (count kept : ℕ)
    → TracksFit layout count kept
    → tracks_from_rpc layout (tracks_to_rpc layout count) kept ≡ ok count
unfolding tracks_from_rpc tracks_to_rpc
tracks_round RocChannelLayout.multitrack count kept h = ground arith
tracks_round RocChannelLayout.mono count kept h = ground arith
tracks_round RocChannelLayout.stereo count kept h = ground arith
tracks_round (RocChannelLayout.other n) count kept h = ground arith

pub record IsSendable (e : DevicePacketEncoding) : Type 0 where
  pub id_low : 0 < e.id
  pub id_high : e.id < 255
  pub rate : e.spec.rate ≢ 0
  pub format : e.spec.format ≡ RocFormat.pcm
  pub tracks : TracksFit e.spec.channels e.spec.tracks 0

-- A packet encoding with an identifier from 1 to 254, a rate and a fitting track count.
pub packet_encoding_round :
    (e : DevicePacketEncoding) (m : RvPacketEncoding)
    → IsSendable e
    → packet_encoding_to_rpc e ≡ ok m
    → packet_encoding_from_rpc m ≡ ok e
unfolding packet_encoding_to_rpc packet_encoding_from_rpc
packet_encoding_round e m v h = ground (
  arith,
  v,
  sample_format_round e.spec.subformat m.sample_format,
  channel_layout_round e.spec.channels m.channel_layout,
  tracks_round e.spec.channels e.spec.tracks 0 v.tracks,
)

pub endpoint_info_round :
    (default_slot : ℕ) (e : DeviceEndpointInfo) (m : RvEndpointInfo)
    → is_empty e.uri ≡ false
    → endpoint_info_to_rpc e ≡ ok m
    → endpoint_info_from_rpc default_slot m ≡ ok e
unfolding endpoint_info_to_rpc endpoint_info_from_rpc
endpoint_info_round default_slot e m v h = ground (arith, interface_round e.interface m.interface)
