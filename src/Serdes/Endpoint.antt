-- ===== src/Serdes/Endpoint.antt =====
-- Packet encodings and endpoints in driver/rpc_serdes.cpp.
use roc_vad.Prelude.{ℕ, Bool, true, false, ◌||◌, Option, none, some, ltb, leb, ◌==◌, if◌then◌else◌}
use roc_vad.Result.{Result, ok, throw, invalid_argument, ◌>>=◌, ◌>>◌, throw_if}
use roc_vad.EnumMap.Settings.{RocChannelLayout}
use roc_vad.Defs.{
  RocFormat, DevicePacketEncoding, DeviceEndpointInfo, min_track_count, max_track_count, is_empty,
}
use roc_vad.Message.{RvPacketEncoding, RvEndpointInfo}
use roc_vad.Serdes.Basic.{
  or_kept, sample_format_from_rpc, sample_format_to_rpc, channel_layout_from_rpc,
  channel_layout_to_rpc, interface_from_rpc, interface_to_rpc,
}

abbrev pub is_multitrack : RocChannelLayout → Bool
is_multitrack RocChannelLayout.multitrack = true
is_multitrack _ = false

-- The check of the track count against the layout, which both kinds of encoding make: the count
-- where the layout has several tracks, `kept` where it has not.
unfoldable pub tracks_from_rpc : RocChannelLayout → Option ℕ → ℕ → Result ℕ
tracks_from_rpc layout none kept = if is_multitrack layout then throw invalid_argument else ok kept
tracks_from_rpc layout (some count) kept =
    if is_multitrack layout
    then (if ltb count min_track_count || ltb max_track_count count
        then throw invalid_argument
        else ok count)
    else throw invalid_argument

unfoldable pub tracks_to_rpc : RocChannelLayout → ℕ → Option ℕ
tracks_to_rpc layout count = if is_multitrack layout then some count else none

-- `out` begins with `tracks = 0`.
unfoldable pub packet_encoding_from_rpc : RvPacketEncoding → Result DevicePacketEncoding
packet_encoding_from_rpc in_encoding = do
  throw_if (leb in_encoding.encoding_id 0 || leb 255 in_encoding.encoding_id) invalid_argument
  throw_if (in_encoding.sample_rate == 0) invalid_argument
  subformat ← sample_format_from_rpc in_encoding.sample_format
  channels ← channel_layout_from_rpc in_encoding.channel_layout
  tracks ← tracks_from_rpc channels in_encoding.track_count 0
  ok (record {
    id = in_encoding.encoding_id;
    spec = record {
      format = RocFormat.pcm;
      subformat = subformat;
      rate = in_encoding.sample_rate;
      channels = channels;
      tracks = tracks;
    };
  })

unfoldable pub packet_encoding_to_rpc : DevicePacketEncoding → Result RvPacketEncoding
packet_encoding_to_rpc in_encoding = do
  sample_format ← sample_format_to_rpc in_encoding.spec.subformat
  channel_layout ← channel_layout_to_rpc in_encoding.spec.channels
  ok (record {
    encoding_id = in_encoding.id;
    sample_rate = in_encoding.spec.rate;
    sample_format = sample_format;
    channel_layout = channel_layout;
    track_count = tracks_to_rpc in_encoding.spec.channels in_encoding.spec.tracks;
  })

-- `ROC_SLOT_DEFAULT`, the slot of an endpoint that names none, is the parameter `default_slot`.
unfoldable pub endpoint_info_from_rpc : ℕ → RvEndpointInfo → Result DeviceEndpointInfo
endpoint_info_from_rpc default_slot in_info = do
  interface ← interface_from_rpc in_info.interface
  throw_if (is_empty in_info.uri) invalid_argument
  ok (record { slot = or_kept in_info.slot default_slot; interface = interface; uri = in_info.uri })

unfoldable pub endpoint_info_to_rpc : DeviceEndpointInfo → Result RvEndpointInfo
endpoint_info_to_rpc in_info = do
  interface ← interface_to_rpc in_info.interface
  ok (record { slot = some in_info.slot; interface = interface; uri = in_info.uri })
