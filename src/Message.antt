-- ===== src/Message.antt =====
-- The messages of rpc/driver_protocol.proto that the driver and the tool exchange. An `optional`
-- field is an `Option`; `D` is the type of protobuf's `Duration`, and a message field that is not
-- set reads as its default, so `device_encoding` is always there.
use Prim.Native.String.{String}
use roc_vad.Prelude.{ℕ, Bool, List, [], Option, none}
use roc_vad.EnumMap.Settings.{
  RvInterface, RvChannelLayout, RvFecEncoding, RvLatencyTunerBackend, RvLatencyTunerProfile,
  RvResamplerBackend, RvResamplerProfile,
}
use roc_vad.EnumMap.SampleFormat.{RvSampleFormat}

pub data RvDeviceType : Type 0 where
  sender receiver : RvDeviceType
  other : ℕ → RvDeviceType

pub record RvPacketEncoding : Type 0 where
  pub encoding_id : ℕ
  pub sample_rate : ℕ
  pub sample_format : RvSampleFormat
  pub channel_layout : RvChannelLayout
  pub track_count : Option ℕ

pub record RvDeviceEncoding (D : Type 0) : Type 0 where
  pub sample_rate : Option ℕ
  pub channel_layout : Option RvChannelLayout
  pub track_count : Option ℕ
  pub buffer_length : Option D

pub record RvSenderConfig (D : Type 0) : Type 0 where
  pub packet_encoding : Option RvPacketEncoding
  pub packet_length : Option D
  pub fec_encoding : Option RvFecEncoding
  pub fec_block_source_packets : Option ℕ
  pub fec_block_repair_packets : Option ℕ
  pub latency_tuner_backend : Option RvLatencyTunerBackend
  pub latency_tuner_profile : Option RvLatencyTunerProfile
  pub resampler_backend : Option RvResamplerBackend
  pub resampler_profile : Option RvResamplerProfile
  pub target_latency : Option D
  pub latency_tolerance : Option D
  pub max_packet_size : Option ℕ

abbrev pub blank_sender_config : (D : Type 0) → RvSenderConfig D
blank_sender_config D = record {
  packet_encoding = none;
  packet_length = none;
  fec_encoding = none;
  fec_block_source_packets = none;
  fec_block_repair_packets = none;
  latency_tuner_backend = none;
  latency_tuner_profile = none;
  resampler_backend = none;
  resampler_profile = none;
  target_latency = none;
  latency_tolerance = none;
  max_packet_size = none;
}

pub record RvReceiverConfig (D : Type 0) : Type 0 where
  pub packet_encodings : List RvPacketEncoding
  pub latency_tuner_backend : Option RvLatencyTunerBackend
  pub latency_tuner_profile : Option RvLatencyTunerProfile
  pub resampler_backend : Option RvResamplerBackend
  pub resampler_profile : Option RvResamplerProfile
  pub target_latency : Option D
  pub latency_tolerance : Option D
  pub no_playback_timeout : Option D
  pub choppy_playback_timeout : Option D
  pub max_packet_size : Option ℕ

abbrev pub blank_receiver_config : (D : Type 0) → RvReceiverConfig D
blank_receiver_config D = record {
  packet_encodings = [];
  latency_tuner_backend = none;
  latency_tuner_profile = none;
  resampler_backend = none;
  resampler_profile = none;
  target_latency = none;
  latency_tolerance = none;
  no_playback_timeout = none;
  choppy_playback_timeout = none;
  max_packet_size = none;
}

-- `oneof NetworkConfig`
pub data NetworkConfig (D : Type 0) : Type 0 where
  unset : NetworkConfig D
  sender_config : RvSenderConfig D → NetworkConfig D
  receiver_config : RvReceiverConfig D → NetworkConfig D

pub record RvEndpointInfo : Type 0 where
  pub slot : Option ℕ
  pub interface : RvInterface
  pub uri : String

pub record RvDeviceInfo (D : Type 0) : Type 0 where
  pub type : RvDeviceType
  pub index : Option ℕ
  pub uid : Option String
  pub name : Option String
  pub enabled : Option Bool
  pub device_encoding : RvDeviceEncoding D
  pub network_config : NetworkConfig D
  pub local_endpoints : List RvEndpointInfo
  pub remote_endpoints : List RvEndpointInfo

-- `oneof Selector`; when it is not set, `has_index()` fails and `uid()` is the empty text.
pub data RvDeviceSelector : Type 0 where
  by_index : ℕ → RvDeviceSelector
  by_uid : String → RvDeviceSelector
  unset : RvDeviceSelector

pub record RvToggleRequest : Type 0 where
  pub device : RvDeviceSelector
  pub enabled : Bool

pub record RvEndpointRequest : Type 0 where
  pub device : RvDeviceSelector
  pub endpoint : RvEndpointInfo
