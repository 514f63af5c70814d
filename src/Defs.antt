-- ===== src/Defs.antt =====
-- driver/device_defs.hpp and common/constants.hpp: what the driver knows of a device. A text is a
-- `String`; signed numbers of 64 bits are integers.
use Prim.Native.String.{String}
use roc_vad.Prelude.{ℕ, Bool, true, false, List, [], Option, none}
use roc_vad.Prelude.Int.{ℤ, pos}
use roc_vad.EnumMap.Settings.{
  RocInterface, RocChannelLayout, RocFecEncoding, RocLatencyTunerBackend, RocLatencyTunerProfile,
  RocResamplerBackend, RocResamplerProfile,
}
use roc_vad.EnumMap.SampleFormat.{RocSubformat}

abbrev pub min_track_count : ℕ
min_track_count = 1

abbrev pub max_track_count : ℕ
max_track_count = 1024

pub data DeviceType : Type 0 where
  sender receiver : DeviceType

pub record DeviceLocalEncoding : Type 0 where
  pub sample_rate : ℕ
  pub channel_layout : RocChannelLayout
  pub buffer_length_ns : ℤ
  pub channel_count : ℕ
  pub buffer_samples : ℕ

abbrev pub default_local_encoding : DeviceLocalEncoding
default_local_encoding = record {
  sample_rate = 44100;
  channel_layout = RocChannelLayout.stereo;
  buffer_length_ns = pos 60_000_000;
  channel_count = 0;
  buffer_samples = 0;
}

-- `roc_format`: PCM, or a value without a name here.
pub data RocFormat : Type 0 where
  pcm : RocFormat
  other : ℕ → RocFormat

-- `roc_media_encoding`
pub record MediaEncoding : Type 0 where
  pub format : RocFormat
  pub subformat : RocSubformat
  pub rate : ℕ
  pub channels : RocChannelLayout
  pub tracks : ℕ

pub record DevicePacketEncoding : Type 0 where
  pub id : ℕ
  pub spec : MediaEncoding

pub record DeviceSenderConfig : Type 0 where
  pub packet_encoding : Option DevicePacketEncoding
  pub packet_length_ns : ℕ
  pub fec_encoding : RocFecEncoding
  pub fec_block_source_packets : ℕ
  pub fec_block_repair_packets : ℕ
  pub latency_tuner_backend : RocLatencyTunerBackend
  pub latency_tuner_profile : RocLatencyTunerProfile
  pub resampler_backend : RocResamplerBackend
  pub resampler_profile : RocResamplerProfile
  pub target_latency_ns : ℤ
  pub latency_tolerance_ns : ℤ
  pub max_packet_size : ℕ

abbrev pub default_sender_config : DeviceSenderConfig
default_sender_config = record {
  packet_encoding = none;
  packet_length_ns = 0;
  fec_encoding = RocFecEncoding.rs8m;
  fec_block_source_packets = 0;
  fec_block_repair_packets = 0;
  latency_tuner_backend = RocLatencyTunerBackend.default;
  latency_tuner_profile = RocLatencyTunerProfile.default;
  resampler_backend = RocResamplerBackend.default;
  resampler_profile = RocResamplerProfile.default;
  target_latency_ns = pos 0;
  latency_tolerance_ns = pos 0;
  max_packet_size = 0;
}

pub record DeviceReceiverConfig : Type 0 where
  pub packet_encodings : List DevicePacketEncoding
  pub latency_tuner_backend : RocLatencyTunerBackend
  pub latency_tuner_profile : RocLatencyTunerProfile
  pub resampler_backend : RocResamplerBackend
  pub resampler_profile : RocResamplerProfile
  pub target_latency_ns : ℤ
  pub latency_tolerance_ns : ℤ
  pub no_playback_timeout_ns : ℤ
  pub choppy_playback_timeout_ns : ℤ
  pub max_packet_size : ℕ

abbrev pub default_receiver_config : DeviceReceiverConfig
default_receiver_config = record {
  packet_encodings = [];
  latency_tuner_backend = RocLatencyTunerBackend.default;
  latency_tuner_profile = RocLatencyTunerProfile.default;
  resampler_backend = RocResamplerBackend.default;
  resampler_profile = RocResamplerProfile.default;
  target_latency_ns = pos 0;
  latency_tolerance_ns = pos 0;
  no_playback_timeout_ns = pos 0;
  choppy_playback_timeout_ns = pos 0;
  max_packet_size = 0;
}

pub record DeviceEndpointInfo : Type 0 where
  pub slot : ℕ
  pub interface : RocInterface
  pub uri : String

pub record DeviceInfo : Type 0 where
  pub type : DeviceType
  pub index : ℕ
  pub uid : String
  pub name : String
  pub enabled : Bool
  pub device_encoding : DeviceLocalEncoding
  pub sender_config : Option DeviceSenderConfig
  pub receiver_config : Option DeviceReceiverConfig
  pub local_endpoints : List DeviceEndpointInfo
  pub remote_endpoints : List DeviceEndpointInfo

-- `std::string::empty`
abbrev pub is_empty : String → Bool
is_empty String.[] = true
is_empty (String.◌∷◌ c s) = false
