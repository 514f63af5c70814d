-- ===== src/Serdes/Samples.antt =====
-- A device, a packet encoding and their messages, for the runs of driver/rpc_serdes.cpp.
use roc_vad.Prelude.{◌≡◌, refl, false, [], ◌∷◌, some, none, arith, inl}
use roc_vad.Prelude.Int.{ℤ, pos}
use roc_vad.Result.{ok}
use roc_vad.EnumMap.Lookup.{enum_to_rpc}
use roc_vad.EnumMap.Settings
use roc_vad.EnumMap.SampleFormat
use roc_vad.Defs.{
  RocFormat, DeviceType, DevicePacketEncoding, DeviceSenderConfig, DeviceEndpointInfo, DeviceInfo,
  default_sender_config, default_local_encoding,
}
use roc_vad.Message.{RvPacketEncoding, RvDeviceInfo, RvDeviceType, NetworkConfig}
use roc_vad.Serdes.Basic
use roc_vad.Serdes.Basic.{TimeUtil, to_u64, to_i64}
use roc_vad.Serdes.Endpoint.{tracks_to_rpc, packet_encoding_to_rpc, endpoint_info_to_rpc}
use roc_vad.Serdes.Config.{optional_encoding_to_rpc, sender_config_to_rpc}
use roc_vad.Serdes.Device.{
  local_encoding_to_rpc, network_to_rpc, type_to_rpc, device_info_to_rpc, device_list_to_rpc,
}
use roc_vad.Serdes.EndpointLaws.{IsSendable}
use roc_vad.Serdes.ConfigLaws.{IsLossless, IsSendableSender}
use roc_vad.Serdes.DeviceLaws.{of_sender, IsStorable}

-- Durations as numbers of nanoseconds.
abbrev pub clock : TimeUtil ℤ
clock = record { duration_to_nanoseconds = λ n. n; nanoseconds_to_duration = λ n. n }

pub clock-IsLossless : IsLossless clock
clock-IsLossless = record { nanoseconds = λ n h. refl }

abbrev pub encoding : DevicePacketEncoding
encoding = record {
  id = 100;
  spec = record {
    format = RocFormat.pcm;
    subformat = SampleFormat.RocSubformat.pcm_sint16;
    rate = 48000;
    channels = Settings.RocChannelLayout.multitrack;
    tracks = 8;
  };
}

abbrev pub encoding_message : RvPacketEncoding
encoding_message = record {
  encoding_id = 100;
  sample_rate = 48000;
  sample_format = SampleFormat.RvSampleFormat.pcm_sint16;
  channel_layout = Settings.RvChannelLayout.multitrack;
  track_count = some 8;
}

pub encoding-IsSendable : IsSendable encoding
encoding-IsSendable = record {
  id_low = omega arith;
  id_high = omega arith;
  rate = omega arith;
  format = refl;
  tracks = (omega arith, omega arith);
}

pub encoding_written : packet_encoding_to_rpc encoding ≡ ok encoding_message
unfolding packet_encoding_to_rpc tracks_to_rpc Basic.sample_format_to_rpc
    Basic.channel_layout_to_rpc enum_to_rpc SampleFormat.RocSubformat-discrete
    Settings.RocChannelLayout-discrete
encoding_written = refl

abbrev pub sender : DeviceSenderConfig
sender = record default_sender_config {
  packet_encoding = some encoding;
  packet_length_ns = 5_000_000;
}

pub sender-IsSendable : IsSendableSender sender
sender-IsSendable = record {
  encoding = λ e h. ground (arith, encoding-IsSendable);
  packet_length = omega arith;
  target = record { high = omega arith; low = omega arith };
  tolerance = record { high = omega arith; low = omega arith };
}

abbrev pub remote : DeviceEndpointInfo
remote = record {
  slot = 0;
  interface = Settings.RocInterface.audio_source;
  uri = "rtp://10.0.0.1:5000";
}

abbrev pub device : DeviceInfo
device = record {
  type = DeviceType.sender;
  index = 3;
  uid = "0a-1b";
  name = "desk";
  enabled = false;
  device_encoding = record default_local_encoding { channel_count = 2; buffer_samples = 2646 };
  sender_config = some sender;
  receiver_config = none;
  local_endpoints = [];
  remote_endpoints = remote ∷ [];
}

pub device-IsStorable : IsStorable device
device-IsStorable = record {
  index = omega arith;
  uid = refl;
  name = refl;
  rate = omega arith;
  buffer_length = record { high = omega arith; low = omega arith };
  tracks = inl refl;
  config = of_sender sender sender-IsSendable;
  local_uris = tt;
  remote_uris = (refl, tt);
}

abbrev pub message : RvDeviceInfo ℤ
message = record {
  type = RvDeviceType.sender;
  index = some 3;
  uid = some "0a-1b";
  name = some "desk";
  enabled = some false;
  device_encoding = record {
    sample_rate = some 44100;
    channel_layout = some Settings.RvChannelLayout.stereo;
    track_count = none;
    buffer_length = some (pos 60_000_000);
  };
  network_config = NetworkConfig.sender_config (record {
    packet_encoding = some encoding_message;
    packet_length = some (pos 5_000_000);
    fec_encoding = some Settings.RvFecEncoding.rs8m;
    fec_block_source_packets = some 0;
    fec_block_repair_packets = some 0;
    latency_tuner_backend = some Settings.RvLatencyTunerBackend.default;
    latency_tuner_profile = some Settings.RvLatencyTunerProfile.default;
    resampler_backend = some Settings.RvResamplerBackend.default;
    resampler_profile = some Settings.RvResamplerProfile.default;
    target_latency = some (pos 0);
    latency_tolerance = some (pos 0);
    max_packet_size = some 0;
  });
  local_endpoints = [];
  remote_endpoints =
      record {
        slot = some 0;
        interface = Settings.RvInterface.audio_source;
        uri = "rtp://10.0.0.1:5000";
      }
      ∷ [];
}

pub written : device_info_to_rpc clock device ≡ ok message
unfolding device_info_to_rpc local_encoding_to_rpc network_to_rpc sender_config_to_rpc
    optional_encoding_to_rpc packet_encoding_to_rpc tracks_to_rpc endpoint_info_to_rpc type_to_rpc
    enum_to_rpc Basic.sample_format_to_rpc Basic.channel_layout_to_rpc Basic.interface_to_rpc
    Basic.fec_encoding_to_rpc Basic.latency_tuner_backend_to_rpc Basic.latency_tuner_profile_to_rpc
    Basic.resampler_backend_to_rpc Basic.resampler_profile_to_rpc SampleFormat.RocSubformat-discrete
    Settings.RocChannelLayout-discrete Settings.RocInterface-discrete
    Settings.RocFecEncoding-discrete Settings.RocLatencyTunerBackend-discrete
    Settings.RocLatencyTunerProfile-discrete Settings.RocResamplerBackend-discrete
    Settings.RocResamplerProfile-discrete
written = refl

pub list_written : device_list_to_rpc clock (device ∷ []) ≡ ok (message ∷ [])
unfolding device_list_to_rpc
list_written = ground (arith, written)
