-- ===== src/Serdes/EnumLaws.antt =====
-- The enumerations of driver/rpc_serdes.cpp come back from the protocol as they went.
use roc_vad.Prelude.{◌≡◌}
use roc_vad.Result.{ok}
use roc_vad.EnumMap.Laws.{enum_from_rpc-enum_to_rpc}
use roc_vad.EnumMap.Settings
use roc_vad.EnumMap.SampleFormat
use roc_vad.EnumMap.Tables
use roc_vad.Serdes.Basic

pub interface_round :
    (x : Settings.RocInterface) (y : Settings.RvInterface)
    → Basic.interface_to_rpc x ≡ ok y
    → Basic.interface_from_rpc y ≡ ok x
unfolding Basic.interface_to_rpc Basic.interface_from_rpc
interface_round x y =
    enum_from_rpc-enum_to_rpc Settings.RvInterface-discrete Settings.RocInterface-discrete
      Settings.interface_map x y Tables.interface_map-one_to_one

pub sample_format_round :
    (x : SampleFormat.RocSubformat) (y : SampleFormat.RvSampleFormat)
    → Basic.sample_format_to_rpc x ≡ ok y
    → Basic.sample_format_from_rpc y ≡ ok x
unfolding Basic.sample_format_to_rpc Basic.sample_format_from_rpc
sample_format_round x y =
    enum_from_rpc-enum_to_rpc SampleFormat.RvSampleFormat-discrete
      SampleFormat.RocSubformat-discrete SampleFormat.sample_format_map x y
      Tables.sample_format_map-one_to_one

pub channel_layout_round :
    (x : Settings.RocChannelLayout) (y : Settings.RvChannelLayout)
    → Basic.channel_layout_to_rpc x ≡ ok y
    → Basic.channel_layout_from_rpc y ≡ ok x
unfolding Basic.channel_layout_to_rpc Basic.channel_layout_from_rpc
channel_layout_round x y =
    enum_from_rpc-enum_to_rpc Settings.RvChannelLayout-discrete Settings.RocChannelLayout-discrete
      Settings.channel_layout_map x y Tables.channel_layout_map-one_to_one

pub fec_encoding_round :
    (x : Settings.RocFecEncoding) (y : Settings.RvFecEncoding)
    → Basic.fec_encoding_to_rpc x ≡ ok y
    → Basic.fec_encoding_from_rpc y ≡ ok x
unfolding Basic.fec_encoding_to_rpc Basic.fec_encoding_from_rpc
fec_encoding_round x y =
    enum_from_rpc-enum_to_rpc Settings.RvFecEncoding-discrete Settings.RocFecEncoding-discrete
      Settings.fec_encoding_map x y Tables.fec_encoding_map-one_to_one

pub latency_tuner_backend_round :
    (x : Settings.RocLatencyTunerBackend) (y : Settings.RvLatencyTunerBackend)
    → Basic.latency_tuner_backend_to_rpc x ≡ ok y
    → Basic.latency_tuner_backend_from_rpc y ≡ ok x
unfolding Basic.latency_tuner_backend_to_rpc Basic.latency_tuner_backend_from_rpc
latency_tuner_backend_round x y =
    enum_from_rpc-enum_to_rpc Settings.RvLatencyTunerBackend-discrete
      Settings.RocLatencyTunerBackend-discrete Settings.latency_tuner_backend_map x y
      Tables.latency_tuner_backend_map-one_to_one

pub latency_tuner_profile_round :
    (x : Settings.RocLatencyTunerProfile) (y : Settings.RvLatencyTunerProfile)
    → Basic.latency_tuner_profile_to_rpc x ≡ ok y
    → Basic.latency_tuner_profile_from_rpc y ≡ ok x
unfolding Basic.latency_tuner_profile_to_rpc Basic.latency_tuner_profile_from_rpc
latency_tuner_profile_round x y =
    enum_from_rpc-enum_to_rpc Settings.RvLatencyTunerProfile-discrete
      Settings.RocLatencyTunerProfile-discrete Settings.latency_tuner_profile_map x y
      Tables.latency_tuner_profile_map-one_to_one

pub resampler_backend_round :
    (x : Settings.RocResamplerBackend) (y : Settings.RvResamplerBackend)
    → Basic.resampler_backend_to_rpc x ≡ ok y
    → Basic.resampler_backend_from_rpc y ≡ ok x
unfolding Basic.resampler_backend_to_rpc Basic.resampler_backend_from_rpc
resampler_backend_round x y =
    enum_from_rpc-enum_to_rpc Settings.RvResamplerBackend-discrete
      Settings.RocResamplerBackend-discrete Settings.resampler_backend_map x y
      Tables.resampler_backend_map-one_to_one

pub resampler_profile_round :
    (x : Settings.RocResamplerProfile) (y : Settings.RvResamplerProfile)
    → Basic.resampler_profile_to_rpc x ≡ ok y
    → Basic.resampler_profile_from_rpc y ≡ ok x
unfolding Basic.resampler_profile_to_rpc Basic.resampler_profile_from_rpc
resampler_profile_round x y =
    enum_from_rpc-enum_to_rpc Settings.RvResamplerProfile-discrete
      Settings.RocResamplerProfile-discrete Settings.resampler_profile_map x y
      Tables.resampler_profile_map-one_to_one
