-- ===== src/EnumMap/Tables.antt =====
-- The eight tables of common/enum_map.cpp are one to one.
use roc_vad.Prelude.{◌≡◌, refl, true}
use roc_vad.EnumMap.Laws.{is_one_to_one, lacks_first, lacks_second, lacks_name}
use roc_vad.EnumMap.Settings.{
  interface_map, RvInterface-discrete, RocInterface-discrete, channel_layout_map,
  RvChannelLayout-discrete, RocChannelLayout-discrete, fec_encoding_map, RvFecEncoding-discrete,
  RocFecEncoding-discrete, latency_tuner_backend_map, RvLatencyTunerBackend-discrete,
  RocLatencyTunerBackend-discrete, latency_tuner_profile_map, RvLatencyTunerProfile-discrete,
  RocLatencyTunerProfile-discrete, resampler_backend_map, RvResamplerBackend-discrete,
  RocResamplerBackend-discrete, resampler_profile_map, RvResamplerProfile-discrete,
  RocResamplerProfile-discrete,
}
use roc_vad.EnumMap.SampleFormat.{sample_format_map, RvSampleFormat-discrete, RocSubformat-discrete}

pub interface_map-one_to_one :
    is_one_to_one RvInterface-discrete RocInterface-discrete interface_map ≡ true
unfolding is_one_to_one lacks_first lacks_second lacks_name RvInterface-discrete
    RocInterface-discrete
interface_map-one_to_one = refl

pub sample_format_map-one_to_one :
    is_one_to_one RvSampleFormat-discrete RocSubformat-discrete sample_format_map ≡ true
unfolding is_one_to_one lacks_first lacks_second lacks_name RvSampleFormat-discrete
    RocSubformat-discrete
sample_format_map-one_to_one = refl

pub channel_layout_map-one_to_one :
    is_one_to_one RvChannelLayout-discrete RocChannelLayout-discrete channel_layout_map ≡ true
unfolding is_one_to_one lacks_first lacks_second lacks_name RvChannelLayout-discrete
    RocChannelLayout-discrete
channel_layout_map-one_to_one = refl

pub fec_encoding_map-one_to_one :
    is_one_to_one RvFecEncoding-discrete RocFecEncoding-discrete fec_encoding_map ≡ true
unfolding is_one_to_one lacks_first lacks_second lacks_name RvFecEncoding-discrete
    RocFecEncoding-discrete
fec_encoding_map-one_to_one = refl

pub latency_tuner_backend_map-one_to_one :
    is_one_to_one RvLatencyTunerBackend-discrete RocLatencyTunerBackend-discrete
      latency_tuner_backend_map
    ≡ true
unfolding is_one_to_one lacks_first lacks_second lacks_name RvLatencyTunerBackend-discrete
    RocLatencyTunerBackend-discrete
latency_tuner_backend_map-one_to_one = refl

pub latency_tuner_profile_map-one_to_one :
    is_one_to_one RvLatencyTunerProfile-discrete RocLatencyTunerProfile-discrete
      latency_tuner_profile_map
    ≡ true
unfolding is_one_to_one lacks_first lacks_second lacks_name RvLatencyTunerProfile-discrete
    RocLatencyTunerProfile-discrete
latency_tuner_profile_map-one_to_one = refl

pub resampler_backend_map-one_to_one :
    is_one_to_one RvResamplerBackend-discrete RocResamplerBackend-discrete resampler_backend_map
    ≡ true
unfolding is_one_to_one lacks_first lacks_second lacks_name RvResamplerBackend-discrete
    RocResamplerBackend-discrete
resampler_backend_map-one_to_one = refl

pub resampler_profile_map-one_to_one :
    is_one_to_one RvResamplerProfile-discrete RocResamplerProfile-discrete resampler_profile_map
    ≡ true
unfolding is_one_to_one lacks_first lacks_second lacks_name RvResamplerProfile-discrete
    RocResamplerProfile-discrete
resampler_profile_map-one_to_one = refl
