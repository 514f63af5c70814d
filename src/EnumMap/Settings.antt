-- ===== src/EnumMap/Settings.antt =====
-- common/enum_map.cpp: the tables of all enumerations but the sample formats.
-- An enumeration of C++ also holds values that have no name: `other` stands for them.
use roc_vad.Prelude.{ℕ, [], ◌∷◌, ℕ_discrete}
use roc_vad.EnumMap.Lookup.{EnumMap}

-- `RvInterface` of rpc/driver_protocol.proto, and `roc_interface` of roc/config.h as far as it is named here.
pub data RvInterface : Type 0 where
  consolidated audio_source audio_repair audio_control : RvInterface
  other : ℕ → RvInterface

pub data RocInterface : Type 0 where
  aggregate audio_source audio_repair audio_control : RocInterface
  other : ℕ → RocInterface

unfoldable pub RvInterface-discrete : Discrete RvInterface
RvInterface-discrete = hlevel ℕ_discrete

unfoldable pub RocInterface-discrete : Discrete RocInterface
RocInterface-discrete = hlevel ℕ_discrete

abbrev pub interface_map : EnumMap RvInterface RocInterface
interface_map =
    (RvInterface.consolidated, RocInterface.aggregate, "consolidated")
    ∷ (RvInterface.audio_source, RocInterface.audio_source, "audiosrc")
    ∷ (RvInterface.audio_repair, RocInterface.audio_repair, "audiorpr")
    ∷ (RvInterface.audio_control, RocInterface.audio_control, "audioctl")
    ∷ []

-- `RvChannelLayout` of rpc/driver_protocol.proto, and `roc_channel_layout` of roc/config.h as far as it is named here.
pub data RvChannelLayout : Type 0 where
  multitrack mono stereo : RvChannelLayout
  other : ℕ → RvChannelLayout

pub data RocChannelLayout : Type 0 where
  multitrack mono stereo : RocChannelLayout
  other : ℕ → RocChannelLayout

unfoldable pub RvChannelLayout-discrete : Discrete RvChannelLayout
RvChannelLayout-discrete = hlevel ℕ_discrete

unfoldable pub RocChannelLayout-discrete : Discrete RocChannelLayout
RocChannelLayout-discrete = hlevel ℕ_discrete

abbrev pub channel_layout_map : EnumMap RvChannelLayout RocChannelLayout
channel_layout_map =
    (RvChannelLayout.multitrack, RocChannelLayout.multitrack, "multitrack")
    ∷ (RvChannelLayout.mono, RocChannelLayout.mono, "mono")
    ∷ (RvChannelLayout.stereo, RocChannelLayout.stereo, "stereo")
    ∷ []

-- `RvFecEncoding` of rpc/driver_protocol.proto, and `roc_fec_encoding` of roc/config.h as far as it is named here.
pub data RvFecEncoding : Type 0 where
  disable default rs8m ldpc_staircase : RvFecEncoding
  other : ℕ → RvFecEncoding

pub data RocFecEncoding : Type 0 where
  disable default rs8m ldpc_staircase : RocFecEncoding
  other : ℕ → RocFecEncoding

unfoldable pub RvFecEncoding-discrete : Discrete RvFecEncoding
RvFecEncoding-discrete = hlevel ℕ_discrete

unfoldable pub RocFecEncoding-discrete : Discrete RocFecEncoding
RocFecEncoding-discrete = hlevel ℕ_discrete

abbrev pub fec_encoding_map : EnumMap RvFecEncoding RocFecEncoding
fec_encoding_map =
    (RvFecEncoding.disable, RocFecEncoding.disable, "disable")
    ∷ (RvFecEncoding.default, RocFecEncoding.default, "default")
    ∷ (RvFecEncoding.rs8m, RocFecEncoding.rs8m, "rs8m")
    ∷ (RvFecEncoding.ldpc_staircase, RocFecEncoding.ldpc_staircase, "ldpc")
    ∷ []

-- `RvLatencyTunerBackend` of rpc/driver_protocol.proto, and `roc_latency_tuner_backend` of roc/config.h as far as it is named here.
pub data RvLatencyTunerBackend : Type 0 where
  default niq : RvLatencyTunerBackend
  other : ℕ → RvLatencyTunerBackend

pub data RocLatencyTunerBackend : Type 0 where
  default niq : RocLatencyTunerBackend
  other : ℕ → RocLatencyTunerBackend

unfoldable pub RvLatencyTunerBackend-discrete : Discrete RvLatencyTunerBackend
RvLatencyTunerBackend-discrete = hlevel ℕ_discrete

unfoldable pub RocLatencyTunerBackend-discrete : Discrete RocLatencyTunerBackend
RocLatencyTunerBackend-discrete = hlevel ℕ_discrete

abbrev pub latency_tuner_backend_map : EnumMap RvLatencyTunerBackend RocLatencyTunerBackend
latency_tuner_backend_map =
    (RvLatencyTunerBackend.default, RocLatencyTunerBackend.default, "default")
    ∷ (RvLatencyTunerBackend.niq, RocLatencyTunerBackend.niq, "niq")
    ∷ []

-- `RvLatencyTunerProfile` of rpc/driver_protocol.proto, and `roc_latency_tuner_profile` of roc/config.h as far as it is named here.
pub data RvLatencyTunerProfile : Type 0 where
  default intact responsive gradual second_order : RvLatencyTunerProfile
  other : ℕ → RvLatencyTunerProfile

pub data RocLatencyTunerProfile : Type 0 where
  default intact responsive gradual second_order : RocLatencyTunerProfile
  other : ℕ → RocLatencyTunerProfile

unfoldable pub RvLatencyTunerProfile-discrete : Discrete RvLatencyTunerProfile
RvLatencyTunerProfile-discrete = hlevel ℕ_discrete

unfoldable pub RocLatencyTunerProfile-discrete : Discrete RocLatencyTunerProfile
RocLatencyTunerProfile-discrete = hlevel ℕ_discrete

abbrev pub latency_tuner_profile_map : EnumMap RvLatencyTunerProfile RocLatencyTunerProfile
latency_tuner_profile_map =
    (RvLatencyTunerProfile.default, RocLatencyTunerProfile.default, "default")
    ∷ (RvLatencyTunerProfile.intact, RocLatencyTunerProfile.intact, "intact")
    ∷ (RvLatencyTunerProfile.responsive, RocLatencyTunerProfile.responsive, "responsive")
    ∷ (RvLatencyTunerProfile.gradual, RocLatencyTunerProfile.gradual, "gradual")
    ∷ (RvLatencyTunerProfile.second_order, RocLatencyTunerProfile.second_order, "second-order")
    ∷ []

-- `RvResamplerBackend` of rpc/driver_protocol.proto, and `roc_resampler_backend` of roc/config.h as far as it is named here.
pub data RvResamplerBackend : Type 0 where
  default builtin speex speexdec : RvResamplerBackend
  other : ℕ → RvResamplerBackend

pub data RocResamplerBackend : Type 0 where
  default builtin speex speexdec : RocResamplerBackend
  other : ℕ → RocResamplerBackend

unfoldable pub RvResamplerBackend-discrete : Discrete RvResamplerBackend
RvResamplerBackend-discrete = hlevel ℕ_discrete

unfoldable pub RocResamplerBackend-discrete : Discrete RocResamplerBackend
RocResamplerBackend-discrete = hlevel ℕ_discrete

abbrev pub resampler_backend_map : EnumMap RvResamplerBackend RocResamplerBackend
resampler_backend_map =
    (RvResamplerBackend.default, RocResamplerBackend.default, "default")
    ∷ (RvResamplerBackend.builtin, RocResamplerBackend.builtin, "builtin")
    ∷ (RvResamplerBackend.speex, RocResamplerBackend.speex, "speex")
    ∷ (RvResamplerBackend.speexdec, RocResamplerBackend.speexdec, "speexdec")
    ∷ []

-- `RvResamplerProfile` of rpc/driver_protocol.proto, and `roc_resampler_profile` of roc/config.h as far as it is named here.
pub data RvResamplerProfile : Type 0 where
  default high medium low : RvResamplerProfile
  other : ℕ → RvResamplerProfile

pub data RocResamplerProfile : Type 0 where
  default high medium low : RocResamplerProfile
  other : ℕ → RocResamplerProfile

unfoldable pub RvResamplerProfile-discrete : Discrete RvResamplerProfile
RvResamplerProfile-discrete = hlevel ℕ_discrete

unfoldable pub RocResamplerProfile-discrete : Discrete RocResamplerProfile
RocResamplerProfile-discrete = hlevel ℕ_discrete

abbrev pub resampler_profile_map : EnumMap RvResamplerProfile RocResamplerProfile
resampler_profile_map =
    (RvResamplerProfile.default, RocResamplerProfile.default, "default")
    ∷ (RvResamplerProfile.high, RocResamplerProfile.high, "high")
    ∷ (RvResamplerProfile.medium, RocResamplerProfile.medium, "medium")
    ∷ (RvResamplerProfile.low, RocResamplerProfile.low, "low")
    ∷ []
