-- ===== src/Output/Numbers.antt =====
-- The numbers of the enumerations of rpc/driver_protocol.proto, to which `(int)` converts them.
use roc_vad.Prelude.{ℕ}
use roc_vad.EnumMap.Settings.{
  RvChannelLayout, RvFecEncoding, RvLatencyTunerBackend, RvLatencyTunerProfile, RvResamplerBackend,
  RvResamplerProfile,
}
use roc_vad.EnumMap.SampleFormat.{RvSampleFormat}

-- The numbers of `RvChannelLayout`.
abbrev pub layout_number : RvChannelLayout → ℕ
layout_number RvChannelLayout.mono = 0
layout_number RvChannelLayout.stereo = 1
layout_number RvChannelLayout.multitrack = 2
layout_number (RvChannelLayout.other n) = n

-- The numbers of `RvFecEncoding`.
abbrev pub fec_number : RvFecEncoding → ℕ
fec_number RvFecEncoding.disable = 0
fec_number RvFecEncoding.default = 1
fec_number RvFecEncoding.rs8m = 2
fec_number RvFecEncoding.ldpc_staircase = 3
fec_number (RvFecEncoding.other n) = n

-- The numbers of `RvLatencyTunerBackend`.
abbrev pub latency_backend_number : RvLatencyTunerBackend → ℕ
latency_backend_number RvLatencyTunerBackend.default = 0
latency_backend_number RvLatencyTunerBackend.niq = 2
latency_backend_number (RvLatencyTunerBackend.other n) = n

-- The numbers of `RvLatencyTunerProfile`.
abbrev pub latency_profile_number : RvLatencyTunerProfile → ℕ
latency_profile_number RvLatencyTunerProfile.default = 0
latency_profile_number RvLatencyTunerProfile.intact = 1
latency_profile_number RvLatencyTunerProfile.responsive = 2
latency_profile_number RvLatencyTunerProfile.gradual = 3
latency_profile_number RvLatencyTunerProfile.second_order = 4
latency_profile_number (RvLatencyTunerProfile.other n) = n

-- The numbers of `RvResamplerBackend`.
abbrev pub resampler_backend_number : RvResamplerBackend → ℕ
resampler_backend_number RvResamplerBackend.default = 0
resampler_backend_number RvResamplerBackend.builtin = 1
resampler_backend_number RvResamplerBackend.speex = 2
resampler_backend_number RvResamplerBackend.speexdec = 3
resampler_backend_number (RvResamplerBackend.other n) = n

-- The numbers of `RvResamplerProfile`.
abbrev pub resampler_profile_number : RvResamplerProfile → ℕ
resampler_profile_number RvResamplerProfile.default = 0
resampler_profile_number RvResamplerProfile.high = 1
resampler_profile_number RvResamplerProfile.medium = 2
resampler_profile_number RvResamplerProfile.low = 3
resampler_profile_number (RvResamplerProfile.other n) = n

-- The numbers of `RvSampleFormat`.
abbrev pub sample_format_number : RvSampleFormat → ℕ
sample_format_number RvSampleFormat.pcm_sint16 = 0
sample_format_number RvSampleFormat.pcm_sint8 = 40
sample_format_number RvSampleFormat.pcm_uint8 = 41
sample_format_number RvSampleFormat.pcm_sint16_le = 51
sample_format_number RvSampleFormat.pcm_sint16_be = 52
sample_format_number RvSampleFormat.pcm_uint16 = 53
sample_format_number RvSampleFormat.pcm_uint16_le = 54
sample_format_number RvSampleFormat.pcm_uint16_be = 55
sample_format_number RvSampleFormat.pcm_sint24 = 60
sample_format_number RvSampleFormat.pcm_sint24_le = 61
sample_format_number RvSampleFormat.pcm_sint24_be = 62
sample_format_number RvSampleFormat.pcm_uint24 = 63
sample_format_number RvSampleFormat.pcm_uint24_le = 64
sample_format_number RvSampleFormat.pcm_uint24_be = 65
sample_format_number RvSampleFormat.pcm_sint32 = 70
sample_format_number RvSampleFormat.pcm_sint32_le = 71
sample_format_number RvSampleFormat.pcm_sint32_be = 72
sample_format_number RvSampleFormat.pcm_uint32 = 73
sample_format_number RvSampleFormat.pcm_uint32_le = 74
sample_format_number RvSampleFormat.pcm_uint32_be = 75
sample_format_number RvSampleFormat.pcm_sint64 = 80
sample_format_number RvSampleFormat.pcm_sint64_le = 81
sample_format_number RvSampleFormat.pcm_sint64_be = 82
sample_format_number RvSampleFormat.pcm_uint64 = 83
sample_format_number RvSampleFormat.pcm_uint64_le = 84
sample_format_number RvSampleFormat.pcm_uint64_be = 85
sample_format_number RvSampleFormat.pcm_float32 = 90
sample_format_number RvSampleFormat.pcm_float32_le = 91
sample_format_number RvSampleFormat.pcm_float32_be = 92
sample_format_number RvSampleFormat.pcm_float64 = 93
sample_format_number RvSampleFormat.pcm_float64_le = 94
sample_format_number RvSampleFormat.pcm_float64_be = 95
sample_format_number (RvSampleFormat.other n) = n
