-- ===== src/Serdes/Basic.antt =====
-- The helpers at the head of driver/rpc_serdes.cpp: enumerations, durations, optional fields.
use roc_vad.Prelude.{ℕ, ◌-◌, ◌^◌, Option, none, some, ltb, if◌then◌else◌}
use roc_vad.Prelude.Int.{ℤ, pos, negsuc}
use roc_vad.Result.{Result, ok}
use roc_vad.EnumMap.Lookup.{enum_from_rpc, enum_to_rpc}
use roc_vad.EnumMap.Settings
use roc_vad.EnumMap.SampleFormat

-- `google::protobuf::util::TimeUtil`, over its type of durations.
pub record TimeUtil (D : Type 0) : Type 0 where
  pub duration_to_nanoseconds : D → ℤ
  pub nanoseconds_to_duration : ℤ → D

-- `if (in.has_x()) out.x = in.x();`
abbrev pub or_kept {ℓ} : {A : Type ℓ} → Option A → A → A
or_kept none kept = kept
or_kept (some a) kept = a

-- The same for a field that is converted.
abbrev pub convert_or_kept {ℓ κ} :
    {A : Type ℓ} {B : Type κ} → (A → Result B) → Option A → B → Result B
convert_or_kept f none kept = ok kept
convert_or_kept f (some a) kept = f a

-- A conversion of `int64_t` to `uint64_t`, and back.
abbrev pub to_u64 : ℤ → ℕ
to_u64 (pos n) = n
to_u64 (negsuc n) = 2 ^ 64 - 1 - n

abbrev pub to_i64 : ℕ → ℤ
to_i64 n = if ltb n (2 ^ 63) then pos n else negsuc (2 ^ 64 - 1 - n)

unfoldable pub interface_from_rpc : Settings.RvInterface → Result Settings.RocInterface
interface_from_rpc = enum_from_rpc Settings.RvInterface-discrete Settings.interface_map

unfoldable pub interface_to_rpc : Settings.RocInterface → Result Settings.RvInterface
interface_to_rpc = enum_to_rpc Settings.RocInterface-discrete Settings.interface_map

unfoldable pub sample_format_from_rpc :
    SampleFormat.RvSampleFormat → Result SampleFormat.RocSubformat
sample_format_from_rpc =
    enum_from_rpc SampleFormat.RvSampleFormat-discrete SampleFormat.sample_format_map

unfoldable pub sample_format_to_rpc : SampleFormat.RocSubformat → Result SampleFormat.RvSampleFormat
sample_format_to_rpc = enum_to_rpc SampleFormat.RocSubformat-discrete SampleFormat.sample_format_map

unfoldable pub channel_layout_from_rpc : Settings.RvChannelLayout → Result Settings.RocChannelLayout
channel_layout_from_rpc =
    enum_from_rpc Settings.RvChannelLayout-discrete Settings.channel_layout_map

unfoldable pub channel_layout_to_rpc : Settings.RocChannelLayout → Result Settings.RvChannelLayout
channel_layout_to_rpc = enum_to_rpc Settings.RocChannelLayout-discrete Settings.channel_layout_map

unfoldable pub fec_encoding_from_rpc : Settings.RvFecEncoding → Result Settings.RocFecEncoding
fec_encoding_from_rpc = enum_from_rpc Settings.RvFecEncoding-discrete Settings.fec_encoding_map

unfoldable pub fec_encoding_to_rpc : Settings.RocFecEncoding → Result Settings.RvFecEncoding
fec_encoding_to_rpc = enum_to_rpc Settings.RocFecEncoding-discrete Settings.fec_encoding_map

unfoldable pub latency_tuner_backend_from_rpc :
    Settings.RvLatencyTunerBackend → Result Settings.RocLatencyTunerBackend
latency_tuner_backend_from_rpc =
    enum_from_rpc Settings.RvLatencyTunerBackend-discrete Settings.latency_tuner_backend_map

unfoldable pub latency_tuner_backend_to_rpc :
    Settings.RocLatencyTunerBackend → Result Settings.RvLatencyTunerBackend
latency_tuner_backend_to_rpc =
    enum_to_rpc Settings.RocLatencyTunerBackend-discrete Settings.latency_tuner_backend_map

unfoldable pub latency_tuner_profile_from_rpc :
    Settings.RvLatencyTunerProfile → Result Settings.RocLatencyTunerProfile
latency_tuner_profile_from_rpc =
    enum_from_rpc Settings.RvLatencyTunerProfile-discrete Settings.latency_tuner_profile_map

unfoldable pub latency_tuner_profile_to_rpc :
    Settings.RocLatencyTunerProfile → Result Settings.RvLatencyTunerProfile
latency_tuner_profile_to_rpc =
    enum_to_rpc Settings.RocLatencyTunerProfile-discrete Settings.latency_tuner_profile_map

unfoldable pub resampler_backend_from_rpc :
    Settings.RvResamplerBackend → Result Settings.RocResamplerBackend
resampler_backend_from_rpc =
    enum_from_rpc Settings.RvResamplerBackend-discrete Settings.resampler_backend_map

unfoldable pub resampler_backend_to_rpc :
    Settings.RocResamplerBackend → Result Settings.RvResamplerBackend
resampler_backend_to_rpc =
    enum_to_rpc Settings.RocResamplerBackend-discrete Settings.resampler_backend_map

unfoldable pub resampler_profile_from_rpc :
    Settings.RvResamplerProfile → Result Settings.RocResamplerProfile
resampler_profile_from_rpc =
    enum_from_rpc Settings.RvResamplerProfile-discrete Settings.resampler_profile_map

unfoldable pub resampler_profile_to_rpc :
    Settings.RocResamplerProfile → Result Settings.RvResamplerProfile
resampler_profile_to_rpc =
    enum_to_rpc Settings.RocResamplerProfile-discrete Settings.resampler_profile_map
