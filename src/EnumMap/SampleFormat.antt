-- ===== src/EnumMap/SampleFormat.antt =====
-- common/enum_map.cpp: the table of sample formats.
-- An enumeration of C++ also holds values that have no name: `other` stands for them.
use roc_vad.Prelude.{ℕ, [], ◌∷◌, ℕ_discrete}
use roc_vad.EnumMap.Lookup.{EnumMap}

-- `RvSampleFormat` of rpc/driver_protocol.proto, and `roc_subformat` of roc/config.h as far as it is named here.
pub data RvSampleFormat : Type 0 where
  pcm_sint8 pcm_uint8 pcm_sint16 pcm_sint16_le pcm_sint16_be pcm_uint16 pcm_uint16_le pcm_uint16_be
        pcm_sint24 pcm_sint24_le pcm_sint24_be pcm_uint24 pcm_uint24_le pcm_uint24_be pcm_sint32
        pcm_sint32_le pcm_sint32_be pcm_uint32 pcm_uint32_le pcm_uint32_be pcm_sint64 pcm_sint64_le
        pcm_sint64_be pcm_uint64 pcm_uint64_le pcm_uint64_be pcm_float32 pcm_float32_le
        pcm_float32_be pcm_float64 pcm_float64_le pcm_float64_be :
      RvSampleFormat
  other : ℕ → RvSampleFormat

pub data RocSubformat : Type 0 where
  pcm_sint8 pcm_uint8 pcm_sint16 pcm_sint16_le pcm_sint16_be pcm_uint16 pcm_uint16_le pcm_uint16_be
        pcm_sint24 pcm_sint24_le pcm_sint24_be pcm_uint24 pcm_uint24_le pcm_uint24_be pcm_sint32
        pcm_sint32_le pcm_sint32_be pcm_uint32 pcm_uint32_le pcm_uint32_be pcm_sint64 pcm_sint64_le
        pcm_sint64_be pcm_uint64 pcm_uint64_le pcm_uint64_be pcm_float32 pcm_float32_le
        pcm_float32_be pcm_float64 pcm_float64_le pcm_float64_be :
      RocSubformat
  other : ℕ → RocSubformat

unfoldable pub RvSampleFormat-discrete : Discrete RvSampleFormat
RvSampleFormat-discrete = hlevel ℕ_discrete

unfoldable pub RocSubformat-discrete : Discrete RocSubformat
RocSubformat-discrete = hlevel ℕ_discrete

abbrev pub sample_format_map : EnumMap RvSampleFormat RocSubformat
sample_format_map =
    (RvSampleFormat.pcm_sint8, RocSubformat.pcm_sint8, "s8")
    ∷ (RvSampleFormat.pcm_uint8, RocSubformat.pcm_uint8, "u8")
    ∷ (RvSampleFormat.pcm_sint16, RocSubformat.pcm_sint16, "s16")
    ∷ (RvSampleFormat.pcm_sint16_le, RocSubformat.pcm_sint16_le, "s16_le")
    ∷ (RvSampleFormat.pcm_sint16_be, RocSubformat.pcm_sint16_be, "s16_be")
    ∷ (RvSampleFormat.pcm_uint16, RocSubformat.pcm_uint16, "u16")
    ∷ (RvSampleFormat.pcm_uint16_le, RocSubformat.pcm_uint16_le, "u16_le")
    ∷ (RvSampleFormat.pcm_uint16_be, RocSubformat.pcm_uint16_be, "u16_be")
    ∷ (RvSampleFormat.pcm_sint24, RocSubformat.pcm_sint24, "s24")
    ∷ (RvSampleFormat.pcm_sint24_le, RocSubformat.pcm_sint24_le, "s24_le")
    ∷ (RvSampleFormat.pcm_sint24_be, RocSubformat.pcm_sint24_be, "s24_be")
    ∷ (RvSampleFormat.pcm_uint24, RocSubformat.pcm_uint24, "u24")
    ∷ (RvSampleFormat.pcm_uint24_le, RocSubformat.pcm_uint24_le, "u24_le")
    ∷ (RvSampleFormat.pcm_uint24_be, RocSubformat.pcm_uint24_be, "u24_be")
    ∷ (RvSampleFormat.pcm_sint32, RocSubformat.pcm_sint32, "s32")
    ∷ (RvSampleFormat.pcm_sint32_le, RocSubformat.pcm_sint32_le, "s32_le")
    ∷ (RvSampleFormat.pcm_sint32_be, RocSubformat.pcm_sint32_be, "s32_be")
    ∷ (RvSampleFormat.pcm_uint32, RocSubformat.pcm_uint32, "u32")
    ∷ (RvSampleFormat.pcm_uint32_le, RocSubformat.pcm_uint32_le, "u32_le")
    ∷ (RvSampleFormat.pcm_uint32_be, RocSubformat.pcm_uint32_be, "u32_be")
    ∷ (RvSampleFormat.pcm_sint64, RocSubformat.pcm_sint64, "s64")
    ∷ (RvSampleFormat.pcm_sint64_le, RocSubformat.pcm_sint64_le, "s64_le")
    ∷ (RvSampleFormat.pcm_sint64_be, RocSubformat.pcm_sint64_be, "s64_be")
    ∷ (RvSampleFormat.pcm_uint64, RocSubformat.pcm_uint64, "u64")
    ∷ (RvSampleFormat.pcm_uint64_le, RocSubformat.pcm_uint64_le, "u64_le")
    ∷ (RvSampleFormat.pcm_uint64_be, RocSubformat.pcm_uint64_be, "u64_be")
    ∷ (RvSampleFormat.pcm_float32, RocSubformat.pcm_float32, "f32")
    ∷ (RvSampleFormat.pcm_float32_le, RocSubformat.pcm_float32_le, "f32_le")
    ∷ (RvSampleFormat.pcm_float32_be, RocSubformat.pcm_float32_be, "f32_be")
    ∷ (RvSampleFormat.pcm_float64, RocSubformat.pcm_float64, "f64")
    ∷ (RvSampleFormat.pcm_float64_le, RocSubformat.pcm_float64_le, "f64_le")
    ∷ (RvSampleFormat.pcm_float64_be, RocSubformat.pcm_float64_be, "f64_be")
    ∷ []
