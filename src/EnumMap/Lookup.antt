-- ===== src/EnumMap/Lookup.antt =====
-- `enum_map` of common/enum_map.hpp, the two searches of driver/rpc_serdes.cpp, and `parse_enum` of
-- tool/parse.hpp.
use Prim.Native.String.{String}
use text.Mathlib.Text.{◌==◌ as str_eq}
use mathlib.Core.Logic.{ite}
use roc_vad.Prelude.{List, [], ◌∷◌, Option, none, some, if◌then◌else◌}
use roc_vad.Result.{Result, ok, throw, invalid_argument, runtime_error}

abbrev pub EnumMap : Type 0 → Type 0 → Type 0
EnumMap E1 E2 = List (E1 × E2 × String)

module _ {E1 E2 : Type 0} where
  unfoldable pub enum_from_rpc : Discrete E1 → EnumMap E1 E2 → E1 → Result E2
  enum_from_rpc same [] in_value = throw invalid_argument
  enum_from_rpc same ((e1, e2, name) ∷ map) in_value =
      ite (same e1 in_value) (ok e2) (enum_from_rpc same map in_value)

  unfoldable pub enum_to_rpc : Discrete E2 → EnumMap E1 E2 → E2 → Result E1
  enum_to_rpc same [] in_value = throw runtime_error
  enum_to_rpc same ((e1, e2, name) ∷ map) in_value =
      ite (same e2 in_value) (ok e1) (enum_to_rpc same map in_value)

  unfoldable pub parse_enum : EnumMap E1 E2 → String → Option E1
  parse_enum [] in_text = none
  parse_enum ((e1, e2, name) ∷ map) in_text =
      if str_eq name in_text then some e1 else parse_enum map in_text
