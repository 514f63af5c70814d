-- ===== src/EnumMap/Laws.antt =====
-- The tables of common/enum_map.cpp translate both ways without loss.
use Prim.Native.String.{String}
use text.Mathlib.Text.{◌==◌ as str_eq}
use text.Mathlib.TextEquality.{eq_iff}
use mathlib.Core.Logic.{ite}
use roc_vad.Prelude.{
  ℕ, zero, suc, ◌≡◌, Bool, true, false, [], ◌∷◌, some, arith, if◌then◌else◌, get_elem?,
}
use roc_vad.Result.{ok}
use roc_vad.EnumMap.Lookup.{EnumMap, enum_from_rpc, enum_to_rpc, parse_enum}

module _ {E1 E2 : Type 0} where
  -- No entry of the table has the first, second or third component that is given.
  unfoldable pub lacks_first : Discrete E1 → E1 → EnumMap E1 E2 → Bool
  lacks_first same e [] = true
  lacks_first same e ((e1, e2, name) ∷ map) = ite (same e1 e) false (lacks_first same e map)

  unfoldable pub lacks_second : Discrete E2 → E2 → EnumMap E1 E2 → Bool
  lacks_second same e [] = true
  lacks_second same e ((e1, e2, name) ∷ map) = ite (same e2 e) false (lacks_second same e map)

  unfoldable pub lacks_name : String → EnumMap E1 E2 → Bool
  lacks_name text [] = true
  lacks_name text ((e1, e2, name) ∷ map) = if str_eq name text then false else lacks_name text map

  -- Whether each of the three components differs from entry to entry.
  unfoldable pub is_one_to_one : Discrete E1 → Discrete E2 → EnumMap E1 E2 → Bool
  is_one_to_one same1 same2 [] = true
  is_one_to_one same1 same2 ((e1, e2, name) ∷ map) =
      if lacks_first same1 e1 map
      then (if lacks_second same2 e2 map
          then (if lacks_name name map then is_one_to_one same1 same2 map else false)
          else false)
      else false

module _ {E1 E2 : Type 0} (same1 : Discrete E1) (same2 : Discrete E2) where
  lacks_first-ne :
      (map : EnumMap E1 E2) (e y : E1) (x : E2)
      → lacks_first same1 e map ≡ true
      → enum_to_rpc same2 map x ≡ ok y
      → ¬ (e ≡ y)
  unfolding lacks_first enum_to_rpc
  lacks_first-ne [] e y x l h same = cc
  lacks_first-ne ((e1, e2, name) ∷ map) e y x l h same = ground (arith, lacks_first-ne map e y x)

  lacks_second-ne :
      (map : EnumMap E1 E2) (e y : E2) (x : E1)
      → lacks_second same2 e map ≡ true
      → enum_from_rpc same1 map x ≡ ok y
      → ¬ (e ≡ y)
  unfolding lacks_second enum_from_rpc
  lacks_second-ne [] e y x l h same = cc
  lacks_second-ne ((e1, e2, name) ∷ map) e y x l h same = ground (arith, lacks_second-ne map e y x)

  -- What a table writes, it reads back.
  pub enum_from_rpc-enum_to_rpc :
      (map : EnumMap E1 E2) (x : E2) (y : E1)
      → is_one_to_one same1 same2 map ≡ true
      → enum_to_rpc same2 map x ≡ ok y
      → enum_from_rpc same1 map y ≡ ok x
  unfolding is_one_to_one enum_to_rpc enum_from_rpc
  enum_from_rpc-enum_to_rpc [] x y one h = cc
  enum_from_rpc-enum_to_rpc ((e1, e2, name) ∷ map) x y one h =
      ground (arith, enum_from_rpc-enum_to_rpc map x y, lacks_first-ne map e1 y x)

  -- What a table reads, it writes back.
  pub enum_to_rpc-enum_from_rpc :
      (map : EnumMap E1 E2) (x : E1) (y : E2)
      → is_one_to_one same1 same2 map ≡ true
      → enum_from_rpc same1 map x ≡ ok y
      → enum_to_rpc same2 map y ≡ ok x
  unfolding is_one_to_one enum_to_rpc enum_from_rpc
  enum_to_rpc-enum_from_rpc [] x y one h = cc
  enum_to_rpc-enum_from_rpc ((e1, e2, name) ∷ map) x y one h =
      ground (arith, enum_to_rpc-enum_from_rpc map x y, lacks_second-ne map e2 y x)

  lacks_name-ne :
      (map : EnumMap E1 E2) (i : ℕ) (text : String) (e1 : E1) (e2 : E2) (name : String)
      → lacks_name text map ≡ true
      → get_elem? map i ≡ some (e1, e2, name)
      → ¬ (text ≡ name)
  unfolding lacks_name
  lacks_name-ne [] i text e1 e2 name l h same = cc
  lacks_name-ne ((f1, f2, other) ∷ map) zero text e1 e2 name l h same =
      ground (arith, eq_iff other text)
  lacks_name-ne ((f1, f2, other) ∷ map) (suc i) text e1 e2 name l h same =
      ground (arith, lacks_name-ne map i text e1 e2 name)

  -- Each entry's name is read as its first component.
  pub parse_enum-entry :
      (map : EnumMap E1 E2) (i : ℕ) (e1 : E1) (e2 : E2) (name : String)
      → is_one_to_one same1 same2 map ≡ true
      → get_elem? map i ≡ some (e1, e2, name)
      → parse_enum map name ≡ some e1
  unfolding is_one_to_one parse_enum
  parse_enum-entry [] i e1 e2 name one h = cc
  parse_enum-entry ((f1, f2, other) ∷ map) zero e1 e2 name one h = ground (arith, eq_iff other name)
  parse_enum-entry ((f1, f2, other) ∷ map) (suc i) e1 e2 name one h = ground (
    arith,
    eq_iff other name,
    lacks_name-ne map i other e1 e2 name,
    parse_enum-entry map i e1 e2 name,
  )
