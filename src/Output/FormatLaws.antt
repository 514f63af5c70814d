-- ===== src/Output/FormatLaws.antt =====
-- What tool/format.cpp and tool/format.hpp write can be given back to the tool.
use Prim.Native.String.{String}
use mathlib.Core.Logic.{if_pos, if_neg}
use text.Mathlib.TextEquality.{eq_iff}
use roc_vad.Prelude.{
  ℕ, ◌+◌, ◌^◌, ◌<◌, ◌≤◌, ◌≡◌, ◌⊎◌, inl, inr, refl, Bool, true, [], ◌∷◌, ◌++◌, some, none, arith,
}
use roc_vad.Prelude.Int.{ℤ, pos, pos_part, neg_part, ◌*ℤ◌}
use roc_vad.Result.{throw, invalid_argument}
use roc_vad.EnumMap.Lookup.{EnumMap, enum_from_rpc, parse_enum}
use roc_vad.EnumMap.Laws.{is_one_to_one, lacks_name}
use roc_vad.Parse.{Text}
use roc_vad.Parse.Digits.{decimal}
use roc_vad.Parse.Duration.{sign, signed}
use roc_vad.Output.{num, str, quotient, Format, unit_of, format_enum}

-- The bytes of a suffix are its letters.
abbrev pub KeepsSuffixes : (String → Text) → Type 0
KeepsSuffixes bytes =
    (bytes "ns" ≡ 110 ∷ 115 ∷ [])
    × (bytes "us" ≡ 117 ∷ 115 ∷ [])
    × (bytes "ms" ≡ 109 ∷ 115 ∷ [])
    × (bytes "s" ≡ 115 ∷ [])
    × (bytes "m" ≡ 109 ∷ [])
    × (bytes "h" ≡ 104 ∷ [])

-- The unit of a duration that is at least 1 ns: the greatest that is not above it.
abbrev pub IsChosen : ℕ → ℕ × String → Type 0
IsChosen size unit =
    (size < 1_000 × (unit ≡ (1, "ns")))
    ⊎ ((1_000 ≤ size) × (size < 1_000_000) × (unit ≡ (1_000, "us")))
    ⊎ ((1_000_000 ≤ size) × (size < 1_000_000_000) × (unit ≡ (1_000_000, "ms")))
    ⊎ ((1_000_000_000 ≤ size) × (size < 60_000_000_000) × (unit ≡ (1_000_000_000, "s")))
    ⊎ ((60_000_000_000 ≤ size) × (size < 3_600_000_000_000) × (unit ≡ (60_000_000_000, "m")))
    ⊎ ((3_600_000_000_000 ≤ size) × (unit ≡ (3_600_000_000_000, "h")))

-- The distance of a number from zero.
abbrev pub magnitude : ℤ → ℕ
magnitude n = pos_part n + neg_part n

-- `std::abs` gives it, but for the least number of 64 bits, whose distance `int64_t` cannot hold.
abbrev pub IsAbs : (ℤ → ℤ) → Type 0
IsAbs abs = (n : ℤ) → magnitude n < 2 ^ 63 → abs n ≡ pos (magnitude n)

module _ {D : Type 0} (fmt : Format D) (bytes : String → Text) where
  -- What fmt prints of a whole number of a unit: the decimal digits of the number, with its sign, and
  -- the suffix.
  abbrev pub PrintsWhole : ℤ → Bool → Text → Type 0
  PrintsWhole n negative digits =
      (n ≡ signed negative (decimal digits) *ℤ pos (unit_of fmt n).0)
      × (bytes (fmt.format "{}{}" (quotient n (unit_of fmt n).0 ∷ str (unit_of fmt n).1 ∷ []))
          ≡ sign negative ++ digits ++ bytes (unit_of fmt n).1)

module _ {E1 E2 : Type 0} where
  parse_enum-lacks_name :
      (map : EnumMap E1 E2) (text : String)
      → lacks_name text map ≡ true
      → parse_enum map text ≡ none
  unfolding lacks_name parse_enum
  parse_enum-lacks_name [] text h = refl
  parse_enum-lacks_name ((e1, e2, name) ∷ map) text h =
      ground (arith, parse_enum-lacks_name map text)

module _ {D E1 E2 : Type 0} (fmt : Format D) (same1 : Discrete E1) (same2 : Discrete E2) where
  parse_enum_skips :
      (name text : String) (e1 val : E1) (e2 : E2) (map : EnumMap E1 E2)
      → lacks_name name map ≡ true
      → parse_enum map text ≡ some val
      → parse_enum ((e1, e2, name) ∷ map) text ≡ some val
  unfolding parse_enum
  parse_enum_skips name text e1 val e2 map lacks read =
      ground (arith, eq_iff name text, parse_enum-lacks_name map name, read)

  parse_enum_head :
      (name : String) (e1 val : E1) (e2 : E2) (map : EnumMap E1 E2)
      → e1 ≡ val
      → parse_enum ((e1, e2, name) ∷ map) name ≡ some val
  unfolding parse_enum
  parse_enum_head name e1 val e2 map same = ground (arith, eq_iff name name)

  one_to_one_tail :
      (name : String) (e1 : E1) (e2 : E2) (map : EnumMap E1 E2)
      → is_one_to_one same1 same2 ((e1, e2, name) ∷ map) ≡ true
      → (lacks_name name map ≡ true) × (is_one_to_one same1 same2 map ≡ true)
  unfolding is_one_to_one
  one_to_one_tail name e1 e2 map one = ground arith

  -- A value with an entry in a one-to-one table is printed by a name that `parse_enum` reads as the
  -- same value; any other, which the driver refuses, is printed as `unknown` with its number.
  pub parse_enum-format_enum :
      (number : E1 → ℕ) (map : EnumMap E1 E2) (val : E1)
      → is_one_to_one same1 same2 map ≡ true
      → (parse_enum map (format_enum fmt same1 number map val) ≡ some val)
        ⊎ ((enum_from_rpc same1 map val ≡ throw invalid_argument)
            × (format_enum fmt same1 number map val
                ≡ fmt.format "unknown ({})" (num (number val) ∷ [])))
  unfolding enum_from_rpc format_enum
  parse_enum-format_enum number [] val one = inr (refl, refl)
  parse_enum-format_enum number ((e1, e2, name) ∷ map) val one =
      let (lacks, one') = one_to_one_tail name e1 e2 map one in
      elim (same1 e1 val) [
        | yes h ↦ inl (rw (if_pos _ h) (parse_enum_head name e1 val e2 map h))
        | no h ↦ elim (parse_enum-format_enum number map val one') [
          | inl read ↦ inl (rw (if_neg _ h) (parse_enum_skips name _ e1 val e2 map lacks read))
          | inr (refused, unknown) ↦ inr (rw (if_neg _ h) refused, rw (if_neg _ h) unknown)
        ]
      ]
