-- ===== src/Output.antt =====
-- tool/format.hpp, tool/format.cpp and tool/print.cpp: what the tool prints. A line is a call of
-- `fmt::println`: its format and its arguments. What fmt makes of a format is a parameter where the
-- code goes on with the text.
pub mod Numbers
pub mod Config
pub mod Device
pub mod Endpoints
pub mod FormatLaws
pub mod Entries
pub mod EndpointLaws
mod Tests
use Prim.Native.String.{String, ◌++◌}
use mathlib.Core.Logic.{ite}
use roc_vad.Prelude.{
  ℕ, zero, suc, ◌+◌, ◌/◌, ◌%◌, List, [], ◌∷◌, ltb, leb, ◌==◌, if◌then◌else◌, get_or,
}
use roc_vad.Prelude.Int.{ℤ, pos_part, neg_part}
use roc_vad.EnumMap.Lookup.{EnumMap}
use roc_vad.Message.{RvDeviceType}
use roc_vad.Serdes.Basic.{TimeUtil}

-- An argument of fmt: a number, a text, or `(double)n / m`.
pub data Arg : Type 0 where
  num : ℕ → Arg
  str : String → Arg
  quotient : ℤ → ℕ → Arg

-- A call of `fmt::println`.
pub data Line : Type 0 where
  println : String → List Arg → Line

-- `fmt::format`, the durations of protobuf, one that is not set, and `std::abs` of `int64_t`.
pub record Format (D : Type 0) : Type 0 where
  pub format : String → List Arg → String
  pub time : TimeUtil D
  pub unset_duration : D
  pub abs : ℤ → ℤ

unfoldable pub format_device_type : RvDeviceType → String
format_device_type RvDeviceType.sender = "sender"
format_device_type _ = "receiver"

abbrev digit : ℕ → String
digit n = get_or ("0" ∷ "1" ∷ "2" ∷ "3" ∷ "4" ∷ "5" ∷ "6" ∷ "7" ∷ "8" ∷ "9" ∷ []) n ""

-- `std::to_string` of a number with at most as many digits as the fuel.
digits_onto : ℕ → ℕ → String → String
digits_onto zero n tail = tail
digits_onto (suc fuel) n tail =
    let rest = digits_onto fuel (n / 10) (digit (n % 10) ++ tail) in
    if ltb n 10 then digit n ++ tail else rest

-- Twenty digits hold every number of 64 bits.
unfoldable pub to_string : ℕ → String
unfolding digits_onto
to_string n = digits_onto 20 n ""

unfoldable pub format_size : ℕ → String
format_size size = if size == 0 then "default" else to_string size

-- The multipliers and suffixes of `format_duration`.
abbrev pub duration_units : List (ℕ × String)
duration_units =
    (1, "ns")
    ∷ (1_000, "us")
    ∷ (1_000_000, "ms")
    ∷ (1_000_000_000, "s")
    ∷ (60_000_000_000, "m")
    ∷ (3_600_000_000_000, "h")
    ∷ []

-- The loop: each unit that is not above the duration replaces the last one.
unfoldable pub choose_unit : List (ℕ × String) → ℕ → ℕ × String → ℕ × String
choose_unit [] size unit = unit
choose_unit ((m, s) ∷ rest) size unit = choose_unit rest size (if leb m size then (m, s) else unit)

module _ {D : Type 0} (fmt : Format D) where
  -- The multiplier and the suffix of a duration. A number below zero is below every multiplier.
  unfoldable pub unit_of : ℤ → ℕ × String
  unit_of nanoseconds = choose_unit duration_units (pos_part (fmt.abs nanoseconds)) (1, "ns")

  -- `format_duration` of nanoseconds.
  unfoldable pub format_nanoseconds : ℤ → String
  format_nanoseconds nanoseconds =
      let (multiplier, suffix) = unit_of nanoseconds in
      if pos_part nanoseconds + neg_part nanoseconds == 0
      then "default"
      else fmt.format "{}{}" (quotient nanoseconds multiplier ∷ str suffix ∷ [])

  unfoldable pub format_duration : D → String
  format_duration duration = format_nanoseconds (fmt.time.duration_to_nanoseconds duration)

  -- `number` is the conversion of the enumeration to `int`.
  unfoldable pub format_enum :
      {E1 E2 : Type 0} → Discrete E1 → (E1 → ℕ) → EnumMap E1 E2 → E1 → String
  format_enum same number [] val = fmt.format "unknown ({})" (num (number val) ∷ [])
  format_enum same number ((e1, e2, name) ∷ map) val =
      ite (same e1 val) name (format_enum same number map val)
