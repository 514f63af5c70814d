-- ===== src/Parse/Duration.antt =====
-- Durations in tool/parse.cpp.
use roc_vad.Prelude.{
  ℕ, ◌-◌, ◌^◌, ◌<◌, ◌≡◌, ◌⊎◌, refl, Bool, true, false, [], ◌∷◌, ◌++◌, some, arith, if◌then◌else◌,
  length, length-append, ap, ◌∙◌,
}
use mathlib.Core.List.{append_assoc}
use roc_vad.Prelude.Int.{ℤ, pos, negsuc, sub_ℕ, ◌*ℤ◌}
use roc_vad.Serdes.ConfigLaws.{IsInt64}
use roc_vad.Parse.{
  Text, is_digit, strtol, is_limit, units, find_unit, scale, parse_number, parse_duration,
  valid_duration, undefined_product,
}
use roc_vad.Parse.Digits.{all_digits, decimal, stops, read_digits_append}
use roc_vad.Parse.Text.{IsUnit, by_ns, by_us, by_ms, by_s, by_m, by_h, find_unit_tail, last_digit}
use roc_vad.Parse.Number.{strtol_digit, strtol_minus}

-- The check by division refuses nothing: a product that is out of range overflows before it.
pub scale_exact :
    (number : ℤ) (suffix : Text) (multiplier : ℕ)
    → IsInt64 number
    → IsUnit suffix multiplier
    → (IsInt64 (number *ℤ pos multiplier)
        × (scale number multiplier ≡ valid_duration (number *ℤ pos multiplier)))
      ⊎ (¬ IsInt64 (number *ℤ pos multiplier) × (scale number multiplier ≡ undefined_product))
unfolding scale ◌*ℤ◌
scale_exact (pos n) suffix multiplier v by_ns = ground (arith, v)
scale_exact (pos n) suffix multiplier v by_us = ground (arith, v)
scale_exact (pos n) suffix multiplier v by_ms = ground (arith, v)
scale_exact (pos n) suffix multiplier v by_s = ground (arith, v)
scale_exact (pos n) suffix multiplier v by_m = ground (arith, v)
scale_exact (pos n) suffix multiplier v by_h = ground (arith, v)
scale_exact (negsuc n) suffix multiplier v by_ns = ground (arith, v)
scale_exact (negsuc n) suffix multiplier v by_us = ground (arith, v)
scale_exact (negsuc n) suffix multiplier v by_ms = ground (arith, v)
scale_exact (negsuc n) suffix multiplier v by_s = ground (arith, v)
scale_exact (negsuc n) suffix multiplier v by_m = ground (arith, v)
scale_exact (negsuc n) suffix multiplier v by_h = ground (arith, v)

-- The sign of a number, and the number with it.
abbrev pub sign : Bool → Text
sign true = 45 ∷ []
sign false = []

abbrev pub signed : Bool → ℕ → ℤ
signed negative n = if negative then sub_ℕ 0 n else pos n

unit_stops : {suffix : Text} {multiplier : ℕ} → IsUnit suffix multiplier → stops suffix ≡ true
unit_stops by_ns = refl
unit_stops by_us = refl
unit_stops by_ms = refl
unit_stops by_s = refl
unit_stops by_m = refl
unit_stops by_h = refl

strtol-signed :
    (negative : Bool) (c : ℕ) (cs rest : Text)
    → all_digits (c ∷ cs) ≡ true
    → stops rest ≡ true
    → decimal (c ∷ cs) < 2 ^ 63
    → strtol (sign negative ++ (c ∷ cs) ++ rest) ≡ (signed negative (decimal (c ∷ cs)), rest)
strtol-signed true c cs rest digits stop small =
    ground (arith, strtol_minus c (cs ++ rest), read_digits_append 0 (c ∷ cs) rest)
strtol-signed false c cs rest digits stop small =
    ground (arith, strtol_digit c (cs ++ rest), read_digits_append 0 (c ∷ cs) rest)

find_unit_signed :
    (negative : Bool) (c : ℕ) (cs : Text) {suffix : Text} {multiplier : ℕ}
    → all_digits (c ∷ cs) ≡ true
    → IsUnit suffix multiplier
    → find_unit units (sign negative ++ (c ∷ cs) ++ suffix)
      ≡ some (length (sign negative ++ c ∷ cs), multiplier)
find_unit_signed negative c cs {suffix} {multiplier} digits unit =
    let (init, d, same, digit, long) = last_digit c cs digits in
    go negative init d (ap (λ t. t ++ suffix) same ∙ append_assoc init (d ∷ []) suffix) digit long
  where
    go :
        (negative : Bool) (init : Text) (d : ℕ)
        → (c ∷ cs) ++ suffix ≡ init ++ d ∷ suffix
        → is_digit d ≡ true
        → length init ≡ length cs
        → find_unit units (sign negative ++ (c ∷ cs) ++ suffix)
          ≡ some (length (sign negative ++ c ∷ cs), multiplier)
    go true init d same digit long =
        ground (arith, ap (λ t. 45 ∷ t) same, find_unit_tail (45 ∷ init) d digit unit)
    go false init d same digit long = ground (arith, same, find_unit_tail init d digit unit)

signed_fits : (negative : Bool) (n : ℕ) → n < 2 ^ 63 - 1 → IsInt64 (signed negative n)
signed_fits negative n small = ground arith

signed_limit : (negative : Bool) (n : ℕ) → n < 2 ^ 63 - 1 → is_limit (signed negative n) ≡ false
signed_limit negative n small = ground arith

-- A decimal number with a minus or without, below the greatest `long`, and one of the six suffixes
-- after it: `parse_duration` gives its value in nanoseconds where `int64_t` holds it. Where it does
-- not, the product overflows, which is undefined behaviour, before the check that is to refuse it.
pub parse_duration_exact :
    (negative : Bool) (c : ℕ) (cs : Text) {suffix : Text} {multiplier : ℕ}
    → all_digits (c ∷ cs) ≡ true
    → decimal (c ∷ cs) < 2 ^ 63 - 1
    → IsUnit suffix multiplier
    → let str = sign negative ++ (c ∷ cs) ++ suffix in
      let exact = signed negative (decimal (c ∷ cs)) *ℤ pos multiplier in
      (IsInt64 exact × (parse_duration str ≡ valid_duration exact))
      ⊎ (¬ IsInt64 exact × (parse_duration str ≡ undefined_product))
unfolding parse_duration parse_number
parse_duration_exact negative c cs {suffix} {multiplier} digits small unit = ground (
  arith,
  find_unit_signed negative c cs digits unit,
  strtol-signed negative c cs suffix digits (unit_stops unit) (omega arith),
  length-append (sign negative ++ c ∷ cs) suffix,
  signed_limit negative (decimal (c ∷ cs)) small,
  scale_exact (signed negative (decimal (c ∷ cs))) suffix multiplier
      (signed_fits negative (decimal (c ∷ cs)) small) unit,
)
