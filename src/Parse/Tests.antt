-- ===== src/Parse/Tests.antt =====
-- Texts read by tool/parse.cpp.
use roc_vad.Prelude.{◌↔◌, ◌≡◌, ◌<◌, ◌^◌, ◌++◌, ◌⊎◌, refl, true, [], ◌∷◌, some, arith}
use roc_vad.Prelude.Int.{pos, negsuc, ◌*ℤ◌}
use roc_vad.Serdes.ConfigLaws.{IsInt64}
use roc_vad.Parse.{
  parse_index, parse_duration, valid_duration, undefined_product, strtol, read_digits, skip_spaces,
  read_number, read_signed, index_of_number, find_unit, find_suffix, parse_number, scale,
}
use roc_vad.Parse.Digits.{all_digits, decimal}
use roc_vad.Parse.Number.{parse_index_exact}
use roc_vad.Parse.Text.{by_s}
use roc_vad.Parse.Duration.{sign, signed, parse_duration_exact}

-- "42"
index_run : parse_index (52 ∷ 50 ∷ []) ≡ some 42
unfolding parse_index strtol read_digits skip_spaces read_number read_signed index_of_number
index_run = refl

-- "-1ms"
duration_run : parse_duration (45 ∷ 49 ∷ 109 ∷ 115 ∷ []) ≡ valid_duration (negsuc 999_999)
unfolding parse_duration strtol read_digits skip_spaces read_number read_signed find_unit
    find_suffix parse_number scale ◌*ℤ◌
duration_run = refl

-- 9999999 hours.
overflow_run : parse_duration (57 ∷ 57 ∷ 57 ∷ 57 ∷ 57 ∷ 57 ∷ 57 ∷ 104 ∷ []) ≡ undefined_product
unfolding parse_duration strtol read_digits skip_spaces read_number read_signed find_unit
    find_suffix parse_number scale ◌*ℤ◌
overflow_run = refl

parse_index_exact_example : (parse_index (52 ∷ 50 ∷ []) ≡ some 42) ↔ (
    (all_digits (52 ∷ 50 ∷ []) ≡ true) × (decimal (52 ∷ 50 ∷ []) ≡ 42) × (0 < 42) × (42 < 2 ^ 32))
parse_index_exact_example = parse_index_exact (52 ∷ 50 ∷ []) 42

parse_duration_exact_example :
    let str = sign true ++ (52 ∷ 50 ∷ []) ++ (115 ∷ []) in
    let exact = signed true (decimal (52 ∷ 50 ∷ [])) *ℤ pos 1_000_000_000 in
    (IsInt64 exact × (parse_duration str ≡ valid_duration exact))
    ⊎ (¬ IsInt64 exact × (parse_duration str ≡ undefined_product))
parse_duration_exact_example = parse_duration_exact true 52 (50 ∷ []) refl (omega arith) by_s
