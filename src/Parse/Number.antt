-- ===== src/Parse/Number.antt =====
-- Device indices in tool/parse.cpp.
use roc_vad.Prelude.{
  ◌↔◌, ap, ◌∙◌, ℕ, ◌^◌, ◌<◌, ◌≡◌, true, false, [], ◌∷◌, none, some, arith, Bool-cases, inl, inr,
}
use roc_vad.Prelude.Int.{ℤ, pos, negsuc}
use roc_vad.Parse.{
  Text, is_digit, read_digits, skip_spaces, clamp, read_number, read_signed, strtol,
  index_of_number, parse_index,
}
use roc_vad.Parse.Digits.{all_digits, decimal, read_digits_all, read_digits_whole}

-- A text that starts with a digit is read from there.
pub strtol_digit :
    (c : ℕ) (cs : Text)
    → is_digit c ≡ true
    → strtol (c ∷ cs) ≡ (clamp false (read_digits 0 (c ∷ cs)).0, (read_digits 0 (c ∷ cs)).1)
unfolding strtol skip_spaces read_signed read_number
strtol_digit c cs h = ground arith

pub strtol_minus :
    (c : ℕ) (cs : Text)
    → is_digit c ≡ true
    → strtol (45 ∷ c ∷ cs) ≡ (clamp true (read_digits 0 (c ∷ cs)).0, (read_digits 0 (c ∷ cs)).1)
unfolding strtol skip_spaces read_signed read_number
strtol_minus c cs h = ground arith

-- After a minus, the number is not positive.
strtol_minus_low : (c : ℕ) (cs : Text) → c ≡ 45 → index_of_number (strtol (c ∷ cs)).0 ≡ none
unfolding strtol skip_spaces read_signed read_number index_of_number
strtol_minus_low c [] e = ground arith
strtol_minus_low c (d ∷ ds) e = ground arith

index_of_number_exact :
    (z : ℤ) (v : ℕ) → index_of_number z ≡ some v → (z ≡ pos v) × (0 < v) × (v < 2 ^ 32)
unfolding index_of_number
index_of_number_exact (pos n) v h = ground arith
index_of_number_exact (negsuc n) v h = ground arith

-- An accepted index is a text of digits only, whose decimal value it is, from 1 to 2 ^ 32 - 1.
pub parse_index_sound :
    (str : Text) (v : ℕ)
    → parse_index str ≡ some v
    → (all_digits str ≡ true) × (decimal str ≡ v) × (0 < v) × (v < 2 ^ 32)
unfolding parse_index
parse_index_sound [] v h = ground arith
parse_index_sound (c ∷ cs) v h = elim (Bool-cases (is_digit c)) [
  | inl digit ↦ ground (
    arith,
    strtol_digit c cs digit,
    read_digits_whole 0 (c ∷ cs),
    index_of_number_exact (strtol (c ∷ cs)).0 v,
  )
  | inr other ↦ ground (arith, strtol_minus_low c cs, index_of_number_exact (strtol (c ∷ cs)).0 v)
]

-- Every text of digits with such a value is accepted with it.
pub parse_index_complete :
    (c : ℕ) (cs : Text)
    → all_digits (c ∷ cs) ≡ true
    → 0 < decimal (c ∷ cs)
    → decimal (c ∷ cs) < 2 ^ 32
    → parse_index (c ∷ cs) ≡ some (decimal (c ∷ cs))
unfolding parse_index index_of_number
parse_index_complete c cs digits low high =
    ground (arith, strtol_digit c cs, read_digits_all 0 (c ∷ cs) digits)

-- `parse_index` accepts a text with the value `v` exactly when the text is digits only, its decimal
-- value is `v`, and `v` is from 1 to 2 ^ 32 - 1.
pub parse_index_exact :
    (str : Text) (v : ℕ)
    → (parse_index str ≡ some v)
      ↔ ((all_digits str ≡ true) × (decimal str ≡ v) × (0 < v) × (v < 2 ^ 32))
parse_index_exact [] v = (parse_index_sound [] v, λ h. absurd (omega (arith, h.1, h.2)))
parse_index_exact (c ∷ cs) v = (
  parse_index_sound (c ∷ cs) v,
  λ h.
      parse_index_complete c cs h.0 (omega (arith, h.1, h.2)) (omega (arith, h.1, h.3))
      ∙ ap some h.1,
)
