-- ===== src/Parse/Digits.antt =====
-- Decimal numbers in tool/parse.cpp.
use roc_vad.Prelude.{
  ℕ, ◌+◌, ◌-◌, ◌*◌, ◌≡◌, refl, Bool, true, false, [], ◌∷◌, ◌++◌, arith, ◌&&◌, if◌then◌else◌, length,
}
use roc_vad.Parse.{Text, is_digit, read_digits}

-- A run of digits, and its value.
abbrev pub all_digits : Text → Bool
all_digits [] = true
all_digits (c ∷ cs) = is_digit c && all_digits cs

abbrev pub value_from : ℕ → Text → ℕ
value_from n [] = n
value_from n (c ∷ cs) = value_from (n * 10 + (c - 48)) cs

-- The value of a decimal text.
abbrev pub decimal : Text → ℕ
decimal ds = value_from 0 ds

-- A text that does not go on with a digit.
abbrev pub stops : Text → Bool
stops [] = true
stops (c ∷ cs) = if is_digit c then false else true

pub read_digits_append :
    (n : ℕ) (ds rest : Text)
    → all_digits ds ≡ true
    → stops rest ≡ true
    → read_digits n (ds ++ rest) ≡ (value_from n ds, rest)
unfolding read_digits
read_digits_append n [] [] h s = refl
read_digits_append n [] (c ∷ cs) h s = ground arith
read_digits_append n (c ∷ cs) rest h s =
    ground (arith, read_digits_append (n * 10 + (c - 48)) cs rest)

-- Where nothing is left, all was digits.
pub read_digits_whole :
    (n : ℕ) (cs : Text)
    → length (read_digits n cs).1 ≡ 0
    → (all_digits cs ≡ true) × ((read_digits n cs).0 ≡ value_from n cs)
unfolding read_digits
read_digits_whole n [] h = ground arith
read_digits_whole n (c ∷ cs) h = ground (arith, read_digits_whole (n * 10 + (c - 48)) cs)

pub read_digits_all :
    (n : ℕ) (cs : Text) → all_digits cs ≡ true → read_digits n cs ≡ (value_from n cs, [])
unfolding read_digits
read_digits_all n [] h = refl
read_digits_all n (c ∷ cs) h = ground (arith, read_digits_all (n * 10 + (c - 48)) cs)
