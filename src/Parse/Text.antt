-- ===== src/Parse/Text.antt =====
-- The suffix of a duration in tool/parse.cpp.
use roc_vad.Prelude.{
  ℕ, suc, ◌+◌, ◌-◌, ◌≤◌, ◌≡◌, refl, true, [], ◌∷◌, ◌++◌, none, some, arith, if◌then◌else◌, length,
  drop, length-append, ◌∙◌, ap,
}
use roc_vad.Parse.{Text, is_digit, text_eq, find_suffix, units, find_unit}
use roc_vad.Parse.Digits.{all_digits}

-- A suffix and its multiplier.
pub data IsUnit : Text → ℕ → Type 0 where
  by_ns : IsUnit (110 ∷ 115 ∷ []) 1
  by_us : IsUnit (117 ∷ 115 ∷ []) 1_000
  by_ms : IsUnit (109 ∷ 115 ∷ []) 1_000_000
  by_s : IsUnit (115 ∷ []) 1_000_000_000
  by_m : IsUnit (109 ∷ []) 60_000_000_000
  by_h : IsUnit (104 ∷ []) 3_600_000_000_000

drop_at : (t : Text) (n k : ℕ) → n ≡ k → drop n t ≡ drop k t
drop_at t n k e = ap (λ i. drop i t) e

drop-append : (init t : Text) (k : ℕ) → drop (length init + k) (init ++ t) ≡ drop k t
drop-append [] t k = drop_at t (0 + k) k (omega arith)
drop-append (c ∷ cs) t k =
    drop_at (c ∷ cs ++ t) (suc (length cs) + k) (suc (length cs + k)) (omega arith)
    ∙ drop-append cs t k

-- Only the end of the text decides.
find_suffix_tail :
    (init t suffix : Text)
    → length suffix ≤ length t
    → find_suffix (init ++ t) suffix ≡ (
        if text_eq (drop (length t - length suffix) t) suffix
        then some (length init + (length t - length suffix))
        else none)
unfolding find_suffix
find_suffix_tail init t suffix h = ground (
  arith,
  length-append init t,
  drop-append init t (length t - length suffix),
  ap (λ k. drop k (init ++ t)) (same (length init) (length t) (length suffix) h),
)
  where
    same : (a b c : ℕ) → c ≤ b → a + b - c ≡ a + (b - c)
    same a b c h = omega arith

-- The text ends with a digit and then the suffix.
find_unit_all :
    (init : Text) (d : ℕ) (end : Text)
    → length end ≤ 2
    → 1 ≤ length end
    → let ends =
        λ (suffix : Text). text_eq (drop (suc (length end) - length suffix) (d ∷ end)) suffix in
      let start = λ (suffix : Text). length init + (suc (length end) - length suffix) in
      find_unit units (init ++ d ∷ end) ≡ (
        if ends (110 ∷ 115 ∷ [])
        then some (start (110 ∷ 115 ∷ []), 1)
        else (if ends (117 ∷ 115 ∷ [])
            then some (start (117 ∷ 115 ∷ []), 1_000)
            else (if ends (109 ∷ 115 ∷ [])
                then some (start (109 ∷ 115 ∷ []), 1_000_000)
                else (if ends (115 ∷ [])
                    then some (start (115 ∷ []), 1_000_000_000)
                    else (if ends (109 ∷ [])
                        then some (start (109 ∷ []), 60_000_000_000)
                        else (if ends (104 ∷ [])
                            then some (start (104 ∷ []), 3_600_000_000_000)
                            else none))))))
unfolding find_unit
find_unit_all init d end small some_end =
    let tail = find_suffix_tail init (d ∷ end) in
    ground (
      arith,
      tail (110 ∷ 115 ∷ []) (omega arith),
      tail (117 ∷ 115 ∷ []) (omega arith),
      tail (109 ∷ 115 ∷ []) (omega arith),
      tail (115 ∷ []) (omega arith),
      tail (109 ∷ []) (omega arith),
      tail (104 ∷ []) (omega arith),
    )

-- After a digit, each suffix is found as itself.
pub find_unit_tail :
    (init : Text) (d : ℕ) {suffix : Text} {multiplier : ℕ}
    → is_digit d ≡ true
    → IsUnit suffix multiplier
    → find_unit units (init ++ d ∷ suffix) ≡ some (length init + 1, multiplier)
find_unit_tail init d digit by_ns = ground (arith, find_unit_all init d (110 ∷ 115 ∷ []))
find_unit_tail init d digit by_us = ground (arith, find_unit_all init d (117 ∷ 115 ∷ []))
find_unit_tail init d digit by_ms = ground (arith, find_unit_all init d (109 ∷ 115 ∷ []))
find_unit_tail init d digit by_s = ground (arith, find_unit_all init d (115 ∷ []))
find_unit_tail init d digit by_m = ground (arith, find_unit_all init d (109 ∷ []))
find_unit_tail init d digit by_h = ground (arith, find_unit_all init d (104 ∷ []))

-- The last digit of a number.
pub last_digit :
    (c : ℕ) (cs : Text)
    → all_digits (c ∷ cs) ≡ true
    → (init : Text) × (d : ℕ) × (c ∷ cs ≡ init ++ d ∷ [])
      × (is_digit d ≡ true)
      × (length init ≡ length cs)
last_digit c [] h = ([], c, refl, ground arith, refl)
last_digit c (e ∷ es) h =
    let (init, d, same, digit, long) = last_digit e es (ground arith) in
    (c ∷ init, d, ap (λ t. c ∷ t) same, digit, ap suc long)
