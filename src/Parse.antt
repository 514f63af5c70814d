-- ===== src/Parse.antt =====
-- tool/parse.cpp: device indices and durations given on the command line. A text is the list of its
-- bytes; `long` and `int64_t` have 64 bits; `none` is the result `false`.
pub mod Digits
pub mod Number
pub mod Text
pub mod Duration
mod Tests
use roc_vad.Prelude.{
  ℕ, zero, suc, ◌+◌, ◌-◌, ◌*◌, ◌/◌, ◌%◌, ◌^◌, Bool, true, false, not, ◌&&◌, ◌||◌, List, [], ◌∷◌,
  Option, none, some, ltb, leb, ◌==◌, if◌then◌else◌, length, drop,
}
use roc_vad.Prelude.Int.{ℤ, pos, negsuc, ◌*ℤ◌, pos_part, neg_part, sub_ℕ}

abbrev pub Text : Type 0
Text = List ℕ

-- `isdigit` and `isspace`
abbrev pub is_digit : ℕ → Bool
is_digit c = leb 48 c && leb c 57

abbrev pub is_space : ℕ → Bool
is_space c = c == 32 || (leb 9 c && leb c 13)

-- The digits at the head of a text, read on from the value `n`: the value, and what is left.
unfoldable pub read_digits : ℕ → Text → ℕ × Text
read_digits n [] = (n, [])
read_digits n (c ∷ cs) =
    let rest = read_digits (n * 10 + (c - 48)) cs in if is_digit c then rest else (n, c ∷ cs)

unfoldable pub skip_spaces : Text → Text
skip_spaces [] = []
skip_spaces (c ∷ cs) = let rest = skip_spaces cs in if is_space c then rest else c ∷ cs

abbrev pub long_max : ℤ
long_max = pos (2 ^ 63 - 1)

abbrev pub long_min : ℤ
long_min = negsuc (2 ^ 63 - 1)

-- The value of `strtol`, which stops at the ends of `long`.
abbrev pub clamp : Bool → ℕ → ℤ
clamp negative n =
    if negative
    then (if ltb (2 ^ 63) n then long_min else sub_ℕ 0 n)
    else (if ltb (2 ^ 63 - 1) n then long_max else pos n)

-- The digits after the sign; with none, the number is zero and nothing of `str` is read.
unfoldable pub read_number : Bool → Text → Text → ℤ × Text
read_number negative str [] = (pos 0, str)
read_number negative str (c ∷ cs) =
    let (n, rest) = read_digits 0 (c ∷ cs) in
    if is_digit c then (clamp negative n, rest) else (pos 0, str)

unfoldable pub read_signed : Text → Text → ℤ × Text
read_signed str [] = (pos 0, str)
read_signed str (c ∷ cs) =
    if c == 45
    then read_number true str cs
    else (if c == 43 then read_number false str cs else read_number false str (c ∷ cs))

-- `std::strtol(str, &number_end, 10)`: the number, and the text from `number_end` on.
unfoldable pub strtol : Text → ℤ × Text
strtol str = read_signed str (skip_spaces str)

-- `isdigit(*str) || *str == '-'`
abbrev pub starts_number : Text → Bool
starts_number [] = false
starts_number (c ∷ cs) = is_digit c || c == 45

-- `number == LONG_MAX || number == LONG_MIN`
abbrev pub is_limit : ℤ → Bool
is_limit (pos n) = n == 2 ^ 63 - 1
is_limit (negsuc n) = n == 2 ^ 63 - 1

-- The checks after `strtol` in `parse_index`.
unfoldable pub index_of_number : ℤ → Option ℕ
index_of_number (negsuc n) = none
index_of_number (pos n) = if n == 0 then none else (if ltb (2 ^ 32 - 1) n then none else some n)

unfoldable pub parse_index : Text → Option ℕ
parse_index str =
    let (number, rest) = strtol str in
    if not (starts_number str)
    then none
    else (if is_limit number || not (length rest == 0) then none else index_of_number number)

-- `strcmp(a, b) == 0`
abbrev pub text_eq : Text → Text → Bool
text_eq [] [] = true
text_eq [] (d ∷ ds) = false
text_eq (c ∷ cs) [] = false
text_eq (c ∷ cs) (d ∷ ds) = c == d && text_eq cs ds

-- Where the suffix starts.
unfoldable pub find_suffix : Text → Text → Option ℕ
find_suffix str suffix =
    let str_len = length str in
    let suf_len = length suffix in
    if ltb str_len suf_len
    then none
    else (if text_eq (drop (str_len - suf_len) str) suffix then some (str_len - suf_len) else none)

-- The suffixes in the order in which they are tried, with their multipliers: ns, us, ms, s, m, h.
abbrev pub units : List (Text × ℕ)
units =
    (110 ∷ 115 ∷ [], 1)
    ∷ (117 ∷ 115 ∷ [], 1_000)
    ∷ (109 ∷ 115 ∷ [], 1_000_000)
    ∷ (115 ∷ [], 1_000_000_000)
    ∷ (109 ∷ [], 60_000_000_000)
    ∷ (104 ∷ [], 3_600_000_000_000)
    ∷ []

-- The start of the suffix and the multiplier.
unfoldable pub find_unit : List (Text × ℕ) → Text → Option (ℕ × ℕ)
find_unit [] str = none
find_unit ((suffix, multiplier) ∷ rest) str = elim (find_suffix str suffix) [
  | some start ↦ some (start, multiplier)
  | none ↦ find_unit rest str
]

-- What the text of a duration gives. Where the product of the number and the multiplier overflows
-- `int64_t`, the behaviour is undefined, whatever the code goes on to do.
pub data DurationResult : Type 0 where
  valid_duration : ℤ → DurationResult
  refused_duration undefined_product : DurationResult

-- `int64_t` holds a number.
abbrev pub fits_int64 : ℤ → Bool
fits_int64 n = ltb (pos_part n) (2 ^ 63) && leb (neg_part n) (2 ^ 63)

-- `/` of `int64_t` by a positive number, which rounds towards zero.
abbrev pub div_trunc : ℤ → ℕ → ℤ
div_trunc (pos n) m = pos (n / m)
div_trunc (negsuc n) m = sub_ℕ 0 (suc n / m)

abbrev pub int_eq : ℤ → ℤ → Bool
int_eq a b = pos_part a == pos_part b && neg_part a == neg_part b

-- The product and its check.
unfoldable pub scale : ℤ → ℕ → DurationResult
scale number multiplier =
    let result = number *ℤ pos multiplier in
    if not (fits_int64 result)
    then undefined_product
    else (if not (int_eq (div_trunc result multiplier) number)
        then refused_duration
        else valid_duration result)

-- `parse_duration` once the unit is known.
unfoldable pub parse_number : Text → ℕ → ℕ → DurationResult
parse_number str start multiplier =
    let (number, rest) = strtol str in
    if start == 0
    then refused_duration
    else (if not (starts_number str)
        then refused_duration
        else (if is_limit number || not (length str - length rest == start)
            then refused_duration
            else scale number multiplier))

unfoldable pub parse_duration : Text → DurationResult
parse_duration str = elim (find_unit units str) [
  | none ↦ refused_duration
  | some (start, multiplier) ↦ parse_number str start multiplier
]
