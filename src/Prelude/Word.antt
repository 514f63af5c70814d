-- ===== src/Prelude/Word.antt =====
-- Unsigned machine words as native numbers that wrap.
use Prim.Native.Nat.{ℕ, ◌+◌, ◌-◌, ◌*◌, ◌%◌, ◌^◌, ◌≤◌, ◌<◌}
use mathlib.Core.Path.{◌≡◌}
use native.Mathlib.Nat.{mod-eq_of_lt, mod-eq-sub-mod}
use mathlib.Core.Logic.{◌⊎◌, inl, inr}
use native.Mathlib.Decide.{dec_lt}
use native.Mathlib.Omega.{arith}

-- `uint64_t` and `size_t`: a + b, a - b and a * b.
abbrev pub add64 : ℕ → ℕ → ℕ
add64 a b = (a + b) % 2 ^ 64

abbrev pub sub64 : ℕ → ℕ → ℕ
sub64 a b = (a + 2 ^ 64 - b) % 2 ^ 64

abbrev pub mul64 : ℕ → ℕ → ℕ
mul64 a b = a * b % 2 ^ 64

-- `uint32_t`
abbrev pub add32 : ℕ → ℕ → ℕ
add32 a b = (a + b) % 2 ^ 32

-- One turn round at most.
pub mod-eq_sub : {n m : ℕ} → m ≤ n → n < m + m → n % m ≡ n - m
mod-eq_sub {n} {m} h k =
    omega (arith, mod-eq-sub-mod {n = n} {m = m} h, mod-eq_of_lt {n = n - m} {m = m} (omega arith))

-- A step of at most a whole turn round a circle of `m` places.
pub turn :
    (m b n : ℕ)
    → b < m
    → n ≤ m
    → ((b + n < m) × ((b + n) % m ≡ b + n)) ⊎ ((m ≤ b + n) × ((b + n) % m + m ≡ b + n))
turn m b n hb hn = elim (dec_lt (b + n) m) [
  | yes p ↦ inl (p, mod-eq_of_lt p)
  | no p ↦ elim (dec_lt (b + n) (m + m)) [
    | yes q ↦ inr (omega arith, omega (arith, mod-eq_sub {n = b + n} {m = m} (omega arith) q))
    | no q ↦ absurd (omega arith)
  ]
]
