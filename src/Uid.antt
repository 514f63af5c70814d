-- ===== src/Uid.antt =====
-- driver/uid_generator.cpp: identifiers that differ from all generated before. The random numbers are
-- a parameter: `draw` gives one from 0 to 15, and the next state of the generator.
mod Tests
use Prim.Native.String.{String, ◌++◌, char_at}
use text.Mathlib.Text.{◌==◌ as str_eq}
use roc_vad.Prelude.{
  Option-cases, inl, inr, ℕ, zero, suc, ◌≡◌, ◌≢◌, refl, Bool, true, false, not, List, [], ◌∷◌,
  Option, none, some, if◌then◌else◌, arith, ◌==◌,
}

-- `uids_` holds what was generated; `contains` is `uids_.count`.
pub record UidGenerator (G : Type 0) : Type 0 where
  pub rng : G
  pub uids : List String

abbrev pub contains : List String → String → Bool
contains [] uid = false
contains (x ∷ xs) uid = if str_eq x uid then true else contains xs uid

abbrev num_digits : ℕ
num_digits = 24

abbrev num_groups : ℕ
num_groups = 4

module _ {G : Type 0} (draw : G → ℕ × G) where
  -- The inner loop, with `n` digits left.
  unfoldable pub add_digits : ℕ → String → G → String × G
  add_digits zero res rng = (res, rng)
  add_digits (suc n) res rng =
      let (digit, after) = draw rng in
      add_digits n (res ++ String.◌∷◌ (char_at "0123456789abcdef" digit) "") after

  -- The outer loop, with `groups` groups left.
  unfoldable pub add_groups : ℕ → ℕ → String → G → String × G
  add_groups zero g res rng = (res, rng)
  add_groups (suc groups) g res rng =
      let (text, after) = add_digits 6 (if not (g == 0) then res ++ "-" else res) rng in
      add_groups groups (suc g) text after

  unfoldable pub make : G → String × G
  make rng = add_groups num_groups 0 "" rng

  -- The loop of `generate`, for at most `fuel` rounds.
  unfoldable pub generate : ℕ → UidGenerator G → Option (String × UidGenerator G)
  generate zero u = none
  generate (suc fuel) u =
      let (uid, after) = make u.rng in
      let again = generate fuel (record u { rng = after }) in
      if contains u.uids uid then again else some (uid, record { rng = after; uids = uid ∷ u.uids })

  -- A generated identifier was not generated before, and it is remembered.
  pub generate_fresh :
      (fuel : ℕ) (u v : UidGenerator G) (uid : String)
      → generate fuel u ≡ some (uid, v)
      → (contains u.uids uid ≡ false) × (v.uids ≡ uid ∷ u.uids)
  unfolding generate
  generate_fresh zero u v uid h = ground arith
  generate_fresh (suc fuel) u v uid h =
      ground (arith, generate_fresh fuel (record u { rng = (make u.rng).1 }) v uid)

  -- The state of the random numbers after `n` identifiers.
  abbrev pub skip : ℕ → G → G
  skip zero rng = rng
  skip (suc n) rng = skip n (make rng).1

  -- Once the random numbers give a fresh identifier, after `n` others, `suc n` rounds are enough.
  pub generate_returns :
      (n : ℕ) (u : UidGenerator G)
      → contains u.uids (make (skip n u.rng)).0 ≡ false
      → generate (suc n) u ≢ none
  unfolding generate
  generate_returns zero u h = ground arith
  generate_returns (suc n) u h =
      ground (arith, generate_returns n (record u { rng = (make u.rng).1 }))

  -- Once the random numbers give an identifier that was not generated before, after `n` others,
  -- `suc n` rounds of the loop are enough: `generate` returns an identifier that was not generated
  -- before, and remembers it with the others.
  pub generate_lem :
      (n : ℕ) (u : UidGenerator G)
      → contains u.uids (make (skip n u.rng)).0 ≡ false
      → (uid : String) × (v : UidGenerator G) × (generate (suc n) u ≡ some (uid, v))
        × (contains u.uids uid ≡ false)
        × (v.uids ≡ uid ∷ u.uids)
  generate_lem n u h = elim (Option-cases (generate (suc n) u)) [
    | inl nothing ↦ absurd (generate_returns n u h nothing)
    | inr ((uid, v), e) ↦
        let (fresh, kept) = generate_fresh (suc n) u v uid e in (uid, v, e, fresh, kept)
  ]
