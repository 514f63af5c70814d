-- ===== src/Samples.antt =====
-- The array accesses of the driver's C++: `std::fill_n` and `std::copy_n` over arrays of samples.
use roc_vad.Prelude.{
  ℕ, zero, suc, ◌+◌, ◌-◌, ◌<◌, ◌≡◌, refl, Bool, ◌&&◌, List, [], ◌∷◌, Option, some, arith, ltb, leb,
  if◌then◌else◌, length, get_or,
}
use native.Mathlib.Nat.{zero-add}
use roc_vad.Prelude.Maybe.{◌>>◌, check}

-- Whether `i` is one of the `count` indices from `from` on.
abbrev pub within : ℕ → ℕ → ℕ → Bool
within from count i = leb from i && ltb i (from + count)

module _ {ℓ} {A : Type ℓ} where
  -- Every element, changed by its index; `i` is the index of the first.
  unfoldable pub map_from : (ℕ → A → A) → ℕ → List A → List A
  map_from f i [] = []
  map_from f i (x ∷ xs) = f i x ∷ map_from f (suc i) xs

  pub length-map_from : (f : ℕ → A → A) (i : ℕ) (xs : List A) → length (map_from f i xs) ≡ length xs
  unfolding map_from
  length-map_from f i [] = refl
  length-map_from f i (x ∷ xs) = omega (arith, length-map_from f (suc i) xs)

  pub get_or-map_from :
      (f : ℕ → A → A) (i : ℕ) (xs : List A) (j : ℕ) (d : A)
      → j < length xs
      → get_or (map_from f i xs) j d ≡ f (i + j) (get_or xs j d)
  unfolding map_from
  get_or-map_from f i [] j d h = elim h [ ]
  get_or-map_from f i (x ∷ xs) zero d h = cc (i_zero i)
    where
      i_zero : (n : ℕ) → n + 0 ≡ n
      i_zero n = omega arith
  get_or-map_from f i (x ∷ xs) (suc j) d h =
      rw (shift i) (get_or-map_from f (suc i) xs j d (omega arith))
    where
      shift : (n : ℕ) → n + suc j ≡ suc n + j
      shift n = omega arith

  -- What `std::copy_n(src + from, count, dst + at)` leaves in `dst`.
  unfoldable pub copied : List A → ℕ → ℕ → List A → ℕ → List A
  copied src from count dst at =
      map_from (λ i old. if within at count i then get_or src (from + (i - at)) old else old) 0 dst

  -- `std::copy_n(src + from, count, dst + at)` between two arrays
  unfoldable pub copy_n : List A → ℕ → ℕ → List A → ℕ → Option (List A)
  copy_n src from count dst at = do
    check (leb (from + count) (length src))
    check (leb (at + count) (length dst))
    some (copied src from count dst at)

  pub length-copied :
      (src : List A) (from count : ℕ) (dst : List A) (at : ℕ)
      → length (copied src from count dst at) ≡ length dst
  unfolding copied
  length-copied src from count dst at = length-map_from _ 0 dst

  pub get_or-copied :
      (src : List A) (from count : ℕ) (dst : List A) (at i : ℕ) (d : A)
      → i < length dst
      → get_or (copied src from count dst at) i d ≡ (
          if within at count i
          then get_or src (from + (i - at)) (get_or dst i d)
          else get_or dst i d)
  unfolding copied
  get_or-copied src from count dst at i d h = rw (get_or-map_from _ 0 dst i d h) (rw (zero-add i))

  -- A filled range holds the value, and the rest is as before.
  unfoldable pub filled : List A → ℕ → ℕ → A → List A
  filled dst at count v = map_from (λ i old. if within at count i then v else old) 0 dst

  -- `std::fill_n(dst + at, count, v)`
  unfoldable pub fill_n : List A → ℕ → ℕ → A → Option (List A)
  fill_n dst at count v = do check (leb (at + count) (length dst)); some (filled dst at count v)

  pub length-filled :
      (dst : List A) (at count : ℕ) (v : A) → length (filled dst at count v) ≡ length dst
  unfolding filled
  length-filled dst at count v = length-map_from _ 0 dst

  pub get_or-filled :
      (dst : List A) (at count : ℕ) (v : A) (i : ℕ) (d : A)
      → i < length dst
      → get_or (filled dst at count v) i d ≡ (if within at count i then v else get_or dst i d)
  unfolding filled
  get_or-filled dst at count v i d h = rw (get_or-map_from _ 0 dst i d h) (rw (zero-add i))

  -- A read inside the list does not see its default.
  pub get_or_irrelevant :
      (xs : List A) (i : ℕ) (d e : A) → i < length xs → get_or xs i d ≡ get_or xs i e
  get_or_irrelevant [] i d e h = elim h [ ]
  get_or_irrelevant (x ∷ xs) zero d e h = refl
  get_or_irrelevant (x ∷ xs) (suc i) d e h = get_or_irrelevant xs i d e (omega arith)

  -- A copy of nothing.
  map_from_same :
      (f : ℕ → A → A) (i : ℕ) (xs : List A) → ((j : ℕ) (x : A) → f j x ≡ x) → map_from f i xs ≡ xs
  unfolding map_from
  map_from_same f i [] h = refl
  map_from_same f i (x ∷ xs) h = cc (h i x, map_from_same f (suc i) xs h)

module _ {A : Type 0} where
  within_none : (at i : ℕ) (x y : A) → (if within at 0 i then x else y) ≡ y
  within_none at i x y = ground arith

  pub copied-zero :
      (src : List A) (from : ℕ) (dst : List A) (at : ℕ) → copied src from 0 dst at ≡ dst
  unfolding copied
  copied-zero src from dst at =
      map_from_same _ 0 dst (λ j x. within_none at j (get_or src (from + (j - at)) x) x)
