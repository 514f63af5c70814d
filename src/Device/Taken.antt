-- ===== src/Device/Taken.antt =====
-- The first step of the constructor of driver/device.cpp: the index of the device is taken.
use roc_vad.Prelude.{
  ℕ, zero, suc, ◌^◌, ◌<◌, ◌≡◌, ◌≢◌, ◌⊎◌, inl, inr, refl, true, false, Option, none, some, ◌==◌,
  if◌then◌else◌, arith, sym, ◌∙◌,
}
use roc_vad.Result.{ok, throw, invalid_argument}
use roc_vad.Index.{Allocator, is_free, allocate_and_acquire, acquire}
use roc_vad.Index.Alloc.{IsValid, allocate_fresh, acquire_exact}
use roc_vad.Device.{take_device_index}

acquire-frame :
    (a b : Allocator) (i j : ℕ)
    → IsValid a
    → i < 2 ^ 32
    → acquire a i ≡ some b
    → is_free b j ≡ (if i == j then false else is_free a j)
acquire-frame a b i j v l e = elim (acquire_exact a i j v l) [
  | inl (taken, refused) ↦ absurd (none≢some (sym refused ∙ e))
  | inr (was_free, c, acquired, frame, valid) ↦ rw (some-injective (sym e ∙ acquired)) frame
]
  where
    none≢some : {x : Allocator} → ¬ (none ≡ some x)
    none≢some h = cc

    some-injective : {x y : Allocator} → Option.some x ≡ some y → x ≡ y
    some-injective h = cc

pub take_device_index_lem :
    (index some_free : ℕ) (a : Allocator)
    → IsValid a
    → index < 2 ^ 32
    → some_free < 2 ^ 32
    → is_free a some_free ≡ true
    → let (r, b) = take_device_index index a in
      ((r ≡ throw invalid_argument) × (is_free a index ≡ false) × (b ≡ a))
      ⊎ ((n : ℕ) × (r ≡ ok n)
          × (n ≢ 0)
          × (n < 2 ^ 32)
          × (is_free a n ≡ true)
          × ((j : ℕ) → is_free b j ≡ (if n == j then false else is_free a j))
          × IsValid b)
unfolding take_device_index
take_device_index_lem zero some_free a v small low free =
    let (was_free, nonzero, small_n, frame, valid) = allocate_fresh a some_free 0 v low free in
    inr (
      (allocate_and_acquire a).0,
      refl,
      nonzero,
      small_n,
      was_free,
      (λ j. (allocate_fresh a some_free j v low free).3),
      valid,
    )
take_device_index_lem (suc k) some_free a v small low free =
    elim (acquire_exact a (suc k) 0 v small) [
      | inl (taken, refused) ↦ inl (ground arith, taken, ground arith)
      | inr (was_free, b, acquired, frame, valid) ↦ rw (given b acquired) (
          inr (
            suc k,
            refl,
            omega arith,
            small,
            was_free,
            (λ j. acquire-frame a b (suc k) j v small acquired),
            valid,
          ))
    ]
  where
    given :
        (b : Allocator) → acquire a (suc k) ≡ some b → take_device_index (suc k) a ≡ (ok (suc k), b)
    given b e = ground arith
