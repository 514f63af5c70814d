-- ===== src/Manager/Lookup.antt =====
-- The map by index of driver/device_manager.cpp, and its order.
use roc_vad.Prelude.{ℕ, ◌<◌, ◌≡◌, List, [], ◌∷◌, none, some, ◌==◌, if◌then◌else◌, arith, All}
use roc_vad.Manager.{find_key, put, erase}

pub find_key-put :
    (i k p : ℕ) (m : List (ℕ × ℕ))
    → find_key i (put k p m) ≡ (if k == i then some p else find_key i m)
unfolding find_key put
find_key-put i k p [] = ground arith
find_key-put i k p ((j, q) ∷ m) = ground (arith, find_key-put i k p m)

pub find_key-erase :
    (i k : ℕ) (m : List (ℕ × ℕ)) → find_key i (erase k m) ≡ (if k == i then none else find_key i m)
unfolding find_key erase
find_key-erase i k [] = ground arith
find_key-erase i k ((j, q) ∷ m) = ground (arith, find_key-erase i k m)

-- The keys grow, so that no two are equal.
abbrev pub Above : ℕ → List (ℕ × ℕ) → Type 0
Above k = All (λ (e : ℕ × ℕ). k < e.0)

abbrev pub IsIncreasing : List (ℕ × ℕ) → Type 0
IsIncreasing [] = Unit
IsIncreasing ((k, p) ∷ m) = Above k m × IsIncreasing m

Above-put : (l k p : ℕ) (m : List (ℕ × ℕ)) → l < k → Above l m → Above l (put k p m)
unfolding put
Above-put l k p [] h a = ground arith
Above-put l k p ((j, q) ∷ m) h a = ground (arith, Above-put l k p m)

Above-lower : (l k : ℕ) (m : List (ℕ × ℕ)) → l < k → Above k m → Above l m
Above-lower l k [] h a = tt
Above-lower l k ((j, q) ∷ m) h a = (omega arith, Above-lower l k m h a.1)

pub put-IsIncreasing : (k p : ℕ) (m : List (ℕ × ℕ)) → IsIncreasing m → IsIncreasing (put k p m)
unfolding put
put-IsIncreasing k p [] h = (tt, tt)
put-IsIncreasing k p ((j, q) ∷ m) h =
    ground (arith, put-IsIncreasing k p m, Above-put j k p m, Above-lower k j m)

Above-erase : (l k : ℕ) (m : List (ℕ × ℕ)) → Above l m → Above l (erase k m)
unfolding erase
Above-erase l k [] a = tt
Above-erase l k ((j, q) ∷ m) a = ground (arith, Above-erase l k m)

pub erase-IsIncreasing : (k : ℕ) (m : List (ℕ × ℕ)) → IsIncreasing m → IsIncreasing (erase k m)
unfolding erase
erase-IsIncreasing k [] h = tt
erase-IsIncreasing k ((j, q) ∷ m) h = ground (arith, erase-IsIncreasing k m, Above-erase j k m)
