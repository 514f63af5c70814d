-- ===== src/Exec.antt =====
-- Functions that change a state and may throw: what was changed before the exception stays changed.
use roc_vad.Prelude.{List, [], ◌∷◌, ◌≡◌, refl}
use roc_vad.Result.{Exception, Result, ok, throw}

abbrev pub Exec : Type 0 → Type 0 → Type 0
Exec S A = S → Result A × S

-- After a step, `next` runs on its state where it returned.
abbrev pub and_then : {S A B : Type 0} → Result A × S → (A → Exec S B) → Result B × S
and_then (throw exception, s) next = (throw exception, s)
and_then (ok value, s) next = next value s

infixl 5 ◌>>=◌ ◌>>◌
abbrev pub ◌>>=◌ : {S A B : Type 0} → Exec S A → (A → Exec S B) → Exec S B
(step >>= next) s = and_then (step s) next

abbrev pub ◌>>◌ : {S B : Type 0} → Exec S (Unit {0}) → Exec S B → Exec S B
step >> next = step >>= (λ done. next)

-- A computation that leaves the state alone, and a value.
abbrev pub lift : {S A : Type 0} → Result A → Exec S A
lift r s = (r, s)

abbrev pub return : {S A : Type 0} → A → Exec S A
return a s = (ok a, s)

-- A loop over a list, which stops at the first exception.
abbrev pub each : {S A : Type 0} → (A → Exec S (Unit {0})) → List A → Exec S (Unit {0})
each step [] s = (ok tt, s)
each step (x ∷ xs) s = and_then (step x s) (λ done. each step xs)

-- What the first step leaves in a part of the state, and the second keeps, is there in the end.
pub and_then_keeps :
    {S A B P : Type 0} (part : S → P) (p : P) (m : Result A × S) (next : A → Exec S B)
    → part m.1 ≡ p
    → ((a : A) (s : S) → part s ≡ p → part (next a s).1 ≡ p)
    → part (and_then m next).1 ≡ p
and_then_keeps part p (throw e, s) next first second = first
and_then_keeps part p (ok a, s) next first second = second a s first

pub and_then_throws :
    {S A B : Type 0} {e : Exception} (m : Result A × S) (next : A → Exec S B)
    → m.0 ≡ throw e
    → (and_then m next).0 ≡ throw e
and_then_throws (throw e, s) next h = cc
and_then_throws (ok a, s) next h = cc

pub and_then_ok :
    {S A B : Type 0} {b : B} (m : Result A × S) (next : A → Exec S B)
    → (and_then m next).0 ≡ ok b
    → (a : A) × (m.0 ≡ ok a) × ((next a m.1).0 ≡ ok b)
and_then_ok (throw e, s) next h = cc
and_then_ok (ok a, s) next h = (a, refl, h)
