-- ===== src/Prelude/Maybe.antt =====
-- Computations that may fault: `none` stands for a failed assertion, a division by zero or an
-- access outside an array.
use mathlib.Core.Bool.{Bool, true, false}
use mathlib.Core.Option.{Option, none, some}

infixl 5 ◌>>=◌ ◌>>◌
abbrev pub ◌>>=◌ {ℓ κ} : {A : Type ℓ} {B : Type κ} → Option A → (A → Option B) → Option B
none >>= f = none
some a >>= f = f a

abbrev pub ◌>>◌ {ℓ} : {B : Type ℓ} → Option (Unit {0}) → Option B → Option B
m >> k = m >>= λ _. k

-- `assert(test)`, and the bounds of an access.
abbrev pub check : Bool → Option (Unit {0})
check true = some tt
check false = none
