-- ===== src/Result.antt =====
-- Exceptions as values. Only the class of an exception is kept, not its text: the class decides the
-- status of a command.
use roc_vad.Prelude.{Bool, List, [], ◌∷◌, ◌≡◌, refl, All, arith, if◌then◌else◌}

-- `std::invalid_argument`, `std::runtime_error` and any other `std::exception`.
pub data Exception : Type 0 where
  invalid_argument runtime_error other_exception : Exception

-- What a call leaves: an exception on its way up, or its value.
pub data Result {ℓ} (A : Type ℓ) : Type ℓ where
  throw : Exception → Result A
  ok : A → Result A

infixl 5 ◌>>=◌ ◌>>◌
abbrev pub ◌>>=◌ {ℓ} : {A B : Type ℓ} → Result A → (A → Result B) → Result B
throw exception >>= next = throw exception
ok value >>= next = next value

abbrev pub ◌>>◌ : {B : Type 0} → Result (Unit {0}) → Result B → Result B
call >> next = call >>= (λ done. next)

-- `if (test) throw exception;`
abbrev pub throw_if : Bool → Exception → Result (Unit {0})
throw_if test exception = if test then throw exception else ok tt

-- A loop that converts the elements in order, and stops at the first exception.
abbrev pub map_result : {A B : Type 0} → (A → Result B) → List A → Result (List B)
map_result convert [] = ok []
map_result convert (x ∷ xs) = do y ← convert x; ys ← map_result convert xs; ok (y ∷ ys)

-- A sequence of calls returns where each of them does.
pub >>=-eq-ok :
    {A B : Type 0} {result : B} (call : Result A) (next : A → Result B)
    → (call >>= next) ≡ ok result
    → (value : A) × (call ≡ ok value) × (next value ≡ ok result)
>>=-eq-ok (throw exception) next returned = cc
>>=-eq-ok (ok value) next returned = (value, refl, returned)

-- A loop over converted elements comes back, if each element does.
pub map_result_round :
    {A B : Type 0} (to : A → Result B) (from : B → Result A) (P : A → Type 0)
    → ((a : A) (b : B) → P a → to a ≡ ok b → from b ≡ ok a)
    → (xs : List A) (ys : List B) → All P xs
    → map_result to xs ≡ ok ys
    → map_result from ys ≡ ok xs
map_result_round to from P each [] ys all h = ground arith
map_result_round to from P each (x ∷ xs) ys all h =
    let (y, ey, rest) = >>=-eq-ok (to x) _ h in
    let (zs, ezs, end) = >>=-eq-ok (map_result to xs) _ rest in
    ground (arith, each x y all.0 ey, map_result_round to from P each xs zs all.1 ezs)
