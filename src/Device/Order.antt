-- ===== src/Device/Order.antt =====
-- The order of the endpoints in driver/device.cpp.
use roc_vad.Prelude.{ℕ, ◌+◌, ◌≡◌, refl, Bool, true, false, List, [], ◌∷◌, if◌then◌else◌, arith}
use roc_vad.Defs.{DeviceEndpointInfo}
use roc_vad.Device.{Platform, goes_before, insert_endpoint, sort_endpoints}

module _ {W U : Type 0} (platform : Platform W U) where
  -- No endpoint goes before the one to its left.
  abbrev pub Sorted : List DeviceEndpointInfo → Type 0
  Sorted [] = Unit
  Sorted (a ∷ []) = Unit
  Sorted (a ∷ b ∷ es) = (goes_before platform b a ≡ false) × Sorted (b ∷ es)

  goes_before_asym :
      (a b : DeviceEndpointInfo)
      → goes_before platform a b ≡ true
      → goes_before platform b a ≡ false
  unfolding goes_before
  goes_before_asym a b h = ground arith

  insert_endpoint-Sorted :
      (e : DeviceEndpointInfo) (es : List DeviceEndpointInfo)
      → Sorted es
      → Sorted (insert_endpoint platform e es)
  unfolding insert_endpoint
  insert_endpoint-Sorted e [] h = tt
  insert_endpoint-Sorted e (x ∷ []) h = ground (arith, goes_before_asym x e)
  insert_endpoint-Sorted e (x ∷ y ∷ es) h =
      ground (arith, goes_before_asym x e, insert_endpoint-Sorted e (y ∷ es))

  -- How many endpoints pass the test.
  abbrev pub count_of : (DeviceEndpointInfo → Bool) → List DeviceEndpointInfo → ℕ
  count_of test [] = 0
  count_of test (e ∷ es) = (if test e then 1 else 0) + count_of test es

  count_of-insert_endpoint :
      (test : DeviceEndpointInfo → Bool) (e : DeviceEndpointInfo) (es : List DeviceEndpointInfo)
      → count_of test (insert_endpoint platform e es) ≡ (if test e then 1 else 0) + count_of test es
  unfolding insert_endpoint
  count_of-insert_endpoint test e [] = refl
  count_of-insert_endpoint test e (x ∷ es) = ground (arith, count_of-insert_endpoint test e es)

  -- Sorting leaves the endpoints in order of slot and interface, and as many of them as before pass
  -- any test: none is lost, added or changed.
  pub sort_endpoints_lem :
      (test : DeviceEndpointInfo → Bool) (es : List DeviceEndpointInfo)
      → Sorted (sort_endpoints platform es)
        × (count_of test (sort_endpoints platform es) ≡ count_of test es)
  unfolding sort_endpoints
  sort_endpoints_lem test [] = (tt, refl)
  sort_endpoints_lem test (e ∷ es) =
      let (sorted, same) = sort_endpoints_lem test es in
      (
        insert_endpoint-Sorted e (sort_endpoints platform es) sorted,
        omega (arith, same, count_of-insert_endpoint test e (sort_endpoints platform es)),
      )
