-- ===== src/Manager/Queries.antt =====
-- What driver/device_manager.cpp answers about its devices.
use text.Mathlib.TextEquality.{eq_iff}
use roc_vad.Prelude.{
  ℕ, ◌<◌, ◌≡◌, refl, sym, inl, inr, true, List, [], ◌∷◌, Option, none, some, ◌==◌, if◌then◌else◌,
  arith, All, Option-cases, Bool, ◌∙◌,
}
use roc_vad.Result.{Result, ok, throw, invalid_argument}
use roc_vad.Defs.{DeviceInfo}
use roc_vad.Index.{is_free}
use roc_vad.Index.Alloc.{release_exact}
use roc_vad.Device
use roc_vad.Device.{Device}
use roc_vad.Device.Laws.{destroy-allocator}
use roc_vad.Manager.{
  Host, Manager, Key, by_index, by_uid, find_key, infos, save, get_device, get_all_devices,
  delete_device,
}
use roc_vad.Manager.{toggle_device, store, with_outside, pointer_of}
use roc_vad.Manager.Lookup.{find_key-erase, Above, IsIncreasing}
use roc_vad.Manager.Consistent.{IsConsistent}
use roc_vad.Manager.Refine.{Names, find_device_lem}

-- The first description with an index, in a list that a client was given.
abbrev pub find_info : ℕ → List DeviceInfo → Option DeviceInfo
find_info k [] = none
find_info k (i ∷ rest) = let found = find_info k rest in if i.index == k then some i else found

abbrev pub answer : Option DeviceInfo → Result DeviceInfo
answer none = throw invalid_argument
answer (some i) = ok i

abbrev pub AllAbove : ℕ → List DeviceInfo → Type 0
AllAbove k = All (λ (i : DeviceInfo). k < i.index)

-- Each index is below those that follow.
abbrev pub Ascending : List DeviceInfo → Type 0
Ascending [] = Unit
Ascending (i ∷ rest) = AllAbove i.index rest × Ascending rest

-- Each key leads to an object with that index.
abbrev Leads : (ℕ → Option Device) → List (ℕ × ℕ) → Type 0
Leads heap = All (λ (e : ℕ × ℕ). (d : Device) × (heap e.1 ≡ some d) × (d.info.index ≡ e.0))

AllAbove-infos :
    (k : ℕ) (heap : ℕ → Option Device) (m : List (ℕ × ℕ))
    → Leads heap m
    → Above k m
    → AllAbove k (infos heap m)
unfolding infos
AllAbove-infos k heap [] leads above = tt
AllAbove-infos k heap ((i, p) ∷ m) ((d, at, index), leads) (low, above) =
    rw (at, infos, AllAbove) (omega arith, AllAbove-infos k heap m leads above)

Ascending-infos :
    (heap : ℕ → Option Device) (m : List (ℕ × ℕ))
    → Leads heap m
    → IsIncreasing m
    → Ascending (infos heap m)
unfolding infos
Ascending-infos heap [] leads order = tt
Ascending-infos heap ((i, p) ∷ m) ((d, at, index), leads) (above, order) =
    rw (at, infos, Ascending)
      (rw index (AllAbove-infos i heap m leads above), Ascending-infos heap m leads order)

-- The description at the place of a key.
abbrev described : (ℕ → Option Device) → Option ℕ → Option DeviceInfo
described heap none = none
described heap (some p) = elim (heap p) [ none ↦ none | some d ↦ some d.info ]

find_info-infos :
    (k : ℕ) (heap : ℕ → Option Device) (m : List (ℕ × ℕ))
    → Leads heap m
    → find_info k (infos heap m) ≡ described heap (find_key k m)
unfolding infos find_key
find_info-infos k heap [] leads = refl
find_info-infos k heap ((i, p) ∷ m) ((d, at, index), leads) =
    ground (arith, at, index, find_info-infos k heap m leads)

find_key-Above : (k : ℕ) (m : List (ℕ × ℕ)) → Above k m → find_key k m ≡ none
unfolding find_key
find_key-Above k [] above = refl
find_key-Above k ((i, p) ∷ m) above = ground (arith, find_key-Above k m above.1)

Leads-all :
    (heap : ℕ → Option Device) (m : List (ℕ × ℕ))
    → IsIncreasing m
    → ((i p : ℕ) → find_key i m ≡ some p → (d : Device) × (heap p ≡ some d) × (d.info.index ≡ i))
    → Leads heap m
unfolding find_key
Leads-all heap [] order at = tt
Leads-all heap ((i, p) ∷ m) (above, order) at = (
  at i p (ground arith),
  Leads-all heap m order (λ j q h. at j q (ground (arith, h, find_key-Above i m above))),
)

module _ {W U D B : Type 0} (host : Host W U D B) where
  -- In a consistent state, `get_all_devices` lists the devices by growing index; and `get_device`
  -- with an index answers what a client finds in that list, an invalid argument where it finds none,
  -- and changes nothing.
  pub get_device-get_all_devices :
      (m : Manager W U) (k : ℕ)
      → IsConsistent m
      → Ascending (get_all_devices host m)
        × (get_device host (by_index k) m ≡ (answer (find_info k (get_all_devices host m)), m))
  unfolding get_device
  get_device-get_all_devices m k v =
      let leads =
        Leads-all m.heap m.device_by_index v.ordered
          (λ i p h. let (d, at, index, _) = v.indexed i p h in (d, at, index)) in
      (
        Ascending-infos m.heap m.device_by_index leads v.ordered,
        rw (find_info-infos k m.heap m.device_by_index leads)
            (elim (Option-cases (find_key k m.device_by_index)) [
              | inl nothing ↦ rw nothing
              | inr (p, found) ↦
                  let (d, at, _, _) = v.indexed k p found in ground (arith, found, at)
            ]),
      )

  -- In a consistent state, a device that `get_device` finds and `delete_device` deletes is no longer
  -- found, neither by its index nor by its UID, whether the list could be saved or not; and its
  -- index is free again.
  pub get_device-delete_device :
      (key : Key) (m : Manager W U) (info : DeviceInfo)
      → IsConsistent m
      → (get_device host key m).0 ≡ ok info
      → let n = (delete_device host key m).1 in
        (get_device host (by_index info.index) n ≡ (throw invalid_argument, n))
        × (get_device host (by_uid info.uid) n ≡ (throw invalid_argument, n))
        × (is_free n.shared.index_allocator info.index ≡ true)
  unfolding get_device delete_device save
  get_device-delete_device key m info v found = elim (find_device_lem host key m v) [
    | inl e ↦ absurd (ground (arith, e, found))
    | inr (p, d, e, at, entry, named) ↦
        let (nonzero, small, used) = v.taken d.info.index p entry in
        let same : d.info ≡ info = ground (arith, e, found) in
        rw (e, sym same)
          (
            rw (find_key-erase d.info.index d.info.index m.device_by_index) (ground arith),
            ground (arith, eq_iff d.info.uid d.info.uid),
            rw (destroy-allocator host.platform d _ nonzero) (
                ground (
                  arith,
                  release_exact m.shared.index_allocator d.info.index d.info.index v.allocator
                      nonzero small used,
                )),
          )
  ]

  -- The pointer of the device that `find_device_lem` gives.
  pointer_found :
      (key : Key) (m : Manager W U) (p : ℕ) (d : Device)
      → IsConsistent m
      → m.heap p ≡ some d
      → find_key d.info.index m.device_by_index ≡ some p
      → Names host key d
      → pointer_of host key m ≡ some p
  pointer_found (by_index i) m p d v at entry named = rw (sym named) entry
  pointer_found (by_uid u) m p d v at entry named =
      let (x, at_x, index, uid) = v.indexed d.info.index p entry in
      let same : x ≡ d = ground (arith, at, at_x) in rw (sym named, sym same) uid

  pointer_outside :
      (key : Key) (m : Manager W U) (w : W)
      → pointer_of host key (with_outside host m w) ≡ pointer_of host key m
  pointer_outside (by_index i) m w = refl
  pointer_outside (by_uid u) m w = refl

  found_stored :
      (key : Key) (m : Manager W U) (p : ℕ) (d : Device) (w : W)
      → pointer_of host key m ≡ some p
      → (get_device host key (with_outside host (store p d m) w)).0 ≡ ok d.info
  unfolding get_device
  found_stored (by_index i) m p d w h = ground (arith, h)
  found_stored (by_uid u) m p d w h = ground (arith, h)

  -- `toggle_device` changes whether a device is enabled, and nothing else of its description.
  pub get_device-toggle_device :
      (key : Key) (enabled : Bool) (m : Manager W U) (info : DeviceInfo)
      → IsConsistent m
      → (get_device host key m).0 ≡ ok info
      → (get_device host key (toggle_device host key enabled m).1).0
        ≡ ok (record info { enabled = enabled })
  unfolding get_device toggle_device save Device.toggle
  get_device-toggle_device key enabled m info v found = elim (find_device_lem host key m v) [
    | inl e ↦ absurd (ground (arith, e, found))
    | inr (p, d, e, at, entry, named) ↦
        let same : d.info ≡ info = ground (arith, e, found) in
        let w = (Device.toggle host.platform d enabled m.shared.outside).1 in
        let pointer = pointer_outside key m w ∙ pointer_found key m p d v at entry named in
        rw (e, sym same)
          (found_stored key (with_outside host m w) p
            (Device.toggle host.platform d enabled m.shared.outside).0 _ pointer)
  ]
