-- ===== src/Manager/Refine.antt =====
-- Every operation of driver/device_manager.cpp keeps the maps consistent and is a step of the table.
use roc_vad.Prelude.{ℕ, ◌≡◌, ◌⊎◌, inl, inr, refl, Bool, some, arith, Option-cases}
use roc_vad.Result.{Result, ok, throw, invalid_argument}
use roc_vad.Exec.{and_then, and_then_ok}
use roc_vad.Defs.{DeviceEndpointInfo}
use roc_vad.Device.{Device, Shared, construct, destroy}
use roc_vad.Transceiver.{bind, connect}
use roc_vad.Device
use roc_vad.Manager.{
  Host, Manager, Key, by_index, by_uid, find_key, save, deref, find_device, with_outside, store,
  toggle_device, change_endpoints,
}
use roc_vad.Manager.Consistent.{IsConsistent, store-IsConsistent}
use roc_vad.Manager.Table.{Step, unchanged}
use roc_vad.Manager.View.{view, store-Step}

module _ {W U D B : Type 0} (host : Host W U D B) where
  -- The state after an operation.
  abbrev pub Refines : Manager W U → Manager W U → Type 0
  Refines m n = IsConsistent n × Step (view m) (view n)

  pub Refines-again : (m : Manager W U) → IsConsistent m → Refines m m
  Refines-again m v = (v, unchanged (λ j. refl))

  outside-IsConsistent :
      (m : Manager W U) (w : W) → IsConsistent m → IsConsistent (with_outside host m w)
  outside-IsConsistent m w v = record {
    indexed = v.indexed;
    named = v.named;
    taken = v.taken;
    fresh = v.fresh;
    ordered = v.ordered;
    allocator = v.allocator;
  }

  -- A device object has the index or the UID of its key.
  abbrev pub Names : Key → Device → Type 0
  Names (by_index i) d = d.info.index ≡ i
  Names (by_uid u) d = d.info.uid ≡ u

  pub find_device_lem :
      (key : Key) (m : Manager W U)
      → IsConsistent m
      → (find_device host key m ≡ (throw invalid_argument, m))
        ⊎ ((p : ℕ) × (d : Device) × (find_device host key m ≡ (ok (p, d), m))
            × (m.heap p ≡ some d)
            × (find_key d.info.index m.device_by_index ≡ some p)
            × Names key d)
  find_device_lem (by_index i) m v = elim (Option-cases (find_key i m.device_by_index)) [
    | inl nothing ↦ inl (rw nothing)
    | inr (p, found) ↦
        let (d, at, index, uid) = v.indexed i p found in
        inr (p, d, rw found (rw (at, deref)), at, rw index found, index)
  ]
  find_device_lem (by_uid u) m v = elim (Option-cases (m.device_by_uid u)) [
    | inl nothing ↦ inl (rw nothing)
    | inr (p, found) ↦
        let (d, at, uid, index) = v.named u p found in
        inr (p, d, rw found (rw (at, deref)), at, index, uid)
  ]

  -- Saving changes the libraries alone.
  pub saved : (m n : Manager W U) → Refines m n → Refines m (save host n).1
  unfolding save
  saved m n r = (outside-IsConsistent n _ r.0, r.1)

  -- A device object is replaced by one with the same index and UID.
  stored :
      (m : Manager W U) (p : ℕ) (d e : Device) (w : W)
      → IsConsistent m
      → m.heap p ≡ some d
      → find_key d.info.index m.device_by_index ≡ some p
      → e.info.index ≡ d.info.index
      → e.info.uid ≡ d.info.uid
      → Refines m (store p e (with_outside host m w))
  stored m p d e w v at entry index uid =
      let n = with_outside host m w in
      let vn = outside-IsConsistent m w v in
      (store-IsConsistent n p d e vn at index uid, store-Step n p d e vn at entry index uid)

  toggle_keeps :
      (d : Device) (enabled : Bool) (w : W)
      → let e = (Device.toggle host.platform d enabled w).0 in
        (e.info.index ≡ d.info.index) × (e.info.uid ≡ d.info.uid)
  unfolding Device.toggle
  toggle_keeps d enabled w = (refl, refl)

  pub toggle_device-Refines :
      (key : Key) (enabled : Bool) (m : Manager W U)
      → IsConsistent m
      → Refines m (toggle_device host key enabled m).1
  unfolding toggle_device
  toggle_device-Refines key enabled m v = elim (find_device_lem key m v) [
    | inl e ↦ rw e (Refines-again m v)
    | inr (p, d, e, at, entry, named) ↦
        let (changed, w) = Device.toggle host.platform d enabled m.shared.outside in
        let (index, uid) = toggle_keeps d enabled m.shared.outside in
        rw e (
          saved m (store p changed (with_outside host m w))
            (stored m p d changed w v at entry index uid))
  ]

  -- What `bind` and `connect` of a device keep.
  abbrev Keeps : (Device → DeviceEndpointInfo → W → Result Device × W) → Type 0
  Keeps change =
      (d : Device) (e : DeviceEndpointInfo) (w : W) (c : Device)
      → (change d e w).0 ≡ ok c
      → (c.info.index ≡ d.info.index) × (c.info.uid ≡ d.info.uid)

  pub bind-Keeps : Keeps (Device.bind host.platform)
  unfolding Device.bind
  bind-Keeps d e w c h =
      let (u, _, h) = and_then_ok (bind host.platform.roc d.net_transceiver e w) _ h in
      ground (arith, h)

  pub connect-Keeps : Keeps (Device.connect host.platform)
  unfolding Device.connect
  connect-Keeps d e w c h =
      let (u, _, h) = and_then_ok (connect host.platform.roc d.net_transceiver e w) _ h in
      ground (arith, h)

  -- What is answered after a save leaves its state.
  pub answer_state :
      {A B : Type 0} (a : A) (r : Result B × Manager W U) → (and_then r (λ _ l. (ok a, l))).1 ≡ r.1
  answer_state a (throw x, m) = refl
  answer_state a (ok b, m) = refl

  -- After the device has changed, or has thrown.
  after_change :
      (m : Manager W U) (p : ℕ) (d : Device) (endpoint : DeviceEndpointInfo) (r : Result Device × W)
      → IsConsistent m
      → m.heap p ≡ some d
      → find_key d.info.index m.device_by_index ≡ some p
      → ((c : Device) → r.0 ≡ ok c → (c.info.index ≡ d.info.index) × (c.info.uid ≡ d.info.uid))
      → Refines m
          (and_then
            (r.0, with_outside host m r.1)
            (λ changed k. and_then (save host (store p changed k)) (λ _ l. (ok endpoint, l)))).1
  after_change m p d endpoint (throw x, w) v at entry keeps =
      (outside-IsConsistent m w v, unchanged (λ j. refl))
  after_change m p d endpoint (ok c, w) v at entry keeps =
      let (index, uid) = keeps c refl in
      let after = store p c (with_outside host m w) in
      rw (answer_state endpoint (save host after))
        (saved m after (stored m p d c w v at entry index uid))

  pub change_endpoints-Refines :
      (change : Device → DeviceEndpointInfo → W → Result Device × W) (key : Key)
      (endpoint : DeviceEndpointInfo) (m : Manager W U)
      → Keeps change
      → IsConsistent m
      → Refines m (change_endpoints host change key endpoint m).1
  change_endpoints-Refines change key endpoint m keeps v = elim (find_device_lem key m v) [
    | inl e ↦ rw e (Refines-again m v)
    | inr (p, d, e, at, entry, named) ↦ rw e (
        after_change m p d endpoint (change d endpoint m.shared.outside) v at entry
          (keeps d endpoint m.shared.outside))
  ]
