-- ===== src/Manager/Restart.antt =====
-- The constructor of driver/device_manager.cpp and the devices of the storage: each that is added stays.
use roc_vad.Prelude.{
  ==_iff, ℕ, ◌≡◌, ◌≢◌, ◌⊎◌, inl, inr, refl, sym, ap, ◌∙◌, true, false, List, [], ◌∷◌, map, some,
  ◌==◌, arith, All, Bool-cases, Option-cases,
}
use roc_vad.Result.{Result, ok, throw}
use roc_vad.Defs.{DeviceInfo, is_empty}
use roc_vad.Index.{Allocator, acquire}
use roc_vad.Exec.{and_then_ok}
use roc_vad.Device.{Device, construct, take_device_index, take_index}
use roc_vad.Device.Laws.{construct-index, construct-uid}
use roc_vad.Storage.{load_devices}
use roc_vad.Manager.{
  Host, Manager, by_index, by_uid, find_key, save, insert, make_device, get_device, add_device,
  add_each, blank, create,
}
use roc_vad.Manager.Consistent.{IsConsistent}
use roc_vad.Manager.View.{view, view_found}
use roc_vad.Manager.Commands.{
  add, AllAllowed, perform-Refines, blank-IsConsistent, past_checks, get_device-add_device,
}
use roc_vad.Manager.Growth.{add_each-Grows, add_each-IsConsistent}

module _ {W U D B : Type 0} (host : Host W U D B) where
  -- A description that `get_device` answers for an index is the one in the table.
  view_of :
      (i : ℕ) (k : DeviceInfo) (m n : Manager W U)
      → get_device host (by_index i) m ≡ (ok k, n)
      → view m i ≡ some k
  unfolding get_device
  view_of i k m n h = elim (Option-cases (find_key i m.device_by_index)) [
    | inl nothing ↦ absurd (ground (arith, nothing, h))
    | inr (p, found) ↦ ground (arith, found, h)
  ]

  -- And the table's description is answered for its index and for its UID.
  get_device-view :
      (i : ℕ) (k : DeviceInfo) (m : Manager W U)
      → IsConsistent m
      → view m i ≡ some k
      → (get_device host (by_index k.index) m ≡ (ok k, m))
        × (get_device host (by_uid k.uid) m ≡ (ok k, m))
  unfolding get_device
  get_device-view i k m v h =
      let (p, found, index, uid) = view_found m i k v h in
      let (d, at, _, _) = v.indexed i p found in
      (ground (arith, found, at), ground (arith, uid, at))

  take_device_index_own :
      (index n : ℕ) (a : Allocator) → index ≢ 0 → (take_device_index index a).0 ≡ ok n → n ≡ index
  unfolding take_device_index
  take_device_index_own index n a nonzero h = elim (Option-cases (acquire a index)) [
    | inl nothing ↦ absurd (ground (arith, nothing, h))
    | inr (b, taken) ↦ ground (arith, taken, h)
  ]

  ok-injective : {A : Type 0} {a b : A} → ok a ≡ ok b → a ≡ b
  ok-injective h = cc

  -- A made device has taken an index.
  own_index :
      (info : DeviceInfo) (m : Manager W U) (d : Device)
      → info.index ≢ 0
      → (make_device host info m).0 ≡ ok d
      → d.info.index ≡ info.index
  unfolding make_device construct
  own_index info m d nonzero made =
      let (n, taken, _) = and_then_ok (take_index host.platform info.index m.shared) _ made in
      construct-index host.platform info m.shared d n taken made
      ∙ take_device_index_own info.index n m.shared.index_allocator nonzero taken

  own_uid :
      (info : DeviceInfo) (m : Manager W U) (d : Device)
      → is_empty info.uid ≡ false
      → (make_device host info m).0 ≡ ok d
      → d.info.uid ≡ info.uid
  unfolding make_device
  own_uid info m d given made = construct-uid host.platform info m.shared d made ∙ rw given

  -- The description that is answered has the index and the UID that were asked for.
  add_device_own :
      (info result : DeviceInfo) (m : Manager W U)
      → (add_device host info m).0 ≡ ok result
      → ((info.index ≡ 0) ⊎ (result.index ≡ info.index))
        × ((is_empty info.uid ≡ true) ⊎ (result.uid ≡ info.uid))
  unfolding make_device
  add_device_own info result m h =
      let e = past_checks host info result m h in
      let (d, made, h) = and_then_ok (make_device host info m) _ (ap (λ p. p.0) (sym e) ∙ h) in
      let (_, _, h) = and_then_ok (save host (insert d (make_device host info m).1)) _ h in
      let same : d.info ≡ result = ok-injective h in
      (
        elim (Bool-cases (info.index == 0)) [
          | inl nothing ↦ inl ((==_iff info.index 0).0 nothing)
          | inr given ↦
              let nonzero : info.index ≢ 0 = ground (arith, given) in
              inr (ap (λ (i : DeviceInfo). i.index) (sym same) ∙ own_index info m d nonzero made)
        ],
        elim (Bool-cases (is_empty info.uid)) [
          | inl nothing ↦ inl nothing
          | inr given ↦
              inr (ap (λ (i : DeviceInfo). i.uid) (sym same) ∙ own_uid info m d given made)
        ],
      )

  -- What the constructor gets for each description of the storage.
  abbrev pub outcomes : List DeviceInfo → Manager W U → List (DeviceInfo × Result DeviceInfo)
  outcomes [] m = []
  outcomes (info ∷ rest) m =
      (info, (add_device host info m).0) ∷ outcomes rest (add_device host info m).1

  -- A device that was added is found, and has the index and the UID of its description, where there
  -- are such.
  abbrev pub Restored : Manager W U → DeviceInfo × Result DeviceInfo → Type 0
  Restored n (info, throw e) = Unit
  Restored n (info, ok result) =
      ((info.index ≡ 0) ⊎ (result.index ≡ info.index))
      × ((is_empty info.uid ≡ true) ⊎ (result.uid ≡ info.uid))
      × (get_device host (by_index result.index) n ≡ (ok result, n))
      × (get_device host (by_uid result.uid) n ≡ (ok result, n))

  -- The same for the answer of `add_device`, before it is known.
  answered :
      (n : Manager W U) (info : DeviceInfo) (r : Result DeviceInfo)
      → ((result : DeviceInfo) → r ≡ ok result → Restored n (info, ok result))
      → Restored n (info, r)
  answered n info (throw e) h = tt
  answered n info (ok result) h = h result refl

  add_each-Restored :
      (devices : List DeviceInfo) (m : Manager W U)
      → IsConsistent m
      → AllAllowed host (map add devices) m
      → All (Restored (add_each host devices m)) (outcomes devices m)
  unfolding add_each
  add_each-Restored [] m v allowed = tt
  add_each-Restored (info ∷ rest) m v (first, others) =
      let n = (add_device host info m).1 in
      let vn = (perform-Refines host (add info) m v first).0 in
      (
        answered (add_each host rest n) info (add_device host info m).0 (λ result success.
            let (index, uid) = add_device_own info result m success in
            let (found, _) = get_device-add_device host info result m success in
            let stays =
              add_each-Grows host rest n vn others result.index result
                (view_of result.index result n n found) in
            let end = add_each-IsConsistent host rest n vn others in
            let answers = get_device-view result.index result (add_each host rest n) end stays in
            (index, uid, answers.0, answers.1)),
        add_each-Restored rest n vn others,
      )

  -- The constructor asks for each description of the storage in turn, and goes on where one is
  -- refused. Each device that is added is still there when it returns: `get_device` answers the same
  -- description for its index and for its UID, which are those of the storage where the storage has
  -- them. It is assumed that an index is free for each device, that stored indices have 32 bits, and
  -- that a generated UID is not in use.
  pub create-Restored :
      (u : U) (w : W)
      → let devices = load_devices host.storage host.time host.default_slot w in
        AllAllowed host (map add devices) (blank host u w)
        → All (Restored (create host u w)) (outcomes devices (blank host u w))
  unfolding create
  create-Restored u w allowed =
      add_each-Restored (load_devices host.storage host.time host.default_slot w) (blank host u w)
        (blank-IsConsistent host u w) allowed
