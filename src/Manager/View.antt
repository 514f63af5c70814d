-- ===== src/Manager/View.antt =====
-- The table that the maps and objects of driver/device_manager.cpp stand for.
use roc_vad.Prelude.{
  ℕ, ◌≡◌, inl, inr, refl, true, Option, none, some, ◌==◌, if◌then◌else◌, arith, Option-cases,
}
use roc_vad.Defs.{DeviceInfo}
use roc_vad.Index.{is_free}
use roc_vad.Device.{Device, Shared}
use roc_vad.Manager.{Manager, find_key, store, insert, forget}
use roc_vad.Manager.Lookup.{find_key-put, find_key-erase}
use roc_vad.Manager.Consistent.{IsConsistent, find_key_free}
use roc_vad.Manager.Table.{Table, Step, added, deleted, changed}

abbrev pub info_of : Option Device → Option DeviceInfo
info_of none = none
info_of (some d) = some d.info

module _ {W U : Type 0} where
  abbrev pub info_at : Manager W U → Option ℕ → Option DeviceInfo
  info_at m none = none
  info_at m (some p) = info_of (m.heap p)

  -- The abstraction.
  abbrev pub view : Manager W U → Table
  view m i = info_at m (find_key i m.device_by_index)

  -- A description in the table is that of an object with its index, which its UID leads to.
  pub view_found :
      (m : Manager W U) (j : ℕ) (k : DeviceInfo)
      → IsConsistent m
      → view m j ≡ some k
      → (p : ℕ) × (find_key j m.device_by_index ≡ some p)
        × (k.index ≡ j)
        × (m.device_by_uid k.uid ≡ some p)
  view_found m j k v h = elim (Option-cases (find_key j m.device_by_index)) [
    | inl nothing ↦ absurd (ground (arith, nothing))
    | inr (p, found) ↦
        let (d, at, index, uid) = v.indexed j p found in
        (p, found, ground (arith, at), ground (arith, at))
  ]

  pub store-Step :
      (m : Manager W U) (p : ℕ) (d e : Device)
      → IsConsistent m
      → m.heap p ≡ some d
      → find_key d.info.index m.device_by_index ≡ some p
      → e.info.index ≡ d.info.index
      → e.info.uid ≡ d.info.uid
      → Step (view m) (view (store p e m))
  store-Step m p d e v here entry same_index same_uid =
      changed d.info.index d.info e.info (ground arith) same_index same_uid (λ j.
        elim (Option-cases (find_key j m.device_by_index)) [
          | inl nothing ↦ ground arith
          | inr (q, found) ↦ let (x, at, index, uid) = v.indexed j q found in ground arith
        ])

  pub insert-Step :
      (m : Manager W U) (s : Shared W U) (d : Device)
      → IsConsistent m
      → is_free m.shared.index_allocator d.info.index ≡ true
      → m.device_by_uid d.info.uid ≡ none
      → Step (view m) (view (insert d (record m { shared = s })))
  insert-Step m s d v free fresh_uid =
      let n = d.info.index in
      added n d.info refl (ground (arith, find_key_free m n v free))
        (λ j k h e. let (p, found, index, uid) = view_found m j k v h in ground arith)
        (λ j. elim (Option-cases (find_key j m.device_by_index)) [
          | inl nothing ↦ ground (arith, find_key-put j n m.next m.device_by_index)
          | inr (q, found) ↦
              let (x, at, index, uid) = v.indexed j q found in
              ground (arith, find_key-put j n m.next m.device_by_index, v.fresh m.next)
        ])

  pub remove-Step :
      (m : Manager W U) (s : Shared W U) (p : ℕ) (d : Device)
      → IsConsistent m
      → m.heap p ≡ some d
      → find_key d.info.index m.device_by_index ≡ some p
      → Step
          (view m)
          (view (record (forget d m) { heap = λ q. if q == p then none else m.heap q; shared = s }))
  remove-Step m s p d v here entry =
      let n = d.info.index in
      deleted n d.info (ground arith) (λ j. elim (Option-cases (find_key j m.device_by_index)) [
        | inl nothing ↦ ground (arith, find_key-erase j n m.device_by_index)
        | inr (q, found) ↦
            let (x, at, index, uid) = v.indexed j q found in
            ground (arith, find_key-erase j n m.device_by_index)
      ])
