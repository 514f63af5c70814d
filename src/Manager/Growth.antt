-- ===== src/Manager/Growth.antt =====
-- Adding devices in driver/device_manager.cpp leaves those that are there.
use roc_vad.Prelude.{
  ℕ, ◌≡◌, inl, inr, refl, true, not, ◌&&◌, List, [], ◌∷◌, map, some, ◌==◌, arith, Bool-cases,
  Option-cases,
}
use roc_vad.Result.{Result, ok, throw}
use roc_vad.Exec.{and_then}
use roc_vad.Defs.{DeviceInfo, is_empty}
use roc_vad.Index.{is_free}
use roc_vad.Device.{Device, Shared, construct}
use roc_vad.Device.Laws.{construct_index_all}
use roc_vad.Manager.{
  Host, Manager, find_key, is_some, save, insert, make_device, add_device, add_each,
}
use roc_vad.Manager.Lookup.{find_key-put}
use roc_vad.Manager.Consistent.{IsConsistent, find_key_free}
use roc_vad.Manager.View.{view}
use roc_vad.Manager.Refine.{answer_state}
use roc_vad.Manager.Allot.{Taken}
use roc_vad.Manager.Commands.{add, Allowed, AllAllowed, perform-Refines}

module _ {W U : Type 0} where
  -- What is in the table stays in it.
  abbrev pub Grows : Manager W U → Manager W U → Type 0
  Grows m n = (j : ℕ) (k : DeviceInfo) → view m j ≡ some k → view n j ≡ some k

  insert-Grows :
      (m : Manager W U) (s : Shared W U) (d : Device)
      → IsConsistent m
      → is_free m.shared.index_allocator d.info.index ≡ true
      → Grows m (insert d (record m { shared = s }))
  insert-Grows m s d v free j k h = elim (Option-cases (find_key j m.device_by_index)) [
    | inl nothing ↦ absurd (ground (arith, nothing, h))
    | inr (q, found) ↦
        let n = d.info.index in
        let (x, at, index, uid) = v.indexed j q found in
        ground (
          arith,
          h,
          find_key-put j n m.next m.device_by_index,
          v.fresh m.next,
          find_key_free m n v free,
        )
  ]

module _ {W U D B : Type 0} (host : Host W U D B) where
  after_make-Grows :
      (m : Manager W U) (s : Shared W U) (r : Result Device)
      → IsConsistent m
      → Taken host m s r
      → Grows m
          (and_then
            (r, record m { shared = s })
            (λ d n. and_then (save host (insert d n)) (λ _ k. (ok d.info, k)))).1
  unfolding save
  after_make-Grows m s (throw e) v h = λ j k at. at
  after_make-Grows m s (ok d) v (inl (thrown, _)) = absurd (ground (arith, thrown))
  after_make-Grows m s (ok d) v (inr (n, nonzero, small, free, frame, valid, index)) =
      rw (answer_state host d.info (save host (insert d (record m { shared = s }))))
        (insert-Grows m s d v (rw (index d refl) free))

  add_device-Grows :
      (info : DeviceInfo) (m : Manager W U)
      → IsConsistent m
      → Allowed host (add info) m
      → Grows m (add_device host info m).1
  unfolding add_device make_device
  add_device-Grows info m v (some_free, low, free, small, generated) =
      elim (Bool-cases (not (info.index == 0) && is_some (find_key info.index m.device_by_index))) [
        | inl used ↦ rw used (λ j k at. at)
        | inr unused_index ↦
            elim (Bool-cases (not (is_empty info.uid) && is_some (m.device_by_uid info.uid))) [
              | inl used ↦ rw (unused_index, used) (λ j k at. at)
              | inr unused ↦
                  let (r, s) = construct host.platform info m.shared in
                  let taken : Taken host m s r =
                    elim (construct_index_all host.platform info m.shared some_free v.allocator
                      small low free) [
                        | inl (thrown, _, same) ↦ inl (thrown, same)
                        | inr made ↦ inr made
                      ] in
                  rw (unused_index, unused) (after_make-Grows m s r v taken)
            ]
      ]

  pub add_each-Grows :
      (devices : List DeviceInfo) (m : Manager W U)
      → IsConsistent m
      → AllAllowed host (map add devices) m
      → Grows m (add_each host devices m)
  unfolding add_each
  add_each-Grows [] m v allowed = λ j k at. at
  add_each-Grows (info ∷ rest) m v (first, others) = λ j k at.
      let n = (add_device host info m).1 in
      add_each-Grows rest n (perform-Refines host (add info) m v first).0 others j k
        (add_device-Grows info m v first j k at)

  pub add_each-IsConsistent :
      (devices : List DeviceInfo) (m : Manager W U)
      → IsConsistent m
      → AllAllowed host (map add devices) m
      → IsConsistent (add_each host devices m)
  unfolding add_each
  add_each-IsConsistent [] m v allowed = v
  add_each-IsConsistent (info ∷ rest) m v (first, others) =
      add_each-IsConsistent rest (add_device host info m).1
        (perform-Refines host (add info) m v first).0 others
