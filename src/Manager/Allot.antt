-- ===== src/Manager/Allot.antt =====
-- Adding and deleting a device in driver/device_manager.cpp: what becomes of the maps and the indices.
use roc_vad.Prelude.{
  ℕ, ◌^◌, ◌<◌, ◌≡◌, ◌≢◌, ◌⊎◌, inl, inr, refl, ◌∙◌, ap, true, false, not, ◌&&◌, none, ◌==◌,
  if◌then◌else◌, arith, Bool-cases, Option-cases,
}
use roc_vad.Result.{Result, ok, throw, invalid_argument}
use roc_vad.Exec.{and_then}
use roc_vad.Defs.{DeviceInfo, is_empty}
use roc_vad.Index.{is_free}
use roc_vad.Index.Alloc.{IsValid, release_exact}
use roc_vad.Device.{Device, Shared, construct, destroy}
use roc_vad.Device.Laws.{construct_index_all, construct-uid, destroy-allocator}
use roc_vad.Manager.{
  Host, Manager, Key, find_key, is_some, save, insert, forget, make_device, add_device,
  delete_device,
}
use roc_vad.Manager.Consistent.{IsConsistent, insert-IsConsistent, remove-IsConsistent}
use roc_vad.Manager.Table.{unchanged}
use roc_vad.Manager.View.{insert-Step, remove-Step}
use roc_vad.Manager.Refine.{Refines, Refines-again, find_device_lem, saved, answer_state}

module _ {W U D B : Type 0} (host : Host W U D B) where
  pub delete_device-Refines :
      (key : Key) (m : Manager W U) → IsConsistent m → Refines host m (delete_device host key m).1
  unfolding delete_device save
  delete_device-Refines key m v = elim (find_device_lem host key m v) [
    | inl e ↦ rw e (Refines-again host m v)
    | inr (p, d, e, at, entry, named) ↦
        let (nonzero, small, used) = v.taken d.info.index p entry in
        let n = (save host (forget d m)).1 in
        let s = destroy host.platform d n.shared in
        let given : (j : ℕ)
            → (is_free s.index_allocator j
                ≡ (if d.info.index == j then true else is_free m.shared.index_allocator j))
              × IsValid s.index_allocator =
          λ j. rw (destroy-allocator host.platform d n.shared nonzero) (
            release_exact m.shared.index_allocator d.info.index j v.allocator nonzero small used) in
        rw e (
          remove-IsConsistent m s p d v at entry (λ j. (given j).0) (given 0).1,
          remove-Step m s p d v at entry,
        )
  ]

  -- What `construct` leaves of the indices.
  abbrev pub Taken : Manager W U → Shared W U → Result Device → Type 0
  Taken m s r =
      ((r ≡ throw invalid_argument) × (s.index_allocator ≡ m.shared.index_allocator))
      ⊎ ((n : ℕ) × (n ≢ 0)
          × (n < 2 ^ 32)
          × (is_free m.shared.index_allocator n ≡ true)
          × ((j : ℕ)
              → is_free s.index_allocator j
                ≡ (if n == j then false else is_free m.shared.index_allocator j))
          × IsValid s.index_allocator
          × ((d : Device) → r ≡ ok d → d.info.index ≡ n))

  -- More indices are taken; the maps are as they were.
  reshare-IsConsistent :
      (m : Manager W U) (s : Shared W U)
      → IsConsistent m
      → ((j : ℕ) → is_free m.shared.index_allocator j ≡ false → is_free s.index_allocator j ≡ false)
      → IsValid s.index_allocator
      → IsConsistent (record m { shared = s })
  reshare-IsConsistent m s v keeps valid = record {
    indexed = v.indexed;
    named = v.named;
    taken = λ i p h. let (nonzero, small, used) = v.taken i p h in (nonzero, small, keeps i used);
    fresh = v.fresh;
    ordered = v.ordered;
    allocator = valid;
  }

  refused-IsConsistent :
      (m : Manager W U) (s : Shared W U) (r : Result Device)
      → IsConsistent m
      → Taken m s r
      → IsConsistent (record m { shared = s })
  refused-IsConsistent m s r v (inl (_, same)) =
      reshare-IsConsistent m s v (λ j h. ap (λ a. is_free a j) same ∙ h) (rw same v.allocator)
  refused-IsConsistent m s r v (inr (n, _, _, _, frame, valid, _)) =
      reshare-IsConsistent m s v (λ j h. ground (arith, frame j)) valid

  -- The rest of `add_device`, after the constructor.
  after_make :
      (m : Manager W U) (s : Shared W U) (r : Result Device)
      → IsConsistent m
      → Taken m s r
      → ((d : Device) → r ≡ ok d → m.device_by_uid d.info.uid ≡ none)
      → Refines host m
          (and_then
            (r, record m { shared = s })
            (λ d n. and_then (save host (insert d n)) (λ _ k. (ok d.info, k)))).1
  after_make m s (throw e) v h unused =
      (refused-IsConsistent m s (throw e) v h, unchanged (λ j. refl))
  after_make m s (ok d) v (inl (thrown, _)) unused = absurd (ground (arith, thrown))
  after_make m s (ok d) v (inr (n, nonzero, small, free, frame, valid, index)) unused =
      let e = index d refl in
      let made = insert d (record m { shared = s }) in
      rw (answer_state host d.info (save host made)) (
        saved host m made (
          insert-IsConsistent m s d v (rw e nonzero) (rw e small) (rw e free) (rw e frame) valid
              (unused d refl),
          insert-Step m s d v (rw e free) (unused d refl),
        ))

  -- The UID of a device that is made is not in use.
  uid_unused :
      (info : DeviceInfo) (m : Manager W U) (d : Device)
      → (not (is_empty info.uid) && is_some (m.device_by_uid info.uid)) ≡ false
      → (is_empty info.uid ≡ true
          → m.device_by_uid (host.platform.source.generate_uid m.shared.uid_generator).0 ≡ none)
      → (construct host.platform info m.shared).0 ≡ ok d
      → m.device_by_uid d.info.uid ≡ none
  uid_unused info m d free generated made =
      rw (construct-uid host.platform info m.shared d made) (elim (Bool-cases (is_empty info.uid)) [
        | inl nothing ↦ ground (arith, generated nothing)
        | inr given ↦ elim (Option-cases (m.device_by_uid info.uid)) [
          | inl unknown ↦ ground arith
          | inr (p, known) ↦ absurd (ground arith)
        ]
      ])

  pub add_device-Refines :
      (info : DeviceInfo) (m : Manager W U) (some_free : ℕ)
      → IsConsistent m
      → info.index < 2 ^ 32
      → some_free < 2 ^ 32
      → is_free m.shared.index_allocator some_free ≡ true
      → (is_empty info.uid ≡ true
          → m.device_by_uid (host.platform.source.generate_uid m.shared.uid_generator).0 ≡ none)
      → Refines host m (add_device host info m).1
  unfolding add_device make_device
  add_device-Refines info m some_free v small low free generated =
      elim (Bool-cases (not (info.index == 0) && is_some (find_key info.index m.device_by_index))) [
        | inl used ↦ rw used (Refines-again host m v)
        | inr unused_index ↦
            elim (Bool-cases (not (is_empty info.uid) && is_some (m.device_by_uid info.uid))) [
              | inl used ↦ rw (unused_index, used) (Refines-again host m v)
              | inr unused ↦
                  let (r, s) = construct host.platform info m.shared in
                  let taken : Taken m s r =
                    elim (construct_index_all host.platform info m.shared some_free v.allocator
                      small low free) [
                        | inl (thrown, _, same) ↦ inl (thrown, same)
                        | inr made ↦ inr made
                      ] in
                  rw (unused_index, unused)
                    (after_make m s r v taken (λ d. uid_unused info m d unused generated))
            ]
      ]
