-- ===== src/Driver/Destroy.antt =====
-- The destruction of a device manager, by the order of its members in driver/device_manager.hpp.
use roc_vad.Prelude.{
  ℕ, zero, suc, ◌≡◌, ◌≢◌, inl, inr, refl, ap, ◌∙◌, Option-cases, false, List, [], ◌∷◌, Option, none,
  some, arith, ==_iff,
}
use roc_vad.Prelude.Maybe.{◌>>=◌}
use roc_vad.Index.{Allocator, release}
use roc_vad.Transceiver.{close}
use roc_vad.Device.{Device, toggle}
use roc_vad.Manager.{Host, Manager, find_key}
use roc_vad.Manager.Consistent.{IsConsistent}
use roc_vad.Driver.{
  Member, device_by_index, device_by_uid, index_allocator, uid_generator, device_storage,
  destruction, Teardown, release_index, destroy_device, destroy_objects, drop_map, destroy_member,
  destroy_members, destroy_manager,
}

-- The order in which the allocator would outlive the maps.
abbrev pub allocator_last : List Member
allocator_last =
    device_storage ∷ device_by_uid ∷ device_by_index ∷ uid_generator ∷ index_allocator ∷ []

module _ {W U D B : Type 0} (host : Host W U D B) where
  release_index_alive :
      (k : ℕ) (a : Allocator) → (b : Allocator) × (release_index k (some a) ≡ some (some b))
  unfolding release_index
  release_index_alive zero a = (a, refl)
  release_index_alive (suc k) a = (release a (suc k), refl)

  release_index_dead : (k : ℕ) → k ≢ 0 → release_index k none ≡ none
  unfolding release_index
  release_index_dead zero h = absurd (h refl)
  release_index_dead (suc k) h = refl

  destroy_device_alive :
      (d : Device) (t : Teardown W) (a : Allocator)
      → t.allocator ≡ some a
      → (t' : Teardown W) × (b : Allocator) × (destroy_device host d t ≡ some t')
        × (t'.allocator ≡ some b)
  unfolding destroy_device
  destroy_device_alive d t a alive =
      let (b, e) = release_index_alive d.info.index a in
      (
        record t {
          allocator = some b;
          outside =
              close host.platform.roc d.net_transceiver (toggle host.platform d false t.outside).1;
        },
        b,
        rw (alive, e),
        refl,
      )

  destroy_objects_alive :
      (m : List (ℕ × ℕ)) (t : Teardown W) (a : Allocator)
      → t.allocator ≡ some a
      → (t' : Teardown W) × (destroy_objects host m t ≡ some t')
  unfolding destroy_objects
  destroy_objects_alive [] t a alive = (t, refl)
  destroy_objects_alive ((i, p) ∷ m) t a alive = elim (Option-cases (t.heap p)) [
    | inl nothing ↦
        let (t', e) = destroy_objects_alive m t a alive in (t', rw (nothing, destroy_objects) e)
    | inr (d, at) ↦
        let (t1, b, e1, alive1) = destroy_device_alive d t a alive in
        let (t', e) = destroy_objects_alive m t1 b alive1 in
        (t', rw (at, destroy_objects) (rw e1 e))
  ]

  destroy_objects_dead :
      (i p : ℕ) (m : List (ℕ × ℕ)) (d : Device) (t : Teardown W)
      → t.heap p ≡ some d
      → d.info.index ≢ 0
      → t.allocator ≡ none
      → destroy_objects host ((i, p) ∷ m) t ≡ none
  unfolding destroy_objects destroy_device
  destroy_objects_dead i p m d t at nonzero dead =
      rw (at, destroy_objects) (rw (dead, release_index_dead d.info.index nonzero) refl)

  -- The manager when the first map goes last, with its allocator or without.
  abbrev at_last : Manager W U → Option Allocator → Teardown W
  at_last m a = record {
    allocator = a;
    maps = 0;
    entries = m.device_by_index;
    heap = m.heap;
    outside = m.shared.outside;
  }

  find_key_head : (i p : ℕ) (m : List (ℕ × ℕ)) → find_key i ((i, p) ∷ m) ≡ some p
  unfolding find_key
  find_key_head i p m = ground (arith, ==_iff i i)

  -- A manager with no device, and one with the objects of a consistent table.
  pub destroy_empty :
      (m : Manager W U)
      → m.device_by_index ≡ []
      → (t : Teardown W) × (destroy_manager host destruction m ≡ some t)
  unfolding destroy_manager destroy_members destroy_member drop_map destroy_objects
  destroy_empty m e =
      (at_last m none, ap (λ es. destroy_objects host es (at_last m none) >>= λ t. some t) e)

  pub destroy_some :
      (m : Manager W U) (entries : List (ℕ × ℕ))
      → IsConsistent m
      → m.device_by_index ≡ entries
      → entries ≢ []
      → destroy_manager host destruction m ≡ none
  unfolding destroy_manager destroy_members destroy_member drop_map
  destroy_some m [] v e h = absurd (h refl)
  destroy_some m ((i, p) ∷ rest) v e h =
      let found : find_key i m.device_by_index ≡ some p =
        ap (find_key i) e ∙ find_key_head i p rest in
      let (d, at, index, _) = v.indexed i p found in
      let (nonzero, _, _) = v.taken i p found in
      ap (λ es. destroy_objects host es (at_last m none) >>= λ t. some t) e
      ∙ rw (destroy_objects_dead i p rest d (at_last m none) at (rw index nonzero) refl)

  pub destroy_last :
      (m : Manager W U) → (t : Teardown W) × (destroy_manager host allocator_last m ≡ some t)
  unfolding destroy_manager destroy_members destroy_member drop_map
  destroy_last m =
      let a = m.shared.index_allocator in
      let (t, e) = destroy_objects_alive m.device_by_index (at_last m (some a)) a refl in
      (record t { allocator = none }, rw e refl)
