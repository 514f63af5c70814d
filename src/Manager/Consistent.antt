-- ===== src/Manager/Consistent.antt =====
-- The two maps of driver/device_manager.cpp lead to the same objects, and their indices are taken.
use Prim.Native.String.{String}
use text.Mathlib.Text.{◌==◌ as str_eq}
use text.Mathlib.TextEquality.{eq_iff}
use roc_vad.Prelude.{
  ℕ, ◌^◌, ◌≤◌, ◌<◌, ◌≡◌, ◌≢◌, inl, inr, true, false, none, some, ◌==◌, if◌then◌else◌, arith,
  Bool-cases, Option-cases,
}
use roc_vad.Index.{is_free}
use roc_vad.Index.Alloc.{IsValid}
use roc_vad.Device.{Device, Shared}
use roc_vad.Manager.{Manager, find_key, store, insert, forget}
use roc_vad.Manager.Lookup.{
  find_key-put, find_key-erase, IsIncreasing, put-IsIncreasing, erase-IsIncreasing,
}

module _ {W U : Type 0} where
  -- An entry by index leads to an object with that index, to which its UID leads too; and so for an
  -- entry by UID.
  pub record IsConsistent (m : Manager W U) : Type 0 where
    pub indexed :
        (i p : ℕ)
        → find_key i m.device_by_index ≡ some p
        → (d : Device) × (m.heap p ≡ some d)
          × (d.info.index ≡ i)
          × (m.device_by_uid d.info.uid ≡ some p)
    pub named :
        (u : String) (p : ℕ)
        → m.device_by_uid u ≡ some p
        → (d : Device) × (m.heap p ≡ some d)
          × (d.info.uid ≡ u)
          × (find_key d.info.index m.device_by_index ≡ some p)
    pub taken :
        (i p : ℕ)
        → find_key i m.device_by_index ≡ some p
        → (i ≢ 0) × (i < 2 ^ 32) × (is_free m.shared.index_allocator i ≡ false)
    pub fresh : (p : ℕ) → m.next ≤ p → m.heap p ≡ none
    pub ordered : IsIncreasing m.device_by_index
    pub allocator : IsValid m.shared.index_allocator

  pub store-IsConsistent :
      (m : Manager W U) (p : ℕ) (d e : Device)
      → IsConsistent m
      → m.heap p ≡ some d
      → e.info.index ≡ d.info.index
      → e.info.uid ≡ d.info.uid
      → IsConsistent (store p e m)
  store-IsConsistent m p d e v here same_index same_uid = record {
    indexed = λ i q h.
        let (x, at, index, uid) = v.indexed i q h in
        elim (Bool-cases (q == p)) [
          | inl same ↦ (e, ground arith, ground arith, ground arith)
          | inr other ↦ (x, ground arith, index, uid)
        ];
    named = λ u q h.
        let (x, at, uid, index) = v.named u q h in
        elim (Bool-cases (q == p)) [
          | inl same ↦ (e, ground arith, ground arith, ground arith)
          | inr other ↦ (x, ground arith, uid, index)
        ];
    taken = v.taken;
    fresh = λ q h. ground (arith, v.fresh q, v.fresh p);
    ordered = v.ordered;
    allocator = v.allocator;
  }

  -- An index that is free is in no table.
  pub find_key_free :
      (m : Manager W U) (i : ℕ)
      → IsConsistent m
      → is_free m.shared.index_allocator i ≡ true
      → find_key i m.device_by_index ≡ none
  find_key_free m i v free = elim (Option-cases (find_key i m.device_by_index)) [
    | inl nothing ↦ nothing
    | inr (p, found) ↦ ground (arith, v.taken i p found)
  ]

  -- A new object with an index that was free and a UID that no other has.
  pub insert-IsConsistent :
      (m : Manager W U) (s : Shared W U) (d : Device)
      → IsConsistent m
      → d.info.index ≢ 0
      → d.info.index < 2 ^ 32
      → is_free m.shared.index_allocator d.info.index ≡ true
      → ((j : ℕ)
          → is_free s.index_allocator j
            ≡ (if d.info.index == j then false else is_free m.shared.index_allocator j))
      → IsValid s.index_allocator
      → m.device_by_uid d.info.uid ≡ none
      → IsConsistent (insert d (record m { shared = s }))
  insert-IsConsistent m s d v nonzero small free frame valid fresh_uid =
      let n = d.info.index in
      record {
        indexed = λ i p h. elim (Bool-cases (n == i)) [
          | inl same ↦ (
            d,
            ground (arith, find_key-put i n m.next m.device_by_index),
            ground arith,
            ground (arith, eq_iff d.info.uid d.info.uid, find_key-put i n m.next m.device_by_index),
          )
          | inr other ↦
              let (x, at, index, uid) =
                v.indexed i p (ground (arith, find_key-put i n m.next m.device_by_index)) in
              (
                x,
                ground (arith, v.fresh m.next),
                index,
                ground (arith, eq_iff x.info.uid d.info.uid),
              )
        ];
        named = λ u p h. elim (Bool-cases (str_eq u d.info.uid)) [
          | inl same ↦ (
            d,
            ground arith,
            ground (arith, eq_iff u d.info.uid),
            ground (arith, find_key-put n n m.next m.device_by_index),
          )
          | inr other ↦
              let (x, at, uid, index) = v.named u p (ground arith) in
              (
                x,
                ground (arith, v.fresh m.next),
                uid,
                ground (
                  arith,
                  find_key-put x.info.index n m.next m.device_by_index,
                  find_key_free m n v free,
                ),
              )
        ];
        taken = λ i p h. elim (Bool-cases (n == i)) [
          | inl same ↦ (ground arith, ground arith, ground (arith, frame i))
          | inr other ↦
              let old = v.taken i p (ground (arith, find_key-put i n m.next m.device_by_index)) in
              (old.0, old.1, ground (arith, frame i, old))
        ];
        fresh = λ p h. ground (arith, v.fresh p);
        ordered = put-IsIncreasing n m.next m.device_by_index v.ordered;
        allocator = valid;
      }

  -- An object that leaves the maps and the heap, with its index.
  pub remove-IsConsistent :
      (m : Manager W U) (s : Shared W U) (p : ℕ) (d : Device)
      → IsConsistent m
      → m.heap p ≡ some d
      → find_key d.info.index m.device_by_index ≡ some p
      → ((j : ℕ)
          → is_free s.index_allocator j
            ≡ (if d.info.index == j then true else is_free m.shared.index_allocator j))
      → IsValid s.index_allocator
      → IsConsistent
          (record (forget d m) { heap = λ q. if q == p then none else m.heap q; shared = s })
  remove-IsConsistent m s p d v here entry frame valid =
      let n = d.info.index in
      let own = v.indexed n p entry in
      record {
        indexed = λ i q h.
            let (x, at, index, uid) =
              v.indexed i q (ground (arith, find_key-erase i n m.device_by_index)) in
            (
              x,
              ground (arith, find_key-erase i n m.device_by_index),
              index,
              ground
                  (arith, eq_iff x.info.uid d.info.uid, own, find_key-erase i n m.device_by_index),
            );
        named = λ u q h.
            let (x, at, uid, index) = v.named u q (ground arith) in
            (
              x,
              ground (arith, eq_iff u d.info.uid),
              uid,
              ground (arith, eq_iff u d.info.uid, find_key-erase x.info.index n m.device_by_index),
            );
        taken = λ i q h.
            let old = v.taken i q (ground (arith, find_key-erase i n m.device_by_index)) in
            (old.0, old.1, ground (arith, frame i, old, find_key-erase i n m.device_by_index));
        fresh = λ q h. ground (arith, v.fresh q);
        ordered = erase-IsIncreasing n m.device_by_index v.ordered;
        allocator = valid;
      }
