-- ===== src/Manager/Commands.antt =====
-- Sequences of requests to driver/device_manager.cpp: the table of devices stays consistent, and only
-- the changes of a table are seen.
use text.Mathlib.TextEquality.{eq_iff}
use roc_vad.Prelude.{
  ℕ, sym, ap, ◌∙◌, not, ◌&&◌, inl, inr, Bool-cases, ◌^◌, ◌<◌, ◌≡◌, map, ◌++◌, refl, Bool, true,
  List, [], ◌∷◌, none, ◌==◌, arith,
}
use roc_vad.Result.{Result, ok, throw}
use roc_vad.Exec.{and_then, and_then_ok}
use roc_vad.Defs.{DeviceInfo, DeviceEndpointInfo, is_empty}
use roc_vad.Index.{is_free}
use roc_vad.Index.Alloc.{create_lem}
use roc_vad.Storage.{load_devices}
use roc_vad.Device.{Device}
use roc_vad.Device
use roc_vad.Manager.{
  Host, Manager, Key, by_index, by_uid, find_key, is_some, with_outside, save, insert, make_device,
  blank, create, add_each, get_device, add_device, delete_device, toggle_device, bind_device,
  connect_device,
}
use roc_vad.Manager.Lookup.{find_key-put}
use roc_vad.Manager.Consistent.{IsConsistent}
use roc_vad.Manager.Table.{Reach, here, next}
use roc_vad.Manager.View.{view}
use roc_vad.Manager.Refine.{
  Refines, answer_state, toggle_device-Refines, bind-Keeps, connect-Keeps, change_endpoints-Refines,
}
use roc_vad.Manager.Allot.{add_device-Refines, delete_device-Refines}

-- A request that changes the devices.
pub data Command : Type 0 where
  add : DeviceInfo → Command
  delete : Key → Command
  toggle : Key → Bool → Command
  bind : Key → DeviceEndpointInfo → Command
  connect : Key → DeviceEndpointInfo → Command

module _ {W U D B : Type 0} (host : Host W U D B) where
  -- The state after a request, whether it succeeds or throws.
  abbrev pub perform : Command → Manager W U → Manager W U
  perform (add info) m = (add_device host info m).1
  perform (delete key) m = (delete_device host key m).1
  perform (toggle key enabled) m = (toggle_device host key enabled m).1
  perform (bind key endpoint) m = (bind_device host key endpoint m).1
  perform (connect key endpoint) m = (connect_device host key endpoint m).1

  abbrev pub run : List Command → Manager W U → Manager W U
  run [] m = m
  run (c ∷ cs) m = run cs (perform c m)

  -- A device is added only while an index is free; its index has 32 bits, and a UID that is
  -- generated for it is not in use.
  abbrev pub Allowed : Command → Manager W U → Type 0
  Allowed (add info) m =
      (some_free : ℕ) × (some_free < 2 ^ 32)
      × (is_free m.shared.index_allocator some_free ≡ true)
      × (info.index < 2 ^ 32)
      × (is_empty info.uid ≡ true
          → m.device_by_uid (host.platform.source.generate_uid m.shared.uid_generator).0 ≡ none)
  Allowed _ m = Unit

  abbrev pub AllAllowed : List Command → Manager W U → Type 0
  AllAllowed [] m = Unit
  AllAllowed (c ∷ cs) m = Allowed c m × AllAllowed cs (perform c m)

  pub perform-Refines :
      (c : Command) (m : Manager W U) → IsConsistent m → Allowed c m → Refines host m (perform c m)
  unfolding bind_device connect_device
  perform-Refines (add info) m v (i, low, free, small, unused) =
      add_device-Refines host info m i v small low free unused
  perform-Refines (delete key) m v a = delete_device-Refines host key m v
  perform-Refines (toggle key enabled) m v a = toggle_device-Refines host key enabled m v
  perform-Refines (bind key endpoint) m v a =
      change_endpoints-Refines host (Device.bind host.platform) key endpoint m (bind-Keeps host) v
  perform-Refines (connect key endpoint) m v a =
      change_endpoints-Refines host (Device.connect host.platform) key endpoint m
        (connect-Keeps host) v

  run-Reach :
      (cs : List Command) (m : Manager W U)
      → IsConsistent m
      → AllAllowed cs m
      → IsConsistent (run cs m) × Reach (view m) (view (run cs m))
  run-Reach [] m v a = (v, here (view m))
  run-Reach (c ∷ cs) m v (a, rest) =
      let (consistent, step) = perform-Refines c m v a in
      let (final, reach) = run-Reach cs (perform c m) consistent rest in (final, next step reach)

  pub blank-IsConsistent : (u : U) (w : W) → IsConsistent (blank host u w)
  unfolding find_key
  blank-IsConsistent u w = record {
    indexed = λ i p h. absurd (ground (arith, h));
    named = λ u p h. absurd (ground (arith, h));
    taken = λ i p h. absurd (ground (arith, h));
    fresh = λ p h. refl;
    ordered = tt;
    allocator = (create_lem 0).0;
  }

  run-append : (xs ys : List Command) (m : Manager W U) → run (xs ++ ys) m ≡ run ys (run xs m)
  run-append [] ys m = refl
  run-append (c ∷ xs) ys m = run-append xs ys (perform c m)

  pub add_each-run :
      (devices : List DeviceInfo) (m : Manager W U)
      → add_each host devices m ≡ run (map add devices) m
  unfolding add_each
  add_each-run [] m = refl
  add_each-run (info ∷ rest) m = add_each-run rest (add_device host info m).1

  -- The requests that the stored devices and a client make of a new manager.
  abbrev pub history : W → List Command → List Command
  history w cs = map add (load_devices host.storage host.time host.default_slot w) ++ cs

  -- From the constructor on, which adds the stored devices, and after any sequence of requests, each
  -- of which may succeed or throw, the two maps, the device objects and the index allocator are
  -- consistent; and the table of devices has come from the empty one by steps that add a device with
  -- an index and a UID that are not in use, delete a device, or change one that keeps both. It is
  -- assumed that a device, also one of the storage, is added only while an index is free and with an
  -- index of 32 bits, and that a UID that is generated for it is in no use at that time.
  pub run-create-Reach :
      (u : U) (w : W) (cs : List Command)
      → AllAllowed (history w cs) (blank host u w)
      → let m = run cs (create host u w) in IsConsistent m × Reach (λ j. none) (view m)
  unfolding create find_key
  run-create-Reach u w cs allowed =
      let devices = load_devices host.storage host.time host.default_slot w in
      rw
        (
          add_each-run devices (blank host u w),
          sym (run-append (map add devices) cs (blank host u w)),
        )
        (run-Reach (history w cs) (blank host u w) (blank-IsConsistent u w) allowed)

  -- A new device is found by its index and by its UID.
  found_new :
      (d : Device) (m : Manager W U) (w : W)
      → let n = with_outside host (insert d m) w in
        (get_device host (by_index d.info.index) n ≡ (ok d.info, n))
        × (get_device host (by_uid d.info.uid) n ≡ (ok d.info, n))
  unfolding get_device
  found_new d m w = (
    rw (find_key-put d.info.index d.info.index m.next m.device_by_index) (ground arith),
    ground (arith, eq_iff d.info.uid d.info.uid),
  )

  found_after :
      (d : Device) (m n : Manager W U) (w : W) (result : DeviceInfo)
      → d.info ≡ result
      → n ≡ with_outside host (insert d m) w
      → (get_device host (by_index result.index) n ≡ (ok result, n))
        × (get_device host (by_uid result.uid) n ≡ (ok result, n))
  found_after d m n w result same state = rw (state, sym same) (found_new d m w)

  -- `add_device` succeeds only with a device in its maps.
  pub added_state :
      (r : Result Device × Manager W U) (result : DeviceInfo)
      → let end = and_then r (λ d n. and_then (save host (insert d n)) (λ _ k. (ok d.info, k))) in
        end.0 ≡ ok result
        → (d : Device) × (d.info ≡ result) × (end.1 ≡ (save host (insert d r.1)).1)
  added_state (throw e, m) result h = absurd (ground (arith, h))
  added_state (ok d, m) result h =
      let (_, _, e) = and_then_ok (save host (insert d m)) _ h in
      (d, ground (arith, e), answer_state host d.info (save host (insert d m)))

  -- `add_device` succeeds only past its checks.
  pub past_checks :
      (info result : DeviceInfo) (m : Manager W U)
      → (add_device host info m).0 ≡ ok result
      → add_device host info m
        ≡ and_then
            (make_device host info m)
            (λ d n. and_then (save host (insert d n)) (λ _ k. (ok d.info, k)))
  unfolding add_device
  past_checks info result m h =
      elim (Bool-cases (not (info.index == 0) && is_some (find_key info.index m.device_by_index))) [
        | inl used ↦ absurd (ground (arith, h, used))
        | inr unused_index ↦
            elim (Bool-cases (not (is_empty info.uid) && is_some (m.device_by_uid info.uid))) [
              | inl used ↦ absurd (ground (arith, h, used, unused_index))
              | inr unused ↦ rw (unused_index, unused)
            ]
      ]

  -- The description that `add_device` returns is the one that `get_device` returns afterwards, for its
  -- index and for its UID.
  pub get_device-add_device :
      (info result : DeviceInfo) (m : Manager W U)
      → (add_device host info m).0 ≡ ok result
      → let n = (add_device host info m).1 in
        (get_device host (by_index result.index) n ≡ (ok result, n))
        × (get_device host (by_uid result.uid) n ≡ (ok result, n))
  unfolding save
  get_device-add_device info result m h =
      let e = past_checks info result m h in
      let (d, same, state) =
        added_state (make_device host info m) result (ap (λ p. p.0) (sym e) ∙ h) in
      found_after d (make_device host info m).1 _ _ result same (ap (λ p. p.1) e ∙ state)
