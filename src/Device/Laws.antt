-- ===== src/Device/Laws.antt =====
-- What the constructor of driver/device.cpp does with the index of the device.
use Prim.Native.String.{String}
use roc_vad.Prelude.{
  ℕ, ◌^◌, ◌<◌, ◌≡◌, ◌≢◌, ◌⊎◌, inl, inr, refl, true, false, ◌==◌, if◌then◌else◌, arith, sym, ◌∙◌, ap,
}
use roc_vad.Result.{Result, ok, throw, invalid_argument}
use roc_vad.Exec.{and_then_keeps, and_then_throws, and_then_ok, lift}
use roc_vad.Defs.{DeviceInfo, is_empty}
use roc_vad.Index.{is_free, release}
use roc_vad.Index.Alloc.{IsValid, release_exact}
use roc_vad.Device.Taken.{take_device_index_lem}
use roc_vad.Device.{
  Platform, Shared, Device, device_channels, compute_buffer_samples, take_device_index, take_index,
  choose_uid, start, construct, destroy, toggle, open_transceiver, bind_all, with_sorted,
}

module _ {W U : Type 0} (platform : Platform W U) where
  choose_uid_keeps :
      (uid : String) (s : Shared W U)
      → (choose_uid platform uid s).1.index_allocator ≡ s.index_allocator
  choose_uid_keeps uid s = ground arith

  -- Nothing after the first step changes the allocator.
  construct-allocator :
      (i : DeviceInfo) (s : Shared W U)
      → (construct platform i s).1.index_allocator ≡ (take_device_index i.index s.index_allocator).1
  unfolding construct
  construct-allocator i s =
      let part = λ (t : Shared W U). t.index_allocator in
      let a = (take_device_index i.index s.index_allocator).1 in
      and_then_keeps part a (take_index platform i.index s) _ refl (λ index s1 e1.
        and_then_keeps part a (choose_uid platform i.uid s1) _ (choose_uid_keeps i.uid s1 ∙ e1)
          (λ uid s2 e2.
            and_then_keeps part a (lift (device_channels i.device_encoding) s2) _ e2
              (λ channels s3 e3.
                and_then_keeps part a
                  (lift
                    (compute_buffer_samples platform.round_samples
                      i.device_encoding.buffer_length_ns i.device_encoding.sample_rate)
                    s3)
                  _ e3 (λ samples s4 e4. e4))))

  -- A started device has the index of its description.
  start-index :
      (i : DeviceInfo) (w : W) (d : Device) → (start platform i w).0 ≡ ok d → d.info.index ≡ i.index
  unfolding start toggle
  start-index i w d h =
      let (t, _, h) = and_then_ok (open_transceiver platform i w) _ h in
      let (_, _, h) = and_then_ok (bind_all platform t (with_sorted platform i) _) _ h in
      ground (arith, h)

  pub construct-index :
      (i : DeviceInfo) (s : Shared W U) (d : Device) (n : ℕ)
      → (take_device_index i.index s.index_allocator).0 ≡ ok n
      → (construct platform i s).0 ≡ ok d
      → d.info.index ≡ n
  unfolding construct
  construct-index i s d n taken h =
      let (index, e1, h) = and_then_ok (take_index platform i.index s) _ h in
      let (uid, _, h) =
        and_then_ok (choose_uid platform i.uid (take_index platform i.index s).1) _ h in
      let (channels, _, h) = and_then_ok (lift (device_channels i.device_encoding) _) _ h in
      let (samples, _, h) =
        and_then_ok
          (lift
            (compute_buffer_samples platform.round_samples i.device_encoding.buffer_length_ns
              i.device_encoding.sample_rate)
            _)
          _ h in
      start-index _ _ d h ∙ ground (arith, e1, taken)

  start-uid :
      (i : DeviceInfo) (w : W) (d : Device) → (start platform i w).0 ≡ ok d → d.info.uid ≡ i.uid
  unfolding start toggle
  start-uid i w d h =
      let (t, _, h) = and_then_ok (open_transceiver platform i w) _ h in
      let (_, _, h) = and_then_ok (bind_all platform t (with_sorted platform i) _) _ h in
      ground (arith, h)

  -- A device that is made has the UID of its description, or a generated one where that is empty.
  pub construct-uid :
      (i : DeviceInfo) (s : Shared W U) (d : Device)
      → (construct platform i s).0 ≡ ok d
      → d.info.uid
        ≡ (if is_empty i.uid then (platform.source.generate_uid s.uid_generator).0 else i.uid)
  unfolding construct
  construct-uid i s d h =
      let (index, _, h) = and_then_ok (take_index platform i.index s) _ h in
      let (uid, e, h) =
        and_then_ok (choose_uid platform i.uid (take_index platform i.index s).1) _ h in
      let (channels, _, h) = and_then_ok (lift (device_channels i.device_encoding) _) _ h in
      let (samples, _, h) =
        and_then_ok
          (lift
            (compute_buffer_samples platform.round_samples i.device_encoding.buffer_length_ns
              i.device_encoding.sample_rate)
            _)
          _ h in
      start-uid _ _ d h ∙ ground (arith, e)

  construct_throws :
      (i : DeviceInfo) (s : Shared W U)
      → (take_device_index i.index s.index_allocator).0 ≡ throw invalid_argument
      → (construct platform i s).0 ≡ throw invalid_argument
  unfolding construct
  construct_throws i s h = and_then_throws (take_index platform i.index s) _ h

  -- What becomes of the index, for every index at once.
  pub construct_index_all :
      (i : DeviceInfo) (s : Shared W U) (some_free : ℕ)
      → IsValid s.index_allocator
      → i.index < 2 ^ 32
      → some_free < 2 ^ 32
      → is_free s.index_allocator some_free ≡ true
      → let (r, t) = construct platform i s in
        ((r ≡ throw invalid_argument)
          × (is_free s.index_allocator i.index ≡ false)
          × (t.index_allocator ≡ s.index_allocator))
        ⊎ ((n : ℕ) × (n ≢ 0)
            × (n < 2 ^ 32)
            × (is_free s.index_allocator n ≡ true)
            × ((j : ℕ)
                → is_free t.index_allocator j
                  ≡ (if n == j then false else is_free s.index_allocator j))
            × IsValid t.index_allocator
            × ((d : Device) → r ≡ ok d → d.info.index ≡ n))
  construct_index_all i s some_free v small low free =
      rw (construct-allocator i s)
        (elim (take_device_index_lem i.index some_free s.index_allocator v small low free) [
          | inl (thrown, taken, same) ↦ inl (construct_throws i s thrown, taken, same)
          | inr (n, e, nonzero, small_n, was_free, frame, valid) ↦
              inr (n, nonzero, small_n, was_free, frame, valid, λ d. construct-index i s d n e)
        ])

  pub destroy-allocator :
      (d : Device) (s : Shared W U)
      → d.info.index ≢ 0
      → (destroy platform d s).index_allocator ≡ release s.index_allocator d.info.index
  unfolding destroy
  destroy-allocator d s h = ground arith

  -- A device that was made and is destroyed leaves every index as free or taken as before it.
  pub destroy-construct :
      (i : DeviceInfo) (s : Shared W U) (d : Device) (some_free j : ℕ)
      → IsValid s.index_allocator
      → i.index < 2 ^ 32
      → some_free < 2 ^ 32
      → is_free s.index_allocator some_free ≡ true
      → (construct platform i s).0 ≡ ok d
      → let t = destroy platform d (construct platform i s).1 in
        (is_free t.index_allocator j ≡ is_free s.index_allocator j) × IsValid t.index_allocator
  destroy-construct i s d some_free j v small low free made =
      elim (construct_index_all i s some_free v small low free) [
        | inl (thrown, _, _) ↦ absurd (ok≢throw (sym made ∙ thrown))
        | inr (n, nonzero, small_n, was_free, frame, valid, same) ↦
            let e = same d made in
            let t = (construct platform i s).1 in
            let own : is_free t.index_allocator d.info.index ≡ false =
              ground (arith, e, frame d.info.index) in
            let (given, valid_end) =
              release_exact t.index_allocator d.info.index j valid (λ z. nonzero (sym e ∙ z))
                (rw e small_n) own in
            rw (destroy-allocator d t (λ z. nonzero (sym e ∙ z))) (
              given ∙ ground (arith, e, frame j, was_free, ap (is_free s.index_allocator)),
              valid_end,
            )
      ]
    where
      ok≢throw : {x : Device} → ¬ (Result.ok x ≡ throw invalid_argument)
      ok≢throw h = cc
