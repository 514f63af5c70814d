-- ===== src/Handler/Laws.antt =====
-- The sender of driver/request_handler.cpp gets each sample once, in order and with the gain.
use roc_vad.Prelude.{
  ℕ, zero, suc, ◌∷◌, ◌+◌, ◌-◌, ◌≤◌, ◌<◌, ◌≡◌, ◌∙◌, sym, ap, refl, inl, inr, min, false, List, [],
  Option, none, some, ltb, if◌then◌else◌, length, replicate, take, get_or, arith, lt→ltb,
  length-append, length-replicate, length-take,
}
use mathlib.Core.Path.{subst}
use roc_vad.Prelude.Word.{add64, mul64}
use roc_vad.Prelude.Maybe.{◌>>=◌}
use roc_vad.Samples.{length-map_from, get_or-map_from}
use roc_vad.Ring
use roc_vad.Ring.{RingBuffer, n_can_read, place, advance, copy_to_buffer}
use roc_vad.Ring.Slots.{IsStarted}
use roc_vad.Ring.Write.{heard}
use roc_vad.Ring.Appends.{Fits, write_next}
use roc_vad.Ring.Read.{read_hears}
use roc_vad.Handler.{RequestHandler, Gain, apply_volume, enlarged, pass_on, on_write_mixed_output}

module _ {A : Type 0} (silence : A) (g : Gain A) where
  -- A sample with the gain.
  abbrev pub with_gain : A → A
  with_gain sample = if g.is_unity then sample else g.amplify sample

  pub length-enlarged : (io_buf : List A) (n : ℕ) → n ≤ length (enlarged silence g io_buf n)
  unfolding enlarged
  length-enlarged io_buf n = ground (
    arith,
    length-append io_buf (replicate (n - length io_buf) silence),
    length-replicate (n - length io_buf) silence,
  )

  pub length-apply_volume : (xs : List A) (n : ℕ) → length (apply_volume g xs n) ≡ length xs
  unfolding apply_volume
  length-apply_volume xs n =
      ground (arith, length-map_from (λ i x. if ltb i n then g.amplify x else x) 0 xs)

  pub get_or-apply_volume :
      (xs : List A) (n i : ℕ)
      → i < n
      → i < length xs
      → get_or (apply_volume g xs n) i silence ≡ with_gain (get_or xs i silence)
  unfolding apply_volume
  get_or-apply_volume xs n i h k =
      ground (arith, get_or-map_from (λ i x. if ltb i n then g.amplify x else x) 0 xs i silence k)

  get_or-take : (n i : ℕ) (xs : List A) → i < n → get_or (take n xs) i silence ≡ get_or xs i silence
  get_or-take zero i xs h = elim h [ ]
  get_or-take (suc n) i [] h = refl
  get_or-take (suc n) zero (x ∷ xs) h = refl
  get_or-take (suc n) (suc i) (x ∷ xs) h = get_or-take n i xs (omega arith)

  copy_to_buffer_size :
      (r s : RingBuffer A) (timestamp n : ℕ) (samples : List A)
      → copy_to_buffer r timestamp samples n ≡ some s
      → s.buf_size ≡ r.buf_size
  unfolding copy_to_buffer
  copy_to_buffer_size r s timestamp n samples h = ground arith

  advance_size :
      (r s : RingBuffer A) (timestamp n : ℕ)
      → advance r timestamp n ≡ some s
      → s.buf_size ≡ r.buf_size
  unfolding advance
  advance_size r s timestamp n h = ground arith

  -- A write never changes the size of the buffer.
  pub write_size :
      (r s : RingBuffer A) (timestamp n : ℕ) (samples : List A)
      → Ring.write r timestamp samples n ≡ some s
      → s.buf_size ≡ r.buf_size
  unfolding Ring.write place
  write_size r s timestamp n samples h = ground (
    arith,
    copy_to_buffer_size (place r timestamp n) s timestamp (min n r.buf_size) samples,
    after (advance r timestamp n) refl,
  )
    where
      after :
          (m : Option (RingBuffer A))
          → advance r timestamp n ≡ m
          → (m >>= (λ moved. copy_to_buffer moved timestamp samples (min n r.buf_size))) ≡ some s
          → s.buf_size ≡ r.buf_size
      after none e k = cc
      after (some q) e k =
          copy_to_buffer_size q s timestamp (min n r.buf_size) samples k
          ∙ advance_size r q timestamp n e

  can_read :
      (r : RingBuffer A) (pos n : ℕ)
      → IsStarted r
      → pos + n ≡ r.tail_ts
      → 0 < n
      → n < r.buf_size
      → n_can_read r pos ≡ n
  unfolding n_can_read
  can_read r pos n v near some_samples small = ground (arith, v)

  pass_on_run :
      (h : RequestHandler A) (n : ℕ) (got : List A)
      → n_can_read h.ring_buf h.ring_buf_pos ≡ n
      → 0 < n
      → Ring.read silence h.ring_buf h.ring_buf_pos (enlarged silence g h.io_buf n) n ≡ some got
      → pass_on silence g h
        ≡ some (
          record h { io_buf = apply_volume g got n; ring_buf_pos = add64 h.ring_buf_pos n },
          take n (apply_volume g got n),
        )
  unfolding pass_on
  pass_on_run h n got e low done = rw e (rw (lt→ltb 0 n low) (rw done refl))

  write_run :
      (h : RequestHandler A) (timestamp n pos : ℕ) (samples : List A) (r : RingBuffer A)
      → h.ring_buf.first_write ≡ false
      → h.ring_buf_pos ≡ pos
      → mul64 timestamp h.chan_count ≡ pos
      → Ring.write h.ring_buf pos samples n ≡ some r
      → on_write_mixed_output silence g h timestamp samples n
        ≡ pass_on silence g (record h { ring_buf = r; ring_buf_pos = pos })
  unfolding on_write_mixed_output
  write_run h timestamp n pos samples r started at in_order done =
      ground (arith, started, at, in_order, done)

  -- What is passed on from a started buffer, `n` samples before its end.
  pass_on_lem :
      (h : RequestHandler A) (n i : ℕ)
      → IsStarted h.ring_buf
      → h.ring_buf_pos + n ≡ h.ring_buf.tail_ts
      → n < h.ring_buf.buf_size
      → i < n
      → (k : RequestHandler A) × (sent : List A) × (pass_on silence g h ≡ some (k, sent))
        × (length sent ≡ n)
        × (get_or sent i silence ≡ with_gain (heard silence h.ring_buf (h.ring_buf_pos + i)))
        × (k.ring_buf_pos ≡ h.ring_buf.tail_ts)
        × (k.ring_buf ≡ h.ring_buf)
  pass_on_lem h n i v near small low =
      let io = enlarged silence g h.io_buf n in
      let room = length-enlarged h.io_buf n in
      let (got, done, long, sample) =
        read_hears silence h.ring_buf v h.ring_buf_pos n io i
          (record {
            room = room;
            below_limit = omega (arith, near, v.tail_in);
            not_after = omega (arith, near);
            not_before = omega (arith, near, v.window);
            not_whole = inl (omega (arith, near, v.window, small));
          })
          (omega arith) (omega (arith, room)) in
      let scaled = apply_volume g got n in
      (
        record h { io_buf = scaled; ring_buf_pos = add64 h.ring_buf_pos n },
        take n scaled,
        pass_on_run h n got (can_read h.ring_buf h.ring_buf_pos n v near (omega arith) small)
            (omega arith) done,
        omega (arith, length-take n scaled, length-apply_volume got n, long, room),
        get_or-take n i scaled low
            ∙ get_or-apply_volume got n i low (omega (arith, long, room))
            ∙ ap with_gain (ground (arith, sample)),
        omega (arith, near, v.tail_in),
        refl,
      )

  -- A write that begins where the buffer ends and where the sender has got to, of fewer samples than
  -- the buffer holds, passes exactly these samples to the sender, each with the gain, and the sender
  -- has then got to the new end of the buffer.
  pub write_passes_on :
      (h : RequestHandler A) (timestamp n i : ℕ) (samples : List A)
      → IsStarted h.ring_buf
      → h.ring_buf_pos ≡ h.ring_buf.tail_ts
      → mul64 timestamp h.chan_count ≡ h.ring_buf.tail_ts
      → Fits h.ring_buf h.ring_buf.tail_ts samples n
      → i < n
      → (k : RequestHandler A) × (sent : List A) × (on_write_mixed_output silence g h timestamp
            samples n
          ≡ some (k, sent))
        × (length sent ≡ n)
        × (get_or sent i silence ≡ with_gain (get_or samples i silence))
        × (k.ring_buf_pos ≡ k.ring_buf.tail_ts)
        × IsStarted k.ring_buf
  write_passes_on h timestamp n i samples v at_end in_order f low =
      let (r, done, valid, tail, sample) =
        write_next silence h.ring_buf h.ring_buf.tail_ts samples n (h.ring_buf.tail_ts + i) v f
          (omega (arith, v.window)) (omega (arith, v.window, f.shorter)) (inr (omega arith)) in
      let (k, sent, passed, long, same, pos, kept) =
        pass_on_lem (record h { ring_buf = r; ring_buf_pos = h.ring_buf.tail_ts }) n i valid
          (omega (arith, tail))
          (rw (write_size h.ring_buf r h.ring_buf.tail_ts n samples done) f.shorter) low in
      (
        k,
        sent,
        write_run h timestamp n h.ring_buf.tail_ts samples r v.started at_end in_order done
            ∙ passed,
        long,
        same ∙ ap with_gain (ground (arith, sample)),
        pos ∙ ap (λ x. x.tail_ts) (sym kept),
        subst IsStarted (sym kept) valid,
      )
