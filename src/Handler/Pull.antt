-- ===== src/Handler/Pull.antt =====
-- The client of a receiver device in driver/request_handler.cpp gets what the receiver gives.
use roc_vad.Prelude.{
  ℕ, ◌+◌, ◌-◌, ◌^◌, ◌≤◌, ◌<◌, ◌≡◌, inl, inr, false, ◌&&◌, List, some, ltb, leb, if◌then◌else◌,
  length, get_or, arith, lt→ltb, Bool-cases,
}
use roc_vad.Prelude.Word.{add64, mul64}
use roc_vad.Ring
use roc_vad.Ring.{RingBuffer, n_need_write}
use roc_vad.Ring.Slots.{IsStarted}
use roc_vad.Ring.Write.{heard}
use roc_vad.Ring.Appends.{write_next}
use roc_vad.Ring.Read.{read_hears}
use roc_vad.Handler.{RequestHandler, Gain, apply_volume, enlarged, take_in, on_read_client_input}
use roc_vad.Handler.Laws.{
  length-enlarged, with_gain, length-apply_volume, get_or-apply_volume, write_size,
}

module _ {A : Type 0} (silence : A) (g : Gain A) where
  -- What a request for `n` samples at `ts` lacks behind the end of the buffer.
  abbrev pub lacking : RingBuffer A → ℕ → ℕ → ℕ
  lacking r ts n = ts + n - r.tail_ts

  need :
      (r : RingBuffer A) (ts n : ℕ)
      → IsStarted r
      → ts + n < 2 ^ 64
      → r.tail_ts < ts + n
      → n < r.buf_size
      → ts ≤ r.tail_ts
      → n_need_write r (add64 ts n) ≡ lacking r ts n
  unfolding n_need_write
  need r ts n v small past short near = ground (arith, v)

  -- A sample of the client is one from the buffer or a new one.
  pieced :
      (t tail m i n : ℕ) (client heard_at other old scaled new : A)
      → client ≡ (if ltb i n then heard_at else other)
      → heard_at ≡ (if leb tail t && ltb t (tail + m) then scaled else old)
      → i < n
      → t < tail + m
      → (tail ≤ t → scaled ≡ new)
      → client ≡ (if ltb t tail then old else new)
  pieced t tail m i n client heard_at other old scaled new c h low inside same =
      elim (Bool-cases (ltb t tail)) [
        | inl before ↦ ground (arith, c, h, before)
        | inr after ↦ ground (arith, c, h, after, same)
      ]

  module _ {W : Type 0} (receive : ℕ → List A → W → List A × W) where
    read_run :
        (h : RequestHandler A) (timestamp n m : ℕ) (bytes out : List A) (w : W) (r : RingBuffer A)
        → let ts = mul64 timestamp h.chan_count in
          let io = apply_volume g (receive m (enlarged silence g h.io_buf m) w).0 m in
          h.ring_buf.first_write ≡ false
          → n_need_write h.ring_buf (add64 ts n) ≡ m
          → 0 < m
          → Ring.write h.ring_buf h.ring_buf.tail_ts io m ≡ some r
          → Ring.read silence r ts bytes n ≡ some out
          → on_read_client_input silence g receive h timestamp bytes n w
            ≡ some (
              record h { ring_buf = r; io_buf = io },
              out,
              (receive m (enlarged silence g h.io_buf m) w).1,
            )
    unfolding on_read_client_input take_in
    read_run h timestamp n m bytes out w r started needed low done client =
        ground (arith, started, needed, lt→ltb 0 m low, done, client)

    -- A client that reads on across the end of a started buffer, fewer samples than the buffer
    -- holds, gets at each timestamp before the end what was heard there, and behind it what the read
    -- of the transceiver has left in its array, each with the gain; the transceiver is asked for the
    -- samples that lack, and no more, and the buffer then ends where the request ends.
    pub read_pulls :
        (h : RequestHandler A) (timestamp n i : ℕ) (bytes : List A) (w : W)
        → ((n : ℕ) (io : List A) (w : W) → n ≤ length io → length (receive n io w).0 ≡ length io)
        → IsStarted h.ring_buf
        → let ts = mul64 timestamp h.chan_count in
          let m = lacking h.ring_buf ts n in
          ts ≤ h.ring_buf.tail_ts
          → h.ring_buf.tail_ts < ts + n
          → ts + n < 2 ^ 64
          → n < h.ring_buf.buf_size
          → n ≤ length bytes
          → i < n
          → (k : RequestHandler A) × (out : List A) × (on_read_client_input silence g receive h
                timestamp bytes n w
              ≡ some (k, out, (receive m (enlarged silence g h.io_buf m) w).1))
            × IsStarted k.ring_buf
            × (k.ring_buf.tail_ts ≡ ts + n)
            × (get_or out i silence ≡ (
                if ltb (ts + i) h.ring_buf.tail_ts
                then heard silence h.ring_buf (ts + i)
                else with_gain silence g (
                    get_or
                      (receive m (enlarged silence g h.io_buf m) w).0
                      (ts + i - h.ring_buf.tail_ts)
                      silence)))
    read_pulls h timestamp n i bytes w filled v near past small short room low =
        let r = h.ring_buf in
        let ts = mul64 timestamp h.chan_count in
        let m = lacking r ts n in
        let room_in = length-enlarged silence g h.io_buf m in
        let taken = (receive m (enlarged silence g h.io_buf m) w).0 in
        let wide : m ≤ length taken =
          omega (arith, filled m (enlarged silence g h.io_buf m) w room_in, room_in) in
        let io = apply_volume g taken m in
        let io_wide : m ≤ length io = omega (arith, wide, length-apply_volume silence g taken m) in
        let (r', done, valid, tail, sample) =
          write_next silence r r.tail_ts io m (ts + i) v
            (record {
              some_samples = omega (arith, past);
              shorter = omega (arith, near, short);
              given = io_wide;
              below_limit = omega (arith, past, small);
            })
            (omega (arith, v.window)) (omega (arith, past, short))
            (elim (Bool-cases (ltb (ts + i) r.tail_ts)) [
              | inl before ↦ inl (ground (arith, before))
              | inr after ↦ inr (ground (arith, after))
            ]) in
        let size = write_size silence g r r' r.tail_ts m io done in
        let (out, heard_all, _, client) =
          read_hears silence r' valid ts n bytes i
            (record {
              room = room;
              below_limit = small;
              not_after = omega (arith, tail, near);
              not_before = omega (arith, tail, valid.window, past);
              not_whole = inl (omega (arith, tail, valid.window, size, past, short));
            })
            (omega (arith, low)) (omega (arith, low, room)) in
        (
          record h { ring_buf = r'; io_buf = io },
          out,
          read_run h timestamp n m bytes out w r' v.started (need r ts n v small past short near)
              (omega (arith, past)) done heard_all,
          valid,
          omega (arith, tail, past),
          pieced (ts + i) r.tail_ts m i n (get_or out i silence) (heard silence r' (ts + i))
              (get_or bytes i silence) (heard silence r (ts + i))
              (get_or io (ts + i - r.tail_ts) silence)
              (with_gain silence g (get_or taken (ts + i - r.tail_ts) silence)) client sample low
              (omega (arith, low, past))
              (λ beyond.
                get_or-apply_volume silence g taken m (ts + i - r.tail_ts)
                  (omega (arith, beyond, low, past)) (omega (arith, wide, beyond, low, past))),
        )
