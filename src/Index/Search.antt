-- ===== src/Index/Search.antt =====
-- `find_free_` of driver/index_allocator.cpp: it finds a free index, and one below the end of the
-- bit set whenever there is one.
use native.Mathlib.Nat.{mod-lt, mod-add-mod}
use roc_vad.Prelude.{
  ℕ, zero, suc, ◌+◌, ◌-◌, ◌*◌, ◌/◌, ◌%◌, ◌^◌, ◌≤◌, ◌<◌, ◌≡◌, ◌≢◌, refl, sym, ap, ◌∙◌, ◌&&◌, true,
  false, List, [], ◌∷◌, none, some, arith, ltb, ◌==◌, length, get_or, inl, inr, Option-cases,
  Bool-cases, ℕ_discrete, dec_lt, ◌⊎◌,
}
use roc_vad.Prelude.Word.{turn}
use roc_vad.Index.{
  Chunk, bits_per_chunk, Allocator, no_bits, is_free, all_taken, scan_bits, scan_chunks, find_free,
}
use roc_vad.Index.Bits.{
  Sized, Sized-get_or, taken_at, is_free-taken_at, get_or_beyond, get_or-replicate,
}

scan_bits_sound :
    (s n c : ℕ) (bits : Chunk) (b i : ℕ)
    → scan_bits s n c bits b ≡ some i
    → (k : ℕ) × (k < length bits)
      × (get_or bits k false ≡ false)
      × (i ≡ (c * bits_per_chunk + (b + k)) % 2 ^ 32)
unfolding scan_bits
scan_bits_sound s n c [] b i e = cc
scan_bits_sound s n c (true ∷ bits) b i e =
    let (k, l, clear, at) = scan_bits_sound s n c bits (b + 1) i e in
    (suc k, omega (arith, l), clear, omega (arith, at))
scan_bits_sound s n c (false ∷ bits) b i e =
    elim (Bool-cases (n == 0 && ltb ((c * bits_per_chunk + b) % 2 ^ 32) s)) [
      | inl skip ↦
          let (k, l, clear, at) = scan_bits_sound s n c bits (b + 1) i (ground arith) in
          (suc k, omega (arith, l), clear, omega (arith, at))
      | inr here ↦ (0, omega arith, refl, ground arith)
    ]

scan_bits_complete :
    (s n c : ℕ) (bits : Chunk) (b k : ℕ)
    → n ≢ 0
    → k < length bits
    → get_or bits k false ≡ false
    → scan_bits s n c bits b ≢ none
unfolding scan_bits
scan_bits_complete s n c [] b k h l clear = elim l [ ]
scan_bits_complete s n c (true ∷ bits) b zero h l clear = cc
scan_bits_complete s n c (true ∷ bits) b (suc k) h l clear =
    scan_bits_complete s n c bits (b + 1) k h (omega arith) clear
scan_bits_complete s n c (false ∷ bits) b k h l clear = ground arith

all_taken-clear :
    (bits : Chunk) (k : ℕ) → k < length bits → get_or bits k false ≡ false → all_taken bits ≡ false
unfolding all_taken
all_taken-clear [] k l clear = elim l [ ]
all_taken-clear (b ∷ bits) zero l clear = ground arith
all_taken-clear (true ∷ bits) (suc k) l clear = all_taken-clear bits k (omega arith) clear
all_taken-clear (false ∷ bits) (suc k) l clear = refl

-- The place of an index in the bit set.
taken_at-place :
    (chunks : List Chunk) (c k : ℕ)
    → k < bits_per_chunk
    → taken_at chunks (c * bits_per_chunk + k) ≡ get_or (get_or chunks c no_bits) k false
taken_at-place chunks c k h = cc (ap (λ x. get_or chunks x no_bits) high, low)
  where
    high : (c * bits_per_chunk + k) / bits_per_chunk ≡ c
    high = omega arith

    low : (c * bits_per_chunk + k) % bits_per_chunk ≡ k
    low = omega arith

module _ (chunks : List Chunk) (sized : Sized chunks) (s : ℕ) (pos : 0 < length chunks)
    (small : length chunks * bits_per_chunk ≤ 2 ^ 32) where
  abbrev chunk_at : ℕ → ℕ
  chunk_at n = (s / bits_per_chunk + n) % length chunks

  chunk_at_sound :
      (n i : ℕ)
      → scan_bits s n (chunk_at n) (get_or chunks (chunk_at n) no_bits) 0 ≡ some i
      → (taken_at chunks i ≡ false) × (i < length chunks * bits_per_chunk)
  chunk_at_sound n i e =
      let (k, l, clear, at) =
        scan_bits_sound s n (chunk_at n) (get_or chunks (chunk_at n) no_bits) 0 i e in
      let kb : k < bits_per_chunk = omega (arith, l, Sized-get_or chunks (chunk_at n) sized) in
      let c : chunk_at n < length chunks = mod-lt (s / bits_per_chunk + n) pos in
      let i_is : i ≡ chunk_at n * bits_per_chunk + k = omega arith in
      (ap (taken_at chunks) i_is ∙ taken_at-place chunks (chunk_at n) k kb ∙ clear, omega arith)

  scan_chunks_sound :
      (rounds n i : ℕ)
      → scan_chunks chunks s rounds n ≡ some i
      → (taken_at chunks i ≡ false) × (i < length chunks * bits_per_chunk)
  unfolding scan_chunks
  scan_chunks_sound zero n i e = cc
  scan_chunks_sound (suc rounds) n i e =
      elim (Bool-cases (all_taken (get_or chunks (chunk_at n) no_bits))) [
        | inl full ↦ scan_chunks_sound rounds (n + 1) i (rw full at e)
        | inr gap ↦
            elim (Option-cases
              (scan_bits s n (chunk_at n) (get_or chunks (chunk_at n) no_bits) 0)) [
                | inl nothing ↦ scan_chunks_sound rounds (n + 1) i (rw nothing at (rw gap at e))
                | inr (j, found) ↦ chunk_at_sound n i (found ∙ rw found at (rw gap at e))
              ]
      ]

  scan_chunks_complete :
      (rounds n m k : ℕ)
      → n ≤ m
      → m < n + rounds
      → m ≢ 0
      → k < bits_per_chunk
      → get_or (get_or chunks (chunk_at m) no_bits) k false ≡ false
      → scan_chunks chunks s rounds n ≢ none
  unfolding scan_chunks
  scan_chunks_complete zero n m k l h ne kb clear = absurd (omega arith)
  scan_chunks_complete (suc rounds) n m k l h ne kb clear = elim (ℕ_discrete n m) [
    | yes e ↦ λ nothing. ground (
      arith,
      all_taken-clear (get_or chunks (chunk_at m) no_bits) k,
      scan_bits_complete s m (chunk_at m) (get_or chunks (chunk_at m) no_bits) 0 k ne,
      Sized-get_or chunks (chunk_at m) sized,
    )
    | no later ↦ λ nothing. ground (arith, scan_chunks_complete rounds (n + 1) m k)
  ]

is_free-beyond :
    (a : Allocator) (i : ℕ) → length a.index_bitset * bits_per_chunk ≤ i → is_free a i ≡ true
is_free-beyond a i h = ground (
  arith,
  is_free-taken_at a i,
  ap (λ c. get_or c (i % bits_per_chunk) false)
      (get_or_beyond a.index_bitset (i / bits_per_chunk) no_bits (omega arith)),
  get_or-replicate 64 (i % bits_per_chunk) false,
)

-- The number of rounds after which the search comes to the chunk `c`, not counting the first.
rounds_to : (len a c : ℕ) → a < len → c < len → (m : ℕ) × (m ≢ 0) × (m ≤ len) × ((a + m) % len ≡ c)
rounds_to len a c ha hc = elim (dec_lt a c) [
  | yes p ↦ (c - a, omega arith, omega arith, ground (arith, turn len a (c - a) ha))
  | no p ↦ (c + len - a, omega arith, omega arith, ground (arith, turn len a (c + len - a) ha))
]

module _ (a : Allocator) (sized : Sized a.index_bitset)
    (small : length a.index_bitset * bits_per_chunk ≤ 2 ^ 32) (s : ℕ) where
  -- The search fails only if every index of the bit set is taken.
  scan_chunks-total :
      (j : ℕ)
      → j < length a.index_bitset * bits_per_chunk
      → is_free a j ≡ true
      → scan_chunks a.index_bitset s (length a.index_bitset + 1) 0 ≢ none
  scan_chunks-total j h free =
      let (m, ne, le, at) =
        rounds_to (length a.index_bitset) (s / bits_per_chunk % length a.index_bitset)
          (j / bits_per_chunk) (mod-lt (s / bits_per_chunk) (omega arith)) (omega arith) in
      let here : (s / bits_per_chunk + m) % length a.index_bitset ≡ j / bits_per_chunk =
        sym (mod-add-mod (s / bits_per_chunk) (length a.index_bitset) m) ∙ at in
      let clear : get_or
            (get_or a.index_bitset ((s / bits_per_chunk + m) % length a.index_bitset) no_bits)
            (j % bits_per_chunk) false
          ≡ false =
        rw here (ground (arith, is_free-taken_at a j)) in
      scan_chunks_complete a.index_bitset sized s (omega arith) small (length a.index_bitset + 1) 0
        m (j % bits_per_chunk) (omega arith) (omega arith) ne (omega arith) clear

  -- If an index of 32 bits is free, then the index found is free, and it lies inside the bit set if
  -- the free one does.
  pub find_free_lem :
      (j : ℕ)
      → j < 2 ^ 32
      → is_free a j ≡ true
      → (is_free a (find_free a s) ≡ true)
        × ((length a.index_bitset * bits_per_chunk ≤ j)
            ⊎ (find_free a s < length a.index_bitset * bits_per_chunk))
  unfolding find_free
  find_free_lem j h free = elim (dec_lt j (length a.index_bitset * bits_per_chunk)) [
    | yes inside ↦
        elim (Option-cases (scan_chunks a.index_bitset s (length a.index_bitset + 1) 0)) [
          | inl nothing ↦ absurd (scan_chunks-total j inside free nothing)
          | inr (i, found) ↦ ground (
            arith,
            scan_chunks_sound a.index_bitset sized s (omega arith) small (length a.index_bitset + 1)
                0 i found,
            is_free-taken_at a i,
          )
        ]
    | no outside ↦
        elim (Option-cases (scan_chunks a.index_bitset s (length a.index_bitset + 1) 0)) [
          | inl nothing ↦ ground (arith, is_free-beyond a (length a.index_bitset * bits_per_chunk))
          | inr (i, found) ↦ elim (dec_lt 0 (length a.index_bitset)) [
            | yes some_chunk ↦ ground (
              arith,
              scan_chunks_sound a.index_bitset sized s some_chunk small (length a.index_bitset + 1)
                  0 i found,
              is_free-taken_at a i,
            )
            | no empty ↦ ground (arith, is_free-beyond a (length a.index_bitset * bits_per_chunk))
          ]
        ]
  ]

  pub find_free-lt : find_free a s < 2 ^ 32
  unfolding find_free
  find_free-lt = elim (dec_lt 0 (length a.index_bitset)) [
    | no empty ↦ ground arith
    | yes some_chunk ↦
        elim (Option-cases (scan_chunks a.index_bitset s (length a.index_bitset + 1) 0)) [
          | inl nothing ↦ ground arith
          | inr (i, found) ↦ ground (
            arith,
            scan_chunks_sound a.index_bitset sized s some_chunk small (length a.index_bitset + 1) 0
                i found,
          )
        ]
  ]
