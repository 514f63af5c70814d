-- ===== src/Index/Bits.antt =====
-- The bit set of driver/index_allocator.cpp: what `set_free_` changes, and what it leaves.
use roc_vad.Prelude.{
  ℕ, zero, suc, ◌+◌, ◌-◌, ◌/◌, ◌%◌, ◌≤◌, ◌<◌, ◌≡◌, refl, ◌∙◌, Bool, false, not, List, [], ◌∷◌, ◌++◌,
  arith, ◌==◌, if◌then◌else◌, length, get_or, set, replicate, length-append, length-set,
  length-replicate,
}
use roc_vad.Index.{Chunk, bits_per_chunk, Allocator, no_bits, is_free, resize, grown, set_free}

-- Every chunk has its 64 bits.
abbrev pub Sized : List Chunk → Type 0
Sized [] = Unit {0}
Sized (c ∷ cs) = (length c ≡ bits_per_chunk) × Sized cs

module _ {A : Type 0} where
  get_or-set :
      (xs : List A) (i j : ℕ) (v d : A)
      → i < length xs
      → get_or (set xs i v) j d ≡ (if i == j then v else get_or xs j d)
  get_or-set [] i j v d h = elim h [ ]
  get_or-set (x ∷ xs) zero zero v d h = ground arith
  get_or-set (x ∷ xs) zero (suc j) v d h = ground arith
  get_or-set (x ∷ xs) (suc i) zero v d h = ground arith
  get_or-set (x ∷ xs) (suc i) (suc j) v d h = ground (arith, get_or-set xs i j v d)

  pub get_or-replicate : (k j : ℕ) (d : A) → get_or (replicate k d) j d ≡ d
  get_or-replicate zero j d = refl
  get_or-replicate (suc k) zero d = refl
  get_or-replicate (suc k) (suc j) d = get_or-replicate k j d

  get_or-pad : (xs : List A) (k j : ℕ) (d : A) → get_or (xs ++ replicate k d) j d ≡ get_or xs j d
  get_or-pad [] k j d = get_or-replicate k j d
  get_or-pad (x ∷ xs) k zero d = refl
  get_or-pad (x ∷ xs) k (suc j) d = get_or-pad xs k j d

-- Whether the bit of an index is set.
abbrev pub taken_at : List Chunk → ℕ → Bool
taken_at chunks i = get_or (get_or chunks (i / bits_per_chunk) no_bits) (i % bits_per_chunk) false

pub get_or_beyond : {A : Type 0} (xs : List A) (i : ℕ) (d : A) → length xs ≤ i → get_or xs i d ≡ d
get_or_beyond [] i d h = refl
get_or_beyond (x ∷ xs) zero d h = absurd (omega arith)
get_or_beyond (x ∷ xs) (suc i) d h = get_or_beyond xs i d (omega arith)

pub is_free-taken_at : (a : Allocator) (i : ℕ) → is_free a i ≡ not (taken_at a.index_bitset i)
unfolding is_free
is_free-taken_at a i = ground (
  arith,
  get_or_beyond a.index_bitset (i / bits_per_chunk) no_bits,
  get_or-replicate 64 (i % bits_per_chunk) false,
)

pub Sized-get_or :
    (cs : List Chunk) (i : ℕ) → Sized cs → length (get_or cs i no_bits) ≡ bits_per_chunk
Sized-get_or [] i h = refl
Sized-get_or (c ∷ cs) zero h = h.0
Sized-get_or (c ∷ cs) (suc i) h = Sized-get_or cs i h.1

Sized-set :
    (cs : List Chunk) (i : ℕ) (c : Chunk)
    → Sized cs
    → length c ≡ bits_per_chunk
    → Sized (set cs i c)
Sized-set [] i c h e = tt
Sized-set (x ∷ cs) zero c h e = (e, h.1)
Sized-set (x ∷ cs) (suc i) c h e = (h.0, Sized-set cs i c h.1 e)

Sized-pad : (cs : List Chunk) (k : ℕ) → Sized cs → Sized (cs ++ replicate k no_bits)
Sized-pad [] zero h = tt
Sized-pad [] (suc k) h = (refl, Sized-pad [] k tt)
Sized-pad (c ∷ cs) k h = (h.0, Sized-pad cs k h.1)

pub length-grown : (chunks : List Chunk) (i : ℕ) → i / bits_per_chunk < length (grown chunks i)
unfolding grown resize
length-grown chunks i = ground (
  arith,
  length-append chunks (replicate (i / bits_per_chunk + 1 - length chunks) no_bits),
  length-replicate (i / bits_per_chunk + 1 - length chunks) no_bits,
)

pub get_or-grown :
    (chunks : List Chunk) (i j : ℕ) → get_or (grown chunks i) j no_bits ≡ get_or chunks j no_bits
unfolding grown resize
get_or-grown chunks i j =
    ground (arith, get_or-pad chunks (i / bits_per_chunk + 1 - length chunks) j no_bits)

pub Sized-grown : (chunks : List Chunk) (i : ℕ) → Sized chunks → Sized (grown chunks i)
unfolding grown resize
Sized-grown chunks i h = ground (arith, Sized-pad chunks (i / bits_per_chunk + 1 - length chunks) h)

pub set_free-Sized :
    (a : Allocator) (i : ℕ) (free : Bool)
    → Sized a.index_bitset
    → Sized (set_free a i free).index_bitset
unfolding set_free
set_free-Sized a i free h =
    Sized-set (grown a.index_bitset i) (i / bits_per_chunk)
      (set (get_or (grown a.index_bitset i) (i / bits_per_chunk) no_bits) (i % bits_per_chunk)
        (not free))
      (Sized-grown a.index_bitset i h)
      (length-set (get_or (grown a.index_bitset i) (i / bits_per_chunk) no_bits)
          (i % bits_per_chunk) (not free)
        ∙ Sized-get_or (grown a.index_bitset i) (i / bits_per_chunk)
            (Sized-grown a.index_bitset i h))

-- `set_free_` changes the bit of its index, and no other.
pub taken_at-set_free :
    (a : Allocator) (i j : ℕ) (free : Bool)
    → Sized a.index_bitset
    → taken_at (set_free a i free).index_bitset j
      ≡ (if i == j then not free else taken_at a.index_bitset j)
unfolding set_free
taken_at-set_free a i j free h = ground (
  arith,
  get_or-set chunks (i / bits_per_chunk) (j / bits_per_chunk)
      (set (get_or chunks (i / bits_per_chunk) no_bits) (i % bits_per_chunk) (not free)) no_bits,
  get_or-set (get_or chunks (i / bits_per_chunk) no_bits) (i % bits_per_chunk) (j % bits_per_chunk)
      (not free) false,
  length-grown a.index_bitset i,
  get_or-grown a.index_bitset i (j / bits_per_chunk),
  get_or-grown a.index_bitset i (i / bits_per_chunk),
  Sized-get_or chunks (i / bits_per_chunk) (Sized-grown a.index_bitset i h),
)
  where
    chunks : List Chunk
    chunks = grown a.index_bitset i
