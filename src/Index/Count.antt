-- ===== src/Index/Count.antt =====
-- How many bits of the set of driver/index_allocator.cpp are taken.
use roc_vad.Prelude.{
  ℕ, zero, suc, ◌+◌, ◌-◌, ◌/◌, ◌%◌, ◌≤◌, ◌*◌, ◌<◌, ◌≡◌, refl, ap, Bool, true, false, not, List, [],
  ◌∷◌, ◌++◌, arith, length, get_or, set, replicate,
}
use roc_vad.Index.{Chunk, bits_per_chunk, Allocator, no_bits, resize, grown, is_free, set_free}
use roc_vad.Index.Bits.{
  Sized, Sized-get_or, Sized-grown, length-grown, get_or-grown, taken_at, is_free-taken_at,
}

bit_value : Bool → ℕ
bit_value true = 1
bit_value false = 0

taken_bits : Chunk → ℕ
taken_bits [] = 0
taken_bits (b ∷ bs) = bit_value b + taken_bits bs

pub taken_count : List Chunk → ℕ
taken_count [] = 0
taken_count (c ∷ cs) = taken_bits c + taken_count cs

taken_bits-set :
    (c : Chunk) (k : ℕ) (b : Bool)
    → k < length c
    → taken_bits (set c k b) + bit_value (get_or c k false) ≡ taken_bits c + bit_value b
unfolding taken_bits
taken_bits-set [] k b h = elim h [ ]
taken_bits-set (x ∷ c) zero b h = omega arith
taken_bits-set (x ∷ c) (suc k) b h = omega (arith, taken_bits-set c k b (omega arith))

taken_count-set :
    (cs : List Chunk) (i : ℕ) (c : Chunk)
    → i < length cs
    → taken_count (set cs i c) + taken_bits (get_or cs i no_bits) ≡ taken_count cs + taken_bits c
unfolding taken_count
taken_count-set [] i c h = elim h [ ]
taken_count-set (x ∷ cs) zero c h = omega arith
taken_count-set (x ∷ cs) (suc i) c h = omega (arith, taken_count-set cs i c (omega arith))

taken_count-pad :
    (cs : List Chunk) (k : ℕ) → taken_count (cs ++ replicate k no_bits) ≡ taken_count cs
unfolding taken_count taken_bits bit_value
taken_count-pad [] zero = refl
taken_count-pad [] (suc k) = omega (arith, taken_count-pad [] k)
taken_count-pad (c ∷ cs) k = omega (arith, taken_count-pad cs k)

taken_count-grown : (cs : List Chunk) (i : ℕ) → taken_count (grown cs i) ≡ taken_count cs
unfolding grown resize
taken_count-grown cs i = ground (arith, taken_count-pad cs (i / bits_per_chunk + 1 - length cs))

set_free-value :
    (a : Allocator) (i : ℕ) (free : Bool)
    → Sized a.index_bitset
    → taken_count (set_free a i free).index_bitset + bit_value (taken_at a.index_bitset i)
      ≡ taken_count a.index_bitset + bit_value (not free)
unfolding set_free
set_free-value a i free h = omega (
  arith,
  taken_count-set chunks (i / bits_per_chunk) (set old (i % bits_per_chunk) (not free))
      (length-grown a.index_bitset i),
  taken_bits-set old (i % bits_per_chunk) (not free)
      (omega (arith, Sized-get_or chunks (i / bits_per_chunk) (Sized-grown a.index_bitset i h))),
  taken_count-grown a.index_bitset i,
  ap (λ c. bit_value (get_or c (i % bits_per_chunk) false))
      (get_or-grown a.index_bitset i (i / bits_per_chunk)),
)
  where
    chunks : List Chunk
    chunks = grown a.index_bitset i

    old : Chunk
    old = get_or chunks (i / bits_per_chunk) no_bits

module _ (a : Allocator) (i : ℕ) (h : Sized a.index_bitset) where
  pub taken_count-take :
      is_free a i ≡ true
      → taken_count (set_free a i false).index_bitset ≡ taken_count a.index_bitset + 1
  unfolding bit_value
  taken_count-take free = ground (arith, is_free-taken_at a i, set_free-value a i false h)

  pub taken_count-give :
      is_free a i ≡ false
      → taken_count (set_free a i true).index_bitset + 1 ≡ taken_count a.index_bitset
  unfolding bit_value
  taken_count-give taken = ground (arith, is_free-taken_at a i, set_free-value a i true h)

taken_bits-le : (c : Chunk) → taken_bits c ≤ length c
unfolding taken_bits bit_value
taken_bits-le [] = omega arith
taken_bits-le (true ∷ c) = omega (arith, taken_bits-le c)
taken_bits-le (false ∷ c) = omega (arith, taken_bits-le c)

pub taken_count-le : (cs : List Chunk) → Sized cs → taken_count cs ≤ length cs * bits_per_chunk
unfolding taken_count
taken_count-le [] h = omega arith
taken_count-le (c ∷ cs) h = omega (arith, taken_bits-le c, taken_count-le cs h.1)

pub taken_count-nil : taken_count [] ≡ 0
unfolding taken_count
taken_count-nil = refl
