-- ===== src/Index.antt =====
-- driver/index_allocator.hpp and driver/index_allocator.cpp: small unique device indices.
-- A 64-bit chunk of the bit set is the list of its bits, the lowest first; `true` is a taken index.
pub mod Bits
pub mod Search
pub mod Count
pub mod Alloc
mod Tests
use roc_vad.Prelude.{
  ℕ, zero, suc, ◌+◌, ◌-◌, ◌*◌, ◌/◌, ◌%◌, ◌^◌, max, Bool, true, false, not, ◌&&◌, List, [], ◌∷◌,
  ◌++◌, Option, none, some, ltb, leb, ◌==◌, if◌then◌else◌, length, get_or, set, replicate,
}
use roc_vad.Prelude.Word.{add32}

abbrev pub Chunk : Type 0
Chunk = List Bool

abbrev pub bits_per_chunk : ℕ
bits_per_chunk = 64

pub record Allocator : Type 0 where
  pub index_bitset : List Chunk
  pub num_allocated : ℕ
  pub last_allocated_index : ℕ
  pub desired_maximum_index : ℕ

-- `bitset_chunk_t(0)`, which `resize` puts in.
abbrev pub no_bits : Chunk
no_bits = replicate 64 false

-- `chunk_bits == bitset_chunk_t(-1)`
pub all_taken : Chunk → Bool
all_taken [] = true
all_taken (b ∷ bs) = b && all_taken bs

unfoldable pub is_free : Allocator → ℕ → Bool
is_free a index =
    let chunk = index / bits_per_chunk in
    let bit = index % bits_per_chunk in
    if leb (length a.index_bitset) chunk
    then true
    else not (get_or (get_or a.index_bitset chunk no_bits) bit false)

unfoldable pub resize : List Chunk → ℕ → List Chunk
resize chunks size =
    if leb (length chunks) size then chunks ++ replicate (size - length chunks) no_bits else chunks

-- The chunks that `set_free_` writes to: enough of them for the index.
unfoldable pub grown : List Chunk → ℕ → List Chunk
grown chunks index =
    if leb (length chunks) (index / bits_per_chunk)
    then resize chunks (index / bits_per_chunk + 1)
    else chunks

unfoldable pub set_free : Allocator → ℕ → Bool → Allocator
set_free a index free =
    let chunk = index / bits_per_chunk in
    let bit = index % bits_per_chunk in
    let chunks = grown a.index_bitset index in
    record a { index_bitset = set chunks chunk (set (get_or chunks chunk no_bits) bit (not free)) }

-- The inner loop of `find_free_`, over the bits of a chunk from `bit` on.
pub scan_bits : ℕ → ℕ → ℕ → Chunk → ℕ → Option ℕ
scan_bits start_index n chunk [] bit = none
scan_bits start_index n chunk (taken ∷ bits) bit =
    let rest = scan_bits start_index n chunk bits (bit + 1) in
    let index = (chunk * bits_per_chunk + bit) % 2 ^ 32 in
    if not taken then (if n == 0 && ltb index start_index then rest else some index) else rest

-- The outer loop, with `rounds` rounds left.
pub scan_chunks : List Chunk → ℕ → ℕ → ℕ → Option ℕ
scan_chunks chunks start_index zero n = none
scan_chunks chunks start_index (suc rounds) n =
    let rest = scan_chunks chunks start_index rounds (n + 1) in
    let chunk = (start_index / bits_per_chunk + n) % length chunks in
    let bits = get_or chunks chunk no_bits in
    if all_taken bits
    then rest
    else elim (scan_bits start_index n chunk bits 0) [ some index ↦ some index | none ↦ rest ]

pub find_free : Allocator → ℕ → ℕ
find_free a start_index =
    let beyond = length a.index_bitset * bits_per_chunk % 2 ^ 32 in
    if length a.index_bitset == 0
    then beyond
    else elim (scan_chunks a.index_bitset start_index (length a.index_bitset + 1) 0) [
      | some index ↦ index
      | none ↦ beyond
    ]

-- The constructor.
unfoldable pub create : Allocator
create =
    record (set_free
      (record {
        index_bitset = [];
        num_allocated = 0;
        last_allocated_index = 0;
        desired_maximum_index = 99;
      })
      0 false) { num_allocated = 1; last_allocated_index = 0 }

-- The head of `allocate_and_acquire`: raising the desired maximum.
unfoldable pub raise_maximum : Allocator → ℕ → Allocator
raise_maximum a next_index =
    if leb a.desired_maximum_index next_index && ltb (a.desired_maximum_index / 2) a.num_allocated
    then (if leb a.desired_maximum_index ((2 ^ 32 - 1) / 2)
        then record a { desired_maximum_index = a.desired_maximum_index * 2 % 2 ^ 32 }
        else a)
    else a

-- The choice of the index.
unfoldable pub choose : Allocator → ℕ → ℕ
choose a next_index =
    if leb a.desired_maximum_index next_index
    then find_free a 0
    else if not (is_free a next_index)
    then find_free a (add32 next_index 1)
    else next_index

unfoldable pub take_index : Allocator → ℕ → Allocator
take_index a index = record (set_free a index false) {
  num_allocated = a.num_allocated + 1;
  last_allocated_index = index;
}

unfoldable pub allocate_and_acquire : Allocator → ℕ × Allocator
allocate_and_acquire a =
    let next_index = add32 a.last_allocated_index 1 in
    let raised = raise_maximum a next_index in
    let index = choose raised next_index in (index, take_index raised index)

-- `none` is the exception.
unfoldable pub acquire : Allocator → ℕ → Option Allocator
acquire a index =
    if not (is_free a index)
    then none
    else some (record (set_free a index false) {
      num_allocated = a.num_allocated + 1;
      last_allocated_index = max a.last_allocated_index index;
    })

-- `num_allocated_--` wraps at zero.
unfoldable pub release : Allocator → ℕ → Allocator
release a index = record (set_free a index true) {
  num_allocated = (a.num_allocated + 2 ^ 64 - 1) % 2 ^ 64;
}
