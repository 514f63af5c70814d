-- ===== src/Index/Alloc.antt =====
-- The public operations of driver/index_allocator.cpp: each takes or gives back one index.
use roc_vad.Prelude.{
  ℕ, ◌+◌, ◌-◌, ◌*◌, ◌/◌, ◌^◌, ◌≤◌, ◌<◌, ◌≡◌, ◌≢◌, ◌⊎◌, inl, inr, refl, sym, ap, Bool-cases, [], max,
  ◌∙◌, Bool, true, false, not, none, some, arith, ◌==◌, if◌then◌else◌, length, replicate, get_or,
  set, ◌%◌, length-append, length-set, length-replicate,
}
use roc_vad.Prelude.Word.{add32}
use roc_vad.Index.{
  bits_per_chunk, Allocator, no_bits, is_free, resize, grown, set_free, create, raise_maximum,
  choose, take_index, allocate_and_acquire, acquire, release,
}
use roc_vad.Index.Bits.{Sized, is_free-taken_at, set_free-Sized, taken_at-set_free}
use roc_vad.Index.Search.{find_free_lem, find_free-lt}
use roc_vad.Index.Count.{
  taken_count, taken_count-take, taken_count-give, taken_count-le, taken_count-nil,
}

pub record IsValid (a : Allocator) : Type 0 where
  pub sized : Sized a.index_bitset
  pub small : length a.index_bitset * bits_per_chunk ≤ 2 ^ 32
  pub zero_taken : is_free a 0 ≡ false
  pub counted : a.num_allocated ≡ taken_count a.index_bitset

length-set_free :
    (a : Allocator) (i : ℕ) (free : Bool)
    → i < 2 ^ 32
    → length a.index_bitset * bits_per_chunk ≤ 2 ^ 32
    → length (set_free a i free).index_bitset * bits_per_chunk ≤ 2 ^ 32
unfolding set_free grown resize
length-set_free a i free h small = ground (
  arith,
  length-set (grown a.index_bitset i) (i / bits_per_chunk) (
      set (get_or (grown a.index_bitset i) (i / bits_per_chunk) no_bits) (i % bits_per_chunk)
        (not free)),
  length-append a.index_bitset (replicate (i / bits_per_chunk + 1 - length a.index_bitset) no_bits),
  length-replicate (i / bits_per_chunk + 1 - length a.index_bitset) no_bits,
)

pub is_free-set_free :
    (a : Allocator) (i j : ℕ) (free : Bool)
    → Sized a.index_bitset
    → is_free (set_free a i free) j ≡ (if i == j then free else is_free a j)
is_free-set_free a i j free h = ground (
  arith,
  is_free-taken_at a j,
  is_free-taken_at (set_free a i free) j,
  taken_at-set_free a i j free h,
)

-- Only the bit set matters.
is_free-same :
    (a b : Allocator) (j : ℕ) → a.index_bitset ≡ b.index_bitset → is_free a j ≡ is_free b j
is_free-same a b j e = ground (arith, is_free-taken_at a j, is_free-taken_at b j)

raise_maximum-keeps :
    (a : Allocator) (next : ℕ)
    → ((raise_maximum a next).index_bitset ≡ a.index_bitset)
      × ((raise_maximum a next).num_allocated ≡ a.num_allocated)
unfolding raise_maximum
raise_maximum-keeps a next = ground arith

choose-free :
    (a : Allocator) (next j : ℕ)
    → Sized a.index_bitset
    → length a.index_bitset * bits_per_chunk ≤ 2 ^ 32
    → j < 2 ^ 32
    → is_free a j ≡ true
    → is_free a (choose a next) ≡ true
unfolding choose
choose-free a next j h small l free =
    ground
      (arith, find_free_lem a h small 0 j l free, find_free_lem a h small (add32 next 1) j l free)

choose-lt :
    (a : Allocator) (next : ℕ)
    → Sized a.index_bitset
    → length a.index_bitset * bits_per_chunk ≤ 2 ^ 32
    → next < 2 ^ 32
    → choose a next < 2 ^ 32
unfolding choose
choose-lt a next h small l =
    ground (arith, find_free-lt a h small 0, find_free-lt a h small (add32 next 1))

-- Marking a free index as taken.
module _ (a : Allocator) (v : IsValid a) (i : ℕ) (l : i < 2 ^ 32) (free : is_free a i ≡ true) where
  pub taken-IsValid :
      (b : Allocator)
      → b.index_bitset ≡ (set_free a i false).index_bitset
      → b.num_allocated ≡ a.num_allocated + 1
      → IsValid b
  taken-IsValid b e n = record {
    sized = rw e (set_free-Sized a i false v.sized);
    small = rw e (length-set_free a i false l v.small);
    zero_taken =
        ground
          (arith, v, is_free-same b (set_free a i false) 0 e, is_free-set_free a i 0 false v.sized);
    counted = rw e (ground (arith, v, taken_count-take a i v.sized free));
  }

  pub taken-frame :
      (b : Allocator) (j : ℕ)
      → b.index_bitset ≡ (set_free a i false).index_bitset
      → is_free b j ≡ (if i == j then false else is_free a j)
  taken-frame b j e = is_free-same b (set_free a i false) j e ∙ is_free-set_free a i j false v.sized

raise_maximum-IsValid : (a : Allocator) (next : ℕ) → IsValid a → IsValid (raise_maximum a next)
raise_maximum-IsValid a next v = record {
  sized = rw bits v.sized;
  small = rw bits v.small;
  zero_taken = is_free-same (raise_maximum a next) a 0 bits ∙ v.zero_taken;
  counted = ground (arith, v, raise_maximum-keeps a next, ap taken_count bits);
}
  where
    bits : (raise_maximum a next).index_bitset ≡ a.index_bitset
    bits = (raise_maximum-keeps a next).0

-- As long as some index of 32 bits is free, `allocate_and_acquire` returns a free index, never zero,
-- which it marks as taken; every other index stays as it was, and the allocator stays valid.
pub allocate_fresh :
    (a : Allocator) (some_free j : ℕ)
    → IsValid a
    → some_free < 2 ^ 32
    → is_free a some_free ≡ true
    → let (i, b) = allocate_and_acquire a in
      (is_free a i ≡ true)
      × (i ≢ 0)
      × (i < 2 ^ 32)
      × (is_free b j ≡ (if i == j then false else is_free a j))
      × IsValid b
unfolding allocate_and_acquire take_index
allocate_fresh a some_free j v l free = (
  is_free-same a r i (sym bits) ∙ i_free,
  λ e. ground (arith, rv, i_free, ap (is_free r) e),
  i_lt,
  taken-frame r rv i i_lt i_free b j refl ∙ rw (is_free-same r a j bits) refl,
  taken-IsValid r rv i i_lt i_free b refl refl,
)
  where
    r : Allocator
    r = raise_maximum a (add32 a.last_allocated_index 1)

    bits : r.index_bitset ≡ a.index_bitset
    bits = (raise_maximum-keeps a (add32 a.last_allocated_index 1)).0

    rv : IsValid r
    rv = raise_maximum-IsValid a (add32 a.last_allocated_index 1) v

    i : ℕ
    i = choose r (add32 a.last_allocated_index 1)

    i_free : is_free r i ≡ true
    i_free =
        choose-free r (add32 a.last_allocated_index 1) some_free rv.sized rv.small l
          (is_free-same r a some_free bits ∙ free)

    i_lt : i < 2 ^ 32
    i_lt = choose-lt r (add32 a.last_allocated_index 1) rv.sized rv.small (omega arith)

    b : Allocator
    b = take_index r i

-- `acquire` refuses a taken index; it takes a free one of 32 bits, and changes no other.
pub acquire_exact :
    (a : Allocator) (i j : ℕ)
    → IsValid a
    → i < 2 ^ 32
    → ((is_free a i ≡ false) × (acquire a i ≡ none))
      ⊎ ((is_free a i ≡ true)
          × (b : Allocator) × (acquire a i ≡ some b)
          × (is_free b j ≡ (if i == j then false else is_free a j))
          × IsValid b)
unfolding acquire
acquire_exact a i j v l = elim (Bool-cases (is_free a i)) [
  | inr taken ↦ inl (taken, rw taken)
  | inl free ↦ inr (
    free,
    acquired,
    rw free,
    taken-frame a v i l free acquired j refl,
    taken-IsValid a v i l free acquired refl refl,
  )
]
  where
    acquired : Allocator
    acquired = record (set_free a i false) {
      num_allocated = a.num_allocated + 1;
      last_allocated_index = max a.last_allocated_index i;
    }

-- `release` of a taken index other than zero frees it, and changes no other.
pub release_exact :
    (a : Allocator) (i j : ℕ)
    → IsValid a
    → i ≢ 0
    → i < 2 ^ 32
    → is_free a i ≡ false
    → (is_free (release a i) j ≡ (if i == j then true else is_free a j)) × IsValid (release a i)
unfolding release
release_exact a i j v nz l taken = (
  is_free-same b (set_free a i true) j refl ∙ is_free-set_free a i j true v.sized,
  record {
    sized = set_free-Sized a i true v.sized;
    small = length-set_free a i true l v.small;
    zero_taken =
        ground (
          arith,
          v,
          is_free-same b (set_free a i true) 0 refl,
          is_free-set_free a i 0 true v.sized,
        );
    counted = omega (
      arith,
      v.counted,
      v.small,
      taken_count-give a i v.sized taken,
      taken_count-le a.index_bitset v.sized,
    );
  },
)
  where
    b : Allocator
    b = release a i

-- The members before the constructor's body.
abbrev blank : Allocator
blank = record {
  index_bitset = [];
  num_allocated = 0;
  last_allocated_index = 0;
  desired_maximum_index = 99;
}

is_free-blank : (j : ℕ) → is_free blank j ≡ true
unfolding is_free
is_free-blank j = ground arith

-- The allocator begins valid, with every index free but zero.
pub create_lem : (j : ℕ) → IsValid create × (is_free create j ≡ not (0 == j))
unfolding create
create_lem j = (
  record {
    sized = set_free-Sized blank 0 false tt;
    small = length-set_free blank 0 false (omega arith) (omega arith);
    zero_taken =
        is_free-same b (set_free blank 0 false) 0 refl ∙ is_free-set_free blank 0 0 false tt;
    counted = omega (arith, taken_count-take blank 0 tt (is_free-blank 0), taken_count-nil);
  },
  ground (
    arith,
    is_free-same b (set_free blank 0 false) j refl,
    is_free-set_free blank 0 j false tt,
    is_free-blank j,
  ),
)
  where
    b : Allocator
    b = create
