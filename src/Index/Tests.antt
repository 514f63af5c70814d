-- ===== src/Index/Tests.antt =====
-- Runs of the index allocator of driver/index_allocator.cpp, and its theorems there.
use roc_vad.Prelude.{◌≡◌, ◌≢◌, ◌<◌, ◌^◌, refl, true, false, arith, ◌==◌, if◌then◌else◌}
use roc_vad.Index.{
  Allocator, create, allocate_and_acquire, is_free, set_free, grown, resize, raise_maximum, choose,
  take_index,
}
use roc_vad.Index.Alloc.{IsValid, taken-IsValid, allocate_fresh, create_lem}

abbrev create-IsValid : IsValid create
create-IsValid = (create_lem 0).0

one_free : is_free create 1 ≡ true
one_free = (create_lem 1).1

zero_taken : is_free create 0 ≡ false
zero_taken = (create_lem 0).1

-- Two allocations give 1 and 2.
two_run : (allocate_and_acquire (allocate_and_acquire create).1).0 ≡ 2
unfolding allocate_and_acquire create raise_maximum choose is_free take_index set_free grown resize
two_run = refl

allocate_fresh_example :
    let (i, b) = allocate_and_acquire create in
    (is_free create i ≡ true)
    × (i ≢ 0)
    × (i < 2 ^ 32)
    × (is_free b 7 ≡ (if i == 7 then false else is_free create 7))
    × IsValid b
allocate_fresh_example = allocate_fresh create 1 7 create-IsValid (omega arith) one_free

-- An allocator with the index 5 taken.
abbrev five : Allocator
five = record {
  index_bitset = (set_free create 5 false).index_bitset;
  num_allocated = 2;
  last_allocated_index = 5;
  desired_maximum_index = 99;
}

five-IsValid : IsValid five
unfolding create
five-IsValid = taken-IsValid create create-IsValid 5 (omega arith) (create_lem 5).1 five refl refl
