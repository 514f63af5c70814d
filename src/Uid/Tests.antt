-- ===== src/Uid/Tests.antt =====
-- Runs of driver/uid_generator.cpp with a counter for the random numbers.
use Prim.Native.String.{String}
use roc_vad.Prelude.{ℕ, ◌+◌, ◌%◌, ◌≡◌, refl, false, [], ◌∷◌, some}
use roc_vad.Uid.{UidGenerator, make, generate, add_groups, add_digits, contains, generate_lem}

abbrev draw : ℕ → ℕ × ℕ
draw n = (n % 16, n + 1)

abbrev start : UidGenerator ℕ
start = record { rng = 0; uids = "" ∷ [] }

make_run : make draw 0 ≡ ("012345-6789ab-cdef01-234567", 24)
unfolding make add_groups add_digits
make_run = refl

abbrev after : UidGenerator ℕ
after = record { rng = 24; uids = "012345-6789ab-cdef01-234567" ∷ "" ∷ [] }

generate_run : generate draw 1 start ≡ some ("012345-6789ab-cdef01-234567", after)
unfolding generate make add_groups add_digits
generate_run = refl

run_is_fresh : contains start.uids (make draw 0).0 ≡ false
unfolding make add_groups add_digits
run_is_fresh = refl

generate_lem_example :
    (uid : String) × (v : UidGenerator ℕ) × (generate draw 1 start ≡ some (uid, v))
    × (contains start.uids uid ≡ false)
    × (v.uids ≡ uid ∷ start.uids)
generate_lem_example = generate_lem draw 0 start run_is_fresh
