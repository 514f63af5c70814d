-- ===== src/Output/Entries.antt =====
-- The table of endpoints of tool/print.cpp: what it holds, and in which order.
use roc_vad.Prelude.{
  ℕ, suc, ◌+◌, ◌≤◌, ◌<◌, ◌≡◌, ◌⊎◌, inl, inr, refl, Bool, List, [], ◌∷◌, map, if◌then◌else◌, arith,
}
use roc_vad.Message.{RvEndpointInfo}
use roc_vad.Output.Endpoints.{
  SlotEndpoint, EndpointTable, interface_number, slot_of, push_back, add_endpoint, collect,
  insert_sorted, sort_slot, sort_slots,
}

-- An endpoint with its slot.
abbrev pub Entry : Type 0
Entry = ℕ × SlotEndpoint

abbrev pub entry : RvEndpointInfo → Entry
entry e = (slot_of e, (e.interface, e.uri))

-- The endpoints of a slot, before others.
abbrev pub onto : ℕ → List SlotEndpoint → List Entry → List Entry
onto slot [] rest = rest
onto slot (e ∷ es) rest = (slot, e) ∷ onto slot es rest

-- The endpoints of a table, slot by slot.
abbrev pub entries : EndpointTable → List Entry
entries [] = []
entries ((slot, es) ∷ table) = onto slot es (entries table)

-- From a slot and the number of an interface on, the slots never descend, and within a slot the numbers
-- of the interfaces do not.
abbrev pub InOrder : ℕ → ℕ → List Entry → Type 0
InOrder slot number [] = Unit
InOrder slot number ((s, (i, uri)) ∷ es) =
    ((slot < s) ⊎ ((slot ≡ s) × (number ≤ interface_number i))) × InOrder s (interface_number i) es

-- How many endpoints pass a test.
abbrev pub count_entries : (Entry → Bool) → List Entry → ℕ
count_entries test [] = 0
count_entries test (e ∷ es) = (if test e then 1 else 0) + count_entries test es

-- Numbers that strictly ascend from `low` on.
abbrev pub Ascend : ℕ → List ℕ → Type 0
Ascend low [] = Unit
Ascend low (n ∷ ns) = (low ≤ n) × Ascend (suc n) ns

-- Endpoints by interface, from the number `low` on.
abbrev pub ByInterface : ℕ → List SlotEndpoint → Type 0
ByInterface low [] = Unit
ByInterface low ((i, uri) ∷ es) = (low ≤ interface_number i) × ByInterface (interface_number i) es

abbrev pub AllByInterface : EndpointTable → Type 0
AllByInterface [] = Unit
AllByInterface ((slot, es) ∷ table) = ByInterface 0 es × AllByInterface table

abbrev pub slots : EndpointTable → List ℕ
slots [] = []
slots ((slot, es) ∷ table) = slot ∷ slots table

module _ (test : ℕ → SlotEndpoint → Bool) where
  abbrev pub count_slot : ℕ → List SlotEndpoint → ℕ
  count_slot slot [] = 0
  count_slot slot (e ∷ es) = (if test slot e then 1 else 0) + count_slot slot es

  abbrev pub count_table : EndpointTable → ℕ
  count_table [] = 0
  count_table ((slot, es) ∷ table) = count_slot slot es + count_table table

  abbrev pub count_infos : List RvEndpointInfo → ℕ
  count_infos [] = 0
  count_infos (e ∷ es) = (if test (slot_of e) (e.interface, e.uri) then 1 else 0) + count_infos es

  count_slot-push_back :
      (slot : ℕ) (e : SlotEndpoint) (es : List SlotEndpoint)
      → count_slot slot (push_back e es) ≡ (if test slot e then 1 else 0) + count_slot slot es
  unfolding push_back
  count_slot-push_back slot e [] = refl
  count_slot-push_back slot e (x ∷ es) = omega (arith, count_slot-push_back slot e es)

  count_table-add_endpoint :
      (slot : ℕ) (e : SlotEndpoint) (table : EndpointTable)
      → count_table (add_endpoint slot e table) ≡ (if test slot e then 1 else 0) + count_table table
  unfolding add_endpoint
  count_table-add_endpoint slot e [] = omega arith
  count_table-add_endpoint slot e ((s, es) ∷ table) =
      ground (arith, count_slot-push_back s e es, count_table-add_endpoint slot e table)

  pub count_table-collect :
      (infos : List RvEndpointInfo) (table : EndpointTable)
      → count_table (collect infos table) ≡ count_infos infos + count_table table
  unfolding collect
  count_table-collect [] table = omega arith
  count_table-collect (e ∷ infos) table = omega (
    arith,
    count_table-collect infos (add_endpoint (slot_of e) (e.interface, e.uri) table),
    count_table-add_endpoint (slot_of e) (e.interface, e.uri) table,
  )

  count_slot-insert_sorted :
      (slot : ℕ) (e : SlotEndpoint) (es : List SlotEndpoint)
      → count_slot slot (insert_sorted e es) ≡ (if test slot e then 1 else 0) + count_slot slot es
  unfolding insert_sorted
  count_slot-insert_sorted slot (i, uri) [] = refl
  count_slot-insert_sorted slot (i, uri) ((j, other) ∷ es) =
      ground (arith, count_slot-insert_sorted slot (i, uri) es)

  count_slot-sort_slot :
      (slot : ℕ) (es : List SlotEndpoint) → count_slot slot (sort_slot es) ≡ count_slot slot es
  unfolding sort_slot
  count_slot-sort_slot slot [] = refl
  count_slot-sort_slot slot (e ∷ es) =
      omega (arith, count_slot-insert_sorted slot e (sort_slot es), count_slot-sort_slot slot es)

  pub count_table-sort_slots :
      (table : EndpointTable) → count_table (sort_slots table) ≡ count_table table
  unfolding sort_slots
  count_table-sort_slots [] = refl
  count_table-sort_slots ((slot, es) ∷ table) =
      omega (arith, count_slot-sort_slot slot es, count_table-sort_slots table)

add_endpoint-Ascend :
    (low slot : ℕ) (e : SlotEndpoint) (table : EndpointTable)
    → low ≤ slot
    → Ascend low (slots table)
    → Ascend low (slots (add_endpoint slot e table))
unfolding add_endpoint
add_endpoint-Ascend low slot e [] h all = (h, tt)
add_endpoint-Ascend low slot e ((s, es) ∷ table) h all =
    ground (arith, add_endpoint-Ascend (suc s) slot e table)

pub collect-Ascend :
    (infos : List RvEndpointInfo) (table : EndpointTable)
    → Ascend 0 (slots table)
    → Ascend 0 (slots (collect infos table))
unfolding collect
collect-Ascend [] table all = all
collect-Ascend (e ∷ infos) table all =
    let more = add_endpoint (slot_of e) (e.interface, e.uri) table in
    collect-Ascend infos more
      (add_endpoint-Ascend 0 (slot_of e) (e.interface, e.uri) table (omega arith) all)

pub slots-sort_slots : (table : EndpointTable) → slots (sort_slots table) ≡ slots table
unfolding sort_slots
slots-sort_slots [] = refl
slots-sort_slots ((slot, es) ∷ table) = cc (slots-sort_slots table)

insert_sorted-ByInterface :
    (low : ℕ) (e : SlotEndpoint) (es : List SlotEndpoint)
    → low ≤ interface_number e.0
    → ByInterface low es
    → ByInterface low (insert_sorted e es)
unfolding insert_sorted
insert_sorted-ByInterface low (i, uri) [] h all = (h, tt)
insert_sorted-ByInterface low (i, uri) ((j, other) ∷ es) h all =
    ground (arith, insert_sorted-ByInterface (interface_number j) (i, uri) es)

sort_slot-ByInterface : (es : List SlotEndpoint) → ByInterface 0 (sort_slot es)
unfolding sort_slot
sort_slot-ByInterface [] = tt
sort_slot-ByInterface (e ∷ es) =
    insert_sorted-ByInterface 0 e (sort_slot es) (omega arith) (sort_slot-ByInterface es)

pub sort_slots-AllByInterface : (table : EndpointTable) → AllByInterface (sort_slots table)
unfolding sort_slots
sort_slots-AllByInterface [] = tt
sort_slots-AllByInterface ((slot, es) ∷ table) =
    (sort_slot-ByInterface es, sort_slots-AllByInterface table)

-- What follows the endpoints of a slot stands in a higher one.
onto-InOrder :
    (slot low s number : ℕ) (es : List SlotEndpoint) (rest : List Entry)
    → (s < slot) ⊎ ((s ≡ slot) × (number ≤ low))
    → ByInterface low es
    → ((t n : ℕ) → t ≤ slot → InOrder t n rest)
    → InOrder s number (onto slot es rest)
onto-InOrder slot low s number [] rest h all later = later s number (ground (arith, h))
onto-InOrder slot low s number ((i, uri) ∷ es) rest h (least, all) later = (
  ground (arith, h, least),
  onto-InOrder slot (interface_number i) slot (interface_number i) es rest (inr (refl, omega arith))
      all later,
)

entries-InOrder :
    (low s number : ℕ) (table : EndpointTable)
    → (s < low) ⊎ ((s ≤ low) × (number ≡ 0))
    → Ascend low (slots table)
    → AllByInterface table
    → InOrder s number (entries table)
entries-InOrder low s number [] h up all = tt
entries-InOrder low s number ((slot, es) ∷ table) h (least, up) (sorted, all) =
    onto-InOrder slot 0 s number es (entries table) (ground (arith, h, least)) sorted
      (λ t n below. entries-InOrder (suc slot) t n table (inl (omega (arith, below))) up all)

module _ (test : Entry → Bool) where
  abbrev pub apart : ℕ → SlotEndpoint → Bool
  apart slot e = test (slot, e)

  count-onto :
      (slot : ℕ) (es : List SlotEndpoint) (rest : List Entry)
      → count_entries test (onto slot es rest) ≡ count_slot apart slot es + count_entries test rest
  count-onto slot [] rest = omega arith
  count-onto slot (e ∷ es) rest = omega (arith, count-onto slot es rest)

  count-entries :
      (table : EndpointTable) → count_entries test (entries table) ≡ count_table apart table
  count-entries [] = refl
  count-entries ((slot, es) ∷ table) =
      omega (arith, count-onto slot es (entries table), count-entries table)

  count_infos-map :
      (es : List RvEndpointInfo) → count_infos apart es ≡ count_entries test (map entry es)
  count_infos-map [] = refl
  count_infos-map (e ∷ es) = omega (arith, count_infos-map es)

  -- The sorted table of a list of endpoints has the same endpoints, each as often.
  pub count-sorted :
      (es : List RvEndpointInfo)
      → count_entries test (entries (sort_slots (collect es [])))
        ≡ count_entries test (map entry es)
  count-sorted es = omega (
    arith,
    count-entries (sort_slots (collect es [])),
    count_table-sort_slots apart (collect es []),
    count_table-collect apart es [],
    count_infos-map es,
  )

pub slots-Ascend : (es : List RvEndpointInfo) → Ascend 0 (slots (sort_slots (collect es [])))
slots-Ascend es = rw (slots-sort_slots (collect es [])) (collect-Ascend es [] tt)

pub sorted-InOrder : (es : List RvEndpointInfo) → InOrder 0 0 (entries (sort_slots (collect es [])))
sorted-InOrder es =
    entries-InOrder 0 0 0 (sort_slots (collect es [])) (inr (omega arith, refl)) (slots-Ascend es)
      (sort_slots-AllByInterface (collect es []))
