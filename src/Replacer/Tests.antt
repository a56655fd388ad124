-- ===== src/Replacer/Tests.antt =====
-- lru_k_replacer.cpp on a replacer of three frames with k = 2.
use minidb_cpp.Prelude.{
  ℕ, true, false, ◌≡◌, refl, subst, ◌⊎◌, some, List, [], ◌∷◌, arith, get_elem?, ok, err,
  if◌then◌else◌,
}
use minidb_cpp.Replacer.{
  Entry, Replacer, make, record_access, set_evictable, remove, evict, victim, default_entry,
  max_uint64, require_entry, candidate_for, candidate_of, candidate_less, insert_ordered,
  erase_ordered, erase_candidate, insert_candidate, push_access, stamp, untracked_frame,
  not_evictable, timestamp_exhausted,
}
use minidb_cpp.Replacer.Invariant.{Inv}
use minidb_cpp.Replacer.Access.{record_access-Inv, record_access_exhausted}
use minidb_cpp.Replacer.Evictable.{set_evictable-Inv}
use minidb_cpp.Replacer.Evict.{remove-Inv}
use minidb_cpp.Replacer.Policy.{GoesBefore, victim-GoesBefore, evict-Inv, is_victim}
use minidb_cpp.Replacer.Reach.{
  Call, accesses, sets, removes, step, run, run-make-Inv, make-Inv, Makes,
}

abbrev three : Replacer
three = record {
  k = 2;
  current_timestamp = 0;
  tracked_count = 0;
  entries = default_entry ∷ default_entry ∷ default_entry ∷ [];
  candidates = [];
}

three_made : make 3 2 ≡ ok three
unfolding make
three_made = refl

abbrev calls : List Call
calls =
    accesses 0
    ∷ accesses 1
    ∷ accesses 0
    ∷ accesses 2
    ∷ sets 0 true
    ∷ sets 1 true
    ∷ accesses 9
    ∷ removes 2
    ∷ []

abbrev twice : Entry
twice = record { history = 1 ∷ 3 ∷ []; tracked = true; evictable = true }

abbrev once : Entry
once = record { history = 2 ∷ []; tracked = true; evictable = true }

-- Frame 0 has two accesses and frame 1 has one; both are evictable, and frame 2 is not.
abbrev used : Replacer
used = record {
  k = 2;
  current_timestamp = 4;
  tracked_count = 3;
  entries = twice ∷ once ∷ record { history = 4 ∷ []; tracked = true; evictable = false } ∷ [];
  candidates =
      record { infinite_distance = true; priority_timestamp = 2; frame_id = 1 }
      ∷ record { infinite_distance = false; priority_timestamp = 1; frame_id = 0 }
      ∷ [];
}

used_reached : run three calls ≡ used
unfolding run step record_access set_evictable remove require_entry candidate_for candidate_of
    candidate_less insert_ordered erase_ordered erase_candidate insert_candidate push_access stamp
used_reached = refl

run-make-Inv_example : Inv (run three calls)
run-make-Inv_example = run-make-Inv 3 2 three calls three_made (omega arith)

used-Inv : Inv used
used-Inv = subst Inv used_reached (run-make-Inv 3 2 three calls three_made (omega arith))

make-Inv_example : Makes 3 2
make-Inv_example = make-Inv 3 2

-- The same state when the clock has run out.
abbrev late : Replacer
late = record used { current_timestamp = max_uint64 }

late-Inv : Inv late
late-Inv = record {
  k_pos = omega arith;
  capacity_pos = omega arith;
  capacity_small = omega arith;
  clock_small = omega arith;
  entries_ok = (
    ((λ e. cc), omega arith, omega arith),
    (((λ e. cc), omega arith, omega arith), (((λ e. cc), omega arith, omega arith), tt)),
  );
  tracked = refl;
  indexes = used-Inv.indexes;
}

record_access_exhausted_example :
    ((record_access 0 late).1 ≡ err timestamp_exhausted) × (¬ Inv (record_access 0 late).0)
record_access_exhausted_example = record_access_exhausted late 0 twice late-Inv refl refl refl

-- The frame with fewer than two accesses goes first, though the other was used earlier.
victim-used : victim used ≡ some 1
unfolding victim
victim-used = refl

victim-GoesBefore_example :
    (true ≡ false)
    ⊎ ((f : ℕ) × (e : Entry) × (victim used ≡ some f)
        × (get_elem? used.entries f ≡ some e)
        × (e.evictable ≡ true)
        × GoesBefore 2 e twice)
victim-GoesBefore_example = victim-GoesBefore used 0 twice used-Inv refl

evict-Inv_example :
    let out = evict used in
    (out.1 ≡ ok (victim used))
    × Inv out.0
    × (out.0.current_timestamp ≡ 4)
    × (get_elem? out.0.entries 1
        ≡ (if is_victim 1 (victim used) then some default_entry else get_elem? used.entries 1))
evict-Inv_example = evict-Inv used 1 used-Inv

record_access-Inv_example :
    let out = record_access 1 used in
    let entry : Entry = record { history = 2 ∷ 5 ∷ []; tracked = true; evictable = true } in
    (out.1 ≡ ok tt)
    × Inv out.0
    × (out.0.current_timestamp ≡ 5)
    × (get_elem? out.0.entries 1 ≡ some entry)
record_access-Inv_example = record_access-Inv used 1 1 once used-Inv refl (omega arith)

set_evictable-Inv_example :
    let out = set_evictable 0 false used in
    ((true ≡ true)
      × (out.1 ≡ ok tt)
      × Inv out.0
      × (out.0.current_timestamp ≡ 4)
      × (get_elem? out.0.entries 0 ≡ some (record twice { evictable = false })))
    ⊎ ((true ≡ false) × (out ≡ (used, err untracked_frame)))
set_evictable-Inv_example = set_evictable-Inv used 0 0 twice false used-Inv refl

remove-Inv_example :
    let out = remove 0 used in
    ((true ≡ true)
      × (out.1 ≡ ok true)
      × Inv out.0
      × (out.0.current_timestamp ≡ 4)
      × (get_elem? out.0.entries 0 ≡ some default_entry))
    ⊎ ((true ≡ true) × (true ≡ false) × (out ≡ (used, err not_evictable)))
    ⊎ ((true ≡ false) × (out ≡ (used, ok false)))
remove-Inv_example = remove-Inv used 0 0 twice used-Inv refl
