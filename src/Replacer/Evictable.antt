-- ===== src/Replacer/Evictable.antt =====
-- lru_k_replacer.cpp, `setEvictable`.
use minidb_cpp.Prelude.{
  ℕ, Bool, true, false, not, ◌≡◌, ◌≢◌, refl, some, List, [], arith, if◌then◌else◌, get_elem?, set,
  ◌==◌, ==_iff, ok, err, get_elem?-set_self, get_elem?-set, All-set, All-get_elem?, length-set,
  count_if-set, ◌⊎◌, inl, inr, Bool-cases,
}
use minidb_cpp.Replacer.{
  Candidate, Entry, Replacer, candidate_of, insert_ordered, erase_ordered, set_evictable,
  untracked_frame,
}
use minidb_cpp.Replacer.Invariant.{
  Inv, Indexes, EntryOk, erased_one, erase-Indexes, inserted_new, insert-Indexes,
}
use minidb_cpp.Replacer.Steps.{
  require_entry-ok, candidate_for-ok, erase_candidate-ok, insert_candidate-ok, candidate_of-some,
}

module _ (r : Replacer) (frame : ℕ) (e : Entry) (v : Inv r)
    (found : get_elem? r.entries frame ≡ some e) (live : e.tracked ≡ true) where
  entry_ok : EntryOk r.k r.current_timestamp e
  entry_ok = All-get_elem? _ r.entries frame found v.entries_ok

  abbrev turned : Bool → Entry
  turned b = record e { evictable = b }

  abbrev after : Bool → List Candidate → Replacer
  after b cs = record r { entries = set r.entries frame (turned b); candidates = cs }

  turned_ok : (b : Bool) → EntryOk r.k r.current_timestamp (turned b)
  turned_ok b = ground (arith, entry_ok, live)

  after-Inv :
      (b : Bool) (cs : List Candidate)
      → Indexes r.k (set r.entries frame (turned b)) cs
      → Inv (after b cs)
  after-Inv b cs ix = record {
    k_pos = v.k_pos;
    capacity_pos = omega (arith, v, length-set r.entries frame (turned b));
    capacity_small = omega (arith, v, length-set r.entries frame (turned b));
    clock_small = v.clock_small;
    entries_ok = All-set _ r.entries frame _ (turned_ok b) v.entries_ok;
    tracked =
        ground (arith, count_if-set (λ e. e.tracked) r.entries frame e (turned b) found, v.tracked);
    indexes = ix;
  }

  history_some : e.history ≢ []
  history_some = ground (arith, entry_ok, live)

  module _ (c : Candidate) (own : candidate_of r.k frame e ≡ some c) where
    turn_off :
        e.evictable ≡ true
        → set_evictable frame false r ≡ (after false (erase_ordered c r.candidates).0, ok tt)
    unfolding set_evictable
    turn_off on = ground (
      arith,
      require_entry-ok r frame e found,
      erase_candidate-ok r frame c (candidate_for-ok r frame e c found live own) (
          erased_one r.k r.entries r.candidates frame e (turned false) c found own on refl
            v.indexes),
    )

    turn_on :
        e.evictable ≡ false
        → candidate_of r.k frame (turned true) ≡ some c
        → set_evictable frame true r ≡ (after true (insert_ordered c r.candidates).0, ok tt)
    unfolding set_evictable
    turn_on off own' = ground (
      arith,
      require_entry-ok r frame e found,
      insert_candidate-ok (after true r.candidates) frame c
          (candidate_for-ok (after true r.candidates) frame (turned true) c
            (get_elem?-set_self r.entries frame e (turned true) found) live own')
          (inserted_new r.k r.entries r.candidates frame e (turned true) c found own' off refl
            v.indexes),
    )

  abbrev Turned : Bool → Type 0
  Turned b =
      (r' : Replacer) × (set_evictable frame b r ≡ (r', ok tt))
      × Inv r'
      × (r'.current_timestamp ≡ r.current_timestamp)
      × ((g : ℕ)
          → get_elem? r'.entries g
            ≡ (if frame == g then some (turned b) else get_elem? r.entries g))

  unturned : (b : Bool) → e.evictable ≡ b → Turned b
  unfolding set_evictable
  unturned b same = (r, ground (arith, require_entry-ok r frame e found), v, refl, unmoved)
    where
      unmoved :
          (g : ℕ)
          → get_elem? r.entries g ≡ (if frame == g then some (turned b) else get_elem? r.entries g)
      unmoved g = elim (Bool-cases (frame == g)) [
        | inl here ↦ rw (here, ← (==_iff frame g).0 here, ← same) found
        | inr there ↦ rw there refl
      ]

  Turned-to : (b : Bool) → e.evictable ≡ not b → Turned b
  unfolding candidate_of
  Turned-to b other =
      let (c, own) = candidate_of-some r.k frame e history_some in
      elim b as (λ b. e.evictable ≡ not b → Turned b) [
        | true ↦ λ off. (
          after true (insert_ordered c r.candidates).0,
          turn_on c own off own,
          after-Inv true (insert_ordered c r.candidates).0 (
              insert-Indexes r.k r.entries r.candidates frame e (turned true) c found own off refl
                v.indexes),
          refl,
          λ g. get_elem?-set r.entries frame g e (turned true) found,
        )
        | false ↦ λ on. (
          after false (erase_ordered c r.candidates).0,
          turn_off c own on,
          after-Inv false (erase_ordered c r.candidates).0 (
              erase-Indexes r.k r.entries r.candidates frame e (turned false) c found own on refl
                v.indexes),
          refl,
          λ g. get_elem?-set r.entries frame g e (turned false) found,
        )
      ]
        other

  turn : (b : Bool) → Turned b
  turn true = elim (Bool-cases e.evictable) [ inl p ↦ unturned true p | inr p ↦ Turned-to true p ]
  turn false = elim (Bool-cases e.evictable) [
    | inl p ↦ Turned-to false p
    | inr p ↦ unturned false p
  ]

-- `setEvictable` of a tracked frame returns, keeps the invariant and the clock, and changes the flag
-- of that frame alone. Of an untracked frame it throws and changes nothing.
pub set_evictable-Inv :
    (r : Replacer) (frame g : ℕ) (e : Entry) (b : Bool)
    → Inv r
    → get_elem? r.entries frame ≡ some e
    → let out = set_evictable frame b r in
      ((e.tracked ≡ true)
        × (out.1 ≡ ok tt)
        × Inv out.0
        × (out.0.current_timestamp ≡ r.current_timestamp)
        × (get_elem? out.0.entries g
            ≡ (if frame == g then some (record e { evictable = b }) else get_elem? r.entries g)))
      ⊎ ((e.tracked ≡ false) × (out ≡ (r, err untracked_frame)))
set_evictable-Inv r frame g e b v found = elim (Bool-cases e.tracked) [
  | inl live ↦
      let (r', run, inv, clock, entry) = turn r frame e v found live b in
      inl (rw run (live, refl, inv, clock, entry g))
  | inr dead ↦ inr (dead, unfold set_evictable in ground (arith, require_entry-ok r frame e found))
]
