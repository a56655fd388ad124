-- ===== src/Replacer/Evict.antt =====
-- lru_k_replacer.cpp, `remove` and `evict`.
use minidb_cpp.Prelude.{
  ℕ, true, false, ◌≡◌, ◌≢◌, refl, some, List, [], arith, if◌then◌else◌, get_elem?, set, ◌==◌, ok,
  err, get_elem?-set, All-set, All-get_elem?, length-set, count_if-set, ◌⊎◌, inl, inr, Bool-cases,
}
use minidb_cpp.Replacer.{
  Candidate, Entry, Replacer, candidate_of, erase_ordered, forget, remove, default_entry, decrement,
  not_evictable,
}
use minidb_cpp.Replacer.Invariant.{Inv, Indexes, erased_one, erase-Indexes}
use minidb_cpp.Replacer.Steps.{
  require_entry-ok, candidate_for-ok, erase_candidate-ok, candidate_of-some,
}
use minidb_cpp.Replacer.Access.{evictable-tracked}

module _ (r : Replacer) (frame : ℕ) (e : Entry) (v : Inv r)
    (found : get_elem? r.entries frame ≡ some e) (on : e.evictable ≡ true) where
  live : (e.tracked ≡ true) × (e.history ≢ [])
  live =
      evictable-tracked r.k r.current_timestamp e
        (All-get_elem? _ r.entries frame found v.entries_ok) on

  module _ (c : Candidate) (own : candidate_of r.k frame e ≡ some c) where
    off : Entry
    off = record e { evictable = false }

    fewer : List Candidate
    fewer = (erase_ordered c r.candidates).0

    fewer-Indexes : Indexes r.k (set r.entries frame default_entry) fewer
    unfolding fewer
    fewer-Indexes =
        erase-Indexes r.k r.entries r.candidates frame e default_entry c found own on refl v.indexes

    forgotten : Replacer
    forgotten = record r {
      tracked_count = decrement r.tracked_count;
      entries = set r.entries frame default_entry;
      candidates = fewer;
    }

    forgotten-Inv : Inv forgotten
    unfolding forgotten decrement
    forgotten-Inv = record {
      k_pos = v.k_pos;
      capacity_pos = omega (arith, v, length-set r.entries frame default_entry);
      capacity_small = omega (arith, v, length-set r.entries frame default_entry);
      clock_small = v.clock_small;
      entries_ok = All-set _ r.entries frame _ (refl, refl) v.entries_ok;
      tracked = ground (
        arith,
        count_if-set (λ e. e.tracked) r.entries frame e default_entry found,
        v.tracked,
        live,
      );
      indexes = fewer-Indexes;
    }

    forget-ok : forget frame r ≡ (forgotten, ok true)
    unfolding forget forgotten fewer
    forget-ok = ground (
      arith,
      erase_candidate-ok r frame c (candidate_for-ok r frame e c found live.0 own) (
          erased_one r.k r.entries r.candidates frame e (record e { evictable = false }) c found own
            on refl v.indexes),
    )

  abbrev pub Removed : Type 0
  Removed =
      (r' : Replacer) × (remove frame r ≡ (r', ok true))
      × Inv r'
      × (r'.current_timestamp ≡ r.current_timestamp)
      × ((g : ℕ)
          → get_elem? r'.entries g
            ≡ (if frame == g then some default_entry else get_elem? r.entries g))

  pub removed : Removed
  unfolding remove forgotten
  removed =
      let (c, own) = candidate_of-some r.k frame e live.1 in
      (
        forgotten c own,
        ground (arith, require_entry-ok r frame e found, live, forget-ok c own),
        forgotten-Inv c own,
        refl,
        λ g. get_elem?-set r.entries frame g e default_entry found,
      )

-- `remove` in each case of the frame: an evictable one is forgotten, with the invariant and the
-- clock kept and no other frame changed; a tracked one that is not evictable throws, and an untracked one answers
-- false, and both change nothing.
pub remove-Inv :
    (r : Replacer) (frame g : ℕ) (e : Entry)
    → Inv r
    → get_elem? r.entries frame ≡ some e
    → let out = remove frame r in
      ((e.evictable ≡ true)
        × (out.1 ≡ ok true)
        × Inv out.0
        × (out.0.current_timestamp ≡ r.current_timestamp)
        × (get_elem? out.0.entries g
            ≡ (if frame == g then some default_entry else get_elem? r.entries g)))
      ⊎ ((e.tracked ≡ true) × (e.evictable ≡ false) × (out ≡ (r, err not_evictable)))
      ⊎ ((e.tracked ≡ false) × (out ≡ (r, ok false)))
remove-Inv r frame g e v found = elim (Bool-cases e.evictable) [
  | inl on ↦
      let (r', run, inv, clock, entry) = removed r frame e v found on in
      inl (rw run (on, refl, inv, clock, entry g))
  | inr off ↦
      inr (unfold remove in ground (arith, require_entry-ok r frame e found, Bool-cases e.tracked))
]
