-- ===== src/Replacer/Access.antt =====
-- lru_k_replacer.cpp, `recordAccess`.
use minidb_cpp.Prelude.{
  ℕ, ◌+◌, ◌-◌, ◌++◌, ◌∷◌, drop, ltb, length-append, ◌≤◌, ◌<◌, Bool, true, false, ◌≡◌, ◌≢◌, refl,
  subst, some, List, [], arith, length, if◌then◌else◌, get_elem?, set, ◌==◌, ok, err,
  get_elem?-set_self, get_elem?-none, get_elem?-set, set-set, All-set, All-map, All-get_elem?,
  length-set, count_if-set, inl, inr, Bool-cases,
}
use minidb_cpp.Replacer.{
  Candidate, Entry, Replacer, candidate_of, require_entry, insert_ordered, erase_ordered,
  erase_candidate, insert_candidate, push_access, stamp, max_uint64, record_access, set_evictable,
  remove, frame_out_of_range, timestamp_exhausted,
}
use minidb_cpp.Replacer.Invariant.{
  Inv, Indexes, EntryOk, TrackedOk, erased_one, erased_size, erase-Indexes, inserted_new,
  insert-Indexes, change-Indexes,
}
use minidb_cpp.Replacer.Steps.{
  require_entry-ok, candidate_for-ok, erase_candidate-ok, insert_candidate-ok, pushed_entry,
  stamped, stamp-ok, candidate_of-some, pushed-EntryOk, EntryOk-later,
}

-- An evictable frame is tracked, and so has a history.
pub evictable-tracked :
    (k now : ℕ) (e : Entry)
    → EntryOk k now e
    → e.evictable ≡ true
    → (e.tracked ≡ true) × (e.history ≢ [])
evictable-tracked k now e h on = go e.tracked refl h
  where
    go : (b : Bool) → e.tracked ≡ b → TrackedOk k now b e → (e.tracked ≡ true) × (e.history ≢ [])
    go false t p = cc (p.0)
    go true t p = (t, p.0)

module _ (r : Replacer) (frame : ℕ) (e : Entry) (v : Inv r)
    (found : get_elem? r.entries frame ≡ some e) (clock : r.current_timestamp < max_uint64) where
  pushed_ok : EntryOk r.k (r.current_timestamp + 1) (pushed_entry r e)
  pushed_ok = pushed-EntryOk r e v.k_pos (All-get_elem? _ r.entries frame found v.entries_ok)

  stamped-Inv :
      (cs : List Candidate)
      → Indexes r.k (set r.entries frame (pushed_entry r e)) cs
      → Inv (record (stamped r frame e) { candidates = cs })
  stamped-Inv cs ix = record {
    k_pos = v.k_pos;
    capacity_pos = omega (arith, v, length-set r.entries frame (pushed_entry r e));
    capacity_small = omega (arith, v, length-set r.entries frame (pushed_entry r e));
    clock_small = omega arith;
    entries_ok =
        All-set _ r.entries frame _ pushed_ok
          (All-map _ _ (EntryOk-later r.k r.current_timestamp) r.entries v.entries_ok);
    tracked = ground (
      arith,
      count_if-set (λ e. e.tracked) r.entries frame e (pushed_entry r e) found,
      v.tracked,
    );
    indexes = ix;
  }

  -- The access of a frame that is not evictable.
  quiet : e.evictable ≡ false → record_access frame r ≡ (stamped r frame e, ok tt)
  unfolding record_access
  quiet off = ground (arith, require_entry-ok r frame e found, stamp-ok r frame e clock)

  -- The access of an evictable frame: its candidate leaves the set, and the new one enters.
  module _ (on : e.evictable ≡ true) (c c' : Candidate) (own : candidate_of r.k frame e ≡ some c)
      (own' : candidate_of r.k frame (pushed_entry r e) ≡ some c') where
    paused : Entry
    paused = record e { evictable = false }

    fewer : List Candidate
    fewer = (erase_ordered c r.candidates).0

    fewer-Indexes : Indexes r.k (set r.entries frame paused) fewer
    unfolding fewer paused
    fewer-Indexes =
        erase-Indexes r.k r.entries r.candidates frame e paused c found own on refl v.indexes

    again : List Candidate
    again = (insert_ordered c' fewer).0

    found_paused : get_elem? (set r.entries frame paused) frame ≡ some paused
    found_paused = get_elem?-set_self r.entries frame e paused found

    again-Indexes : Indexes r.k (set r.entries frame (pushed_entry r e)) again
    unfolding again paused
    again-Indexes =
        subst (λ (es : List Entry). Indexes r.k es again)
          (set-set r.entries frame paused (pushed_entry r e))
          (insert-Indexes r.k (set r.entries frame paused) fewer frame paused (pushed_entry r e) c'
            found_paused own' refl on fewer-Indexes)

    new : (insert_ordered c' fewer).1 ≡ true
    unfolding paused
    new =
        inserted_new r.k (set r.entries frame paused) fewer frame paused (pushed_entry r e) c'
          found_paused own' refl on fewer-Indexes

    tracked : e.tracked ≡ true
    tracked =
        (evictable-tracked r.k r.current_timestamp e
          (All-get_elem? _ r.entries frame found v.entries_ok) on).0

    first : erase_candidate frame r ≡ (record r { candidates = fewer }, ok tt)
    unfolding fewer
    first = erase_candidate-ok r frame c (candidate_for-ok r frame e c found tracked own) (
        erased_one r.k r.entries r.candidates frame e (record e { evictable = false }) c found own
          on refl v.indexes)

    last :
        insert_candidate frame (record (stamped r frame e) { candidates = fewer })
        ≡ (record (stamped r frame e) { candidates = again }, ok tt)
    unfolding again
    last =
        insert_candidate-ok (record (stamped r frame e) { candidates = fewer }) frame c'
          (candidate_for-ok (record (stamped r frame e) { candidates = fewer }) frame
            (pushed_entry r e) c' (get_elem?-set_self r.entries frame e (pushed_entry r e) found)
            refl own')
          new

    loud : record_access frame r ≡ (record (stamped r frame e) { candidates = again }, ok tt)
    unfolding record_access
    loud = ground (
      arith,
      require_entry-ok r frame e found,
      first,
      stamp-ok (record r { candidates = fewer }) frame e clock,
      last,
    )

  -- What an access of a frame in range does before the clock runs out.
  abbrev Accessed : Type 0
  Accessed =
      (cs : List Candidate) × (record_access frame r
        ≡ (record (stamped r frame e) { candidates = cs }, ok tt))
      × Inv (record (stamped r frame e) { candidates = cs })

  accessed : Accessed
  accessed = elim (Bool-cases e.evictable) [
    | inl on ↦ loudly on
    | inr off ↦ (
      r.candidates,
      quiet off,
      stamped-Inv r.candidates (
          change-Indexes r.k r.entries r.candidates frame e (pushed_entry r e) found off off
            v.indexes),
    )
  ]
    where
      loudly : e.evictable ≡ true → Accessed
      loudly on =
          let (t, h) =
            evictable-tracked r.k r.current_timestamp e
              (All-get_elem? _ r.entries frame found v.entries_ok) on in
          let (c, own) = candidate_of-some r.k frame e h in
          let (c', own') = candidate_of-some r.k frame (pushed_entry r e) pushed_ok.0 in
          (
            again on c c' own own',
            loud on c c' own own',
            stamped-Inv (again on c c' own own') (again-Indexes on c c' own own'),
          )

drop_one : (ts : List ℕ) → elim ts [ [] ↦ [] | t ∷ us ↦ us ] ≡ drop 1 ts
drop_one [] = refl
drop_one (t ∷ ts) = refl

-- Where at most k values are kept, what is pushed out is all but the last k.
push_access-drop :
    (k now : ℕ) (history : List ℕ)
    → length history ≤ k
    → push_access k now history ≡ drop (length (history ++ now ∷ []) - k) (history ++ now ∷ [])
unfolding push_access
push_access-drop k now history h =
    let pushed = history ++ now ∷ [] in
    let grown : length pushed ≡ length history + 1 = length-append history (now ∷ []) in
    elim (Bool-cases (ltb k (length pushed))) [
      | inl full ↦
          let one : length pushed - k ≡ 1 = ground (arith, full, grown, h) in
          rw (full, one) (drop_one pushed)
      | inr room ↦ let none : length pushed - k ≡ 0 = ground (arith, room) in rw (room, none) refl
    ]

history-length : (k now : ℕ) (e : Entry) → EntryOk k now e → length e.history ≤ k
history-length k now e h = go e.tracked h
  where
    go : (b : Bool) → TrackedOk k now b e → length e.history ≤ k
    go false p = rw p.1 (omega arith)
    go true p = p.1

-- Before the clock runs out, an access of a frame in range returns and keeps the invariant. It moves
-- the clock on, makes the frame's history the last k values of the old history with the new value at
-- its end (all of them, where they are k at most), marks the frame as tracked, leaves its evictability,
-- and changes no other frame.
pub record_access-Inv :
    (r : Replacer) (frame g : ℕ) (e : Entry)
    → Inv r
    → get_elem? r.entries frame ≡ some e
    → r.current_timestamp < max_uint64
    → let out = record_access frame r in
      let values = e.history ++ (r.current_timestamp + 1) ∷ [] in
      let entry : Entry = record {
        history = drop (length values - r.k) values;
        tracked = true;
        evictable = e.evictable;
      } in
      (out.1 ≡ ok tt)
      × Inv out.0
      × (out.0.current_timestamp ≡ r.current_timestamp + 1)
      × (get_elem? out.0.entries g ≡ (if frame == g then some entry else get_elem? r.entries g))
record_access-Inv r frame g e v found clock =
    let (cs, run, inv) = accessed r frame e v found clock in
    let kept = push_access-drop r.k (r.current_timestamp + 1) e.history (
      history-length r.k r.current_timestamp e
        (All-get_elem? _ r.entries frame found v.entries_ok)) in
    rw (← kept, run) (refl, inv, refl, get_elem?-set r.entries frame g e _ found)

-- A call for a frame beyond the capacity throws, whatever the state, and changes nothing.
pub frame_out_of_range_throws :
    (r : Replacer) (frame : ℕ) (b : Bool)
    → length r.entries ≤ frame
    → (record_access frame r ≡ (r, err frame_out_of_range))
      × (set_evictable frame b r ≡ (r, err frame_out_of_range))
      × (remove frame r ≡ (r, err frame_out_of_range))
unfolding record_access set_evictable remove require_entry
frame_out_of_range_throws r frame b h =
    let e = get_elem?-none r.entries frame h in (ground arith, ground arith, ground arith)

-- An evictable frame that is accessed when the clock has run out: the call throws after its
-- candidate has left the set, so the state that it leaves breaks the invariant.
pub record_access_exhausted :
    (r : Replacer) (frame : ℕ) (e : Entry)
    → Inv r
    → get_elem? r.entries frame ≡ some e
    → e.evictable ≡ true
    → r.current_timestamp ≡ max_uint64
    → ((record_access frame r).1 ≡ err timestamp_exhausted) × (¬ Inv (record_access frame r).0)
record_access_exhausted r frame e v found on late =
    let (live, h) =
      evictable-tracked r.k r.current_timestamp e
        (All-get_elem? _ r.entries frame found v.entries_ok) on in
    let (c, own) = candidate_of-some r.k frame e h in
    let run = thrown c own live in
    rw run (
      refl,
      λ broken. omega (
        arith,
        v.indexes.size,
        broken.indexes.size,
        erased_size r.k r.entries r.candidates frame e (record e { evictable = false }) c found own
            on refl v.indexes,
      ),
    )
  where
    thrown :
        (c : Candidate)
        → candidate_of r.k frame e ≡ some c
        → e.tracked ≡ true
        → record_access frame r
          ≡ (record r { candidates = (erase_ordered c r.candidates).0 }, err timestamp_exhausted)
    thrown c own live =
        unfold record_access stamp in
        ground (
          arith,
          require_entry-ok r frame e found,
          erase_candidate-ok r frame c (candidate_for-ok r frame e c found live own) (
              erased_one r.k r.entries r.candidates frame e (record e { evictable = false }) c found
                own on refl v.indexes),
        )
