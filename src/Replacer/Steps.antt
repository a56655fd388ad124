-- ===== src/Replacer/Steps.antt =====
-- lru_k_replacer.cpp: what the private helpers do to the state, where their checks pass.
use minidb_cpp.Prelude.{
  ℕ, ◌+◌, ◌≤◌, ◌<◌, Bool, true, false, ◌≡◌, ◌≢◌, refl, some, List, [], ◌∷◌, ◌++◌, arith, length,
  if◌then◌else◌, get_elem?, set, ltb, length-append, ok,
}
use minidb_cpp.Replacer.{
  Candidate, Entry, Replacer, candidate_of, candidate_for, require_entry, insert_ordered,
  erase_ordered, erase_candidate, insert_candidate, push_access, stamp, max_uint64,
}
use minidb_cpp.Replacer.Invariant.{Rising, EntryOk, TrackedOk}

pub require_entry-ok :
    (r : Replacer) (frame : ℕ) (e : Entry)
    → get_elem? r.entries frame ≡ some e
    → require_entry r frame ≡ ok e
unfolding require_entry
require_entry-ok r frame e h = ground arith

pub candidate_for-ok :
    (r : Replacer) (frame : ℕ) (e : Entry) (c : Candidate)
    → get_elem? r.entries frame ≡ some e
    → e.tracked ≡ true
    → candidate_of r.k frame e ≡ some c
    → candidate_for r frame ≡ ok c
unfolding candidate_for require_entry
candidate_for-ok r frame e c h t own = ground arith

pub erase_candidate-ok :
    (r : Replacer) (frame : ℕ) (c : Candidate)
    → candidate_for r frame ≡ ok c
    → (erase_ordered c r.candidates).1 ≡ 1
    → erase_candidate frame r ≡ (record r { candidates = (erase_ordered c r.candidates).0 }, ok tt)
unfolding erase_candidate
erase_candidate-ok r frame c h one = ground arith

pub insert_candidate-ok :
    (r : Replacer) (frame : ℕ) (c : Candidate)
    → candidate_for r frame ≡ ok c
    → (insert_ordered c r.candidates).1 ≡ true
    → insert_candidate frame r
      ≡ (record r { candidates = (insert_ordered c r.candidates).0 }, ok tt)
unfolding insert_candidate
insert_candidate-ok r frame c h new = ground arith

-- The state after `stamp`.
abbrev pub pushed_entry : Replacer → Entry → Entry
pushed_entry r e = record {
  history = push_access r.k (r.current_timestamp + 1) e.history;
  tracked = true;
  evictable = e.evictable;
}

abbrev pub stamped : Replacer → ℕ → Entry → Replacer
stamped r frame e = record r {
  current_timestamp = r.current_timestamp + 1;
  tracked_count = if e.tracked then r.tracked_count else r.tracked_count + 1;
  entries = set r.entries frame (pushed_entry r e);
}

pub stamp-ok :
    (r : Replacer) (frame : ℕ) (e : Entry)
    → r.current_timestamp < max_uint64
    → stamp frame e r ≡ (stamped r frame e, ok tt)
unfolding stamp
stamp-ok r frame e h = ground arith

pub candidate_of-some :
    (k frame : ℕ) (e : Entry) → e.history ≢ [] → (c : Candidate) × (candidate_of k frame e ≡ some c)
unfolding candidate_of
candidate_of-some k frame e h = go e.history refl
  where
    go : (ts : List ℕ) → e.history ≡ ts → (c : Candidate) × (candidate_of k frame e ≡ some c)
    go [] p = absurd (h p)
    go (t ∷ ts) p = (
      record {
        infinite_distance = ltb (length (t ∷ ts)) k;
        priority_timestamp = t;
        frame_id = frame;
      },
      rw (p, candidate_of),
    )

Rising-lower :
    (low low' : ℕ) (ts : List ℕ) (high : ℕ) → low' ≤ low → Rising low ts high → Rising low' ts high
Rising-lower low low' [] high h p = tt
Rising-lower low low' (t ∷ ts) high h p = (omega arith, p.1, p.2)

pub Rising-higher :
    (low : ℕ) (ts : List ℕ) (high high' : ℕ)
    → high ≤ high'
    → Rising low ts high
    → Rising low ts high'
Rising-higher low [] high high' h p = tt
Rising-higher low (t ∷ ts) high high' h p =
    (p.0, omega arith, Rising-higher (t + 1) ts high high' h p.2)

Rising-append :
    (low : ℕ) (ts : List ℕ) (now : ℕ)
    → low ≤ now + 1
    → Rising low ts now
    → Rising low (ts ++ (now + 1) ∷ []) (now + 1)
Rising-append low [] now h p = (h, omega arith, tt)
Rising-append low (t ∷ ts) now h p =
    (p.0, omega arith, Rising-append (t + 1) ts now (omega arith) p.2)

-- The new history: not empty, at most `k` long, and rising up to the new clock.
pub push_access_ok :
    (k now : ℕ) (ts : List ℕ)
    → 0 < k
    → length ts ≤ k
    → Rising 1 ts now
    → (push_access k (now + 1) ts ≢ [])
      × (length (push_access k (now + 1) ts) ≤ k)
      × Rising 1 (push_access k (now + 1) ts) (now + 1)
unfolding push_access
push_access_ok k now [] kp h p = ground arith
push_access_ok k now (t ∷ ts) kp h p = ground (
  arith,
  length-append ts ((now + 1) ∷ []),
  Rising-append (t + 1) ts now (omega arith) p.2,
  Rising-lower (t + 1) 1 (ts ++ (now + 1) ∷ []) (now + 1) (omega arith),
)

pub pushed-EntryOk :
    (r : Replacer) (e : Entry)
    → 0 < r.k
    → EntryOk r.k r.current_timestamp e
    → EntryOk r.k (r.current_timestamp + 1) (pushed_entry r e)
pushed-EntryOk r e kp h = go e.tracked h
  where
    go :
        (b : Bool)
        → TrackedOk r.k r.current_timestamp b e
        → EntryOk r.k (r.current_timestamp + 1) (pushed_entry r e)
    go false p = rw p.1 (push_access_ok r.k r.current_timestamp [] kp (omega arith) tt)
    go true p = push_access_ok r.k r.current_timestamp e.history kp p.1 p.2

pub EntryOk-later : (k now : ℕ) (e : Entry) → EntryOk k now e → EntryOk k (now + 1) e
EntryOk-later k now e h = go e.tracked h
  where
    go : (b : Bool) → TrackedOk k now b e → TrackedOk k (now + 1) b e
    go false p = p
    go true p = (p.0, p.1, Rising-higher 1 e.history now (now + 1) (omega arith) p.2)
