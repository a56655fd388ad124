-- ===== src/Replacer/Reach.antt =====
-- lru_k_replacer.cpp: a replacer after its construction and any sequence of calls.
use minidb_cpp.Prelude.{
  ℕ, zero, suc, ◌+◌, ◌≤◌, ◌<◌, Bool, true, false, ◌≡◌, refl, sym, subst, List, [], ◌∷◌, arith,
  length, get_elem?, length-le_of_none, All, replicate, length-replicate, count_if, ◌==◌, ltb, ok,
  err, ◌⊎◌, inl, inr, Bool-cases, Option-cases, Result,
}
use minidb_cpp.Replacer.{
  Candidate, Entry, Replacer, Error, make, record_access, set_evictable, remove, evict,
  default_entry, max_uint64, max_frame_id, zero_capacity, zero_k, capacity_too_large,
}
use minidb_cpp.Replacer.Index.{contains}
use minidb_cpp.Replacer.Invariant.{Inv, EntryOk, indexed, entry_indexed}
use minidb_cpp.Replacer.Access.{record_access-Inv, frame_out_of_range_throws}
use minidb_cpp.Replacer.Evictable.{set_evictable-Inv}
use minidb_cpp.Replacer.Evict.{remove-Inv}
use minidb_cpp.Replacer.Policy.{evict-Inv}

replicate-EntryOk : (k now n : ℕ) → All (EntryOk k now) (replicate n default_entry)
replicate-EntryOk k now zero = tt
replicate-EntryOk k now (suc n) = ((refl, refl), replicate-EntryOk k now n)

count-replicate :
    (p : Entry → Bool) (n : ℕ)
    → p default_entry ≡ false
    → count_if p (replicate n default_entry) ≡ 0
count-replicate p zero h = refl
count-replicate p (suc n) h = rw h (omega (arith, count-replicate p n h))

fresh_unindexed :
    (k n i : ℕ) (c : Candidate)
    → entry_indexed k c (get_elem? (replicate n default_entry) i) ≡ false
fresh_unindexed k zero i c = refl
fresh_unindexed k (suc n) zero c = refl
fresh_unindexed k (suc n) (suc i) c = fresh_unindexed k n i c

abbrev fresh : ℕ → ℕ → Replacer
fresh capacity k = record {
  k = k;
  current_timestamp = 0;
  tracked_count = 0;
  entries = replicate capacity default_entry;
  candidates = [];
}

fresh-Inv :
    (capacity k : ℕ) → 0 < k → 0 < capacity → capacity ≤ max_frame_id → Inv (fresh capacity k)
unfolding contains indexed
fresh-Inv capacity k hk hc hm = record {
  k_pos = hk;
  capacity_pos = omega (arith, length-replicate capacity default_entry);
  capacity_small = omega (arith, length-replicate capacity default_entry);
  clock_small = omega arith;
  entries_ok = replicate-EntryOk k 0 capacity;
  tracked = sym (count-replicate (λ e. e.tracked) capacity refl);
  indexes = record {
    order = tt;
    index = λ c. sym (fresh_unindexed k capacity c.frame_id c);
    size = sym (count-replicate (λ e. e.evictable) capacity refl);
  };
}

-- The outcomes of the constructor.
abbrev pub Makes : ℕ → ℕ → Type 0
Makes capacity k =
    ((capacity ≡ 0) × (make capacity k ≡ err zero_capacity))
    ⊎ ((max_frame_id < capacity) × (make capacity k ≡ err capacity_too_large))
    ⊎ ((k ≡ 0) × (make capacity k ≡ err zero_k))
    ⊎ ((r : Replacer) × (make capacity k ≡ ok r)
        × Inv r
        × (length r.entries ≡ capacity)
        × (r.k ≡ k)
        × (r.current_timestamp ≡ 0))

-- The constructor refuses a capacity of zero or beyond the frame ids, and a k of zero; otherwise it
-- makes a replacer of that capacity and k, at time 0, in which the invariant holds.
pub make-Inv : (capacity k : ℕ) → Makes capacity k
unfolding make
make-Inv capacity k = elim (Bool-cases (capacity == 0)) [
  | inl a ↦ inl (ground arith)
  | inr a ↦ elim (Bool-cases (ltb max_frame_id capacity)) [
    | inl b ↦ inr (inl (ground arith))
    | inr b ↦ elim (Bool-cases (k == 0)) [
      | inl c ↦ inr (inr (inl (ground arith)))
      | inr c ↦ inr (
          inr (
            inr (
              fresh capacity k,
              rw (a, b, c) refl,
              fresh-Inv capacity k (ground arith) (ground arith) (ground arith),
              length-replicate capacity default_entry,
              refl,
              refl,
            )))
    ]
  ]
]

-- The calls of the replacer's clients.
pub data Call : Type 0 where
  accesses : ℕ → Call
  sets : ℕ → Bool → Call
  removes : ℕ → Call
  evicts : Call

-- The state after a call, which may have thrown.
unfoldable pub step : Replacer → Call → Replacer
step r (accesses frame) = (record_access frame r).0
step r (sets frame b) = (set_evictable frame b r).0
step r (removes frame) = (remove frame r).0
step r evicts = (evict r).0

unfoldable pub run : Replacer → List Call → Replacer
run r [] = r
run r (c ∷ cs) = run (step r c) cs

-- One call keeps the invariant and moves the clock by one at most.
abbrev Kept : Replacer → Replacer → Type 0
Kept r r' = Inv r' × (r'.current_timestamp ≤ r.current_timestamp + 1)

stay :
    {A : Type 0} (r : Replacer) (out : Replacer × Result Error A) (a : Result Error A)
    → out ≡ (r, a)
    → Inv r
    → Kept r out.0
stay r out a e v = rw e (v, omega arith)

step-Kept : (r : Replacer) (c : Call) → Inv r → r.current_timestamp < max_uint64 → Kept r (step r c)
unfolding step
step-Kept r (accesses frame) v clock = elim (Option-cases (get_elem? r.entries frame)) [
  | inl out ↦
      stay r _ _ (frame_out_of_range_throws r frame true (length-le_of_none r.entries frame out)).0
        v
  | inr (e, found) ↦
      let (_, inv, now, _) = record_access-Inv r frame 0 e v found clock in (inv, omega arith)
]
step-Kept r (sets frame b) v clock = elim (Option-cases (get_elem? r.entries frame)) [
  | inl out ↦
      stay r _ _ (frame_out_of_range_throws r frame b (length-le_of_none r.entries frame out)).1 v
  | inr (e, found) ↦ elim (set_evictable-Inv r frame 0 e b v found) [
    | inl (_, _, inv, now, _) ↦ (inv, omega arith)
    | inr (_, same) ↦ stay r _ _ same v
  ]
]
step-Kept r (removes frame) v clock = elim (Option-cases (get_elem? r.entries frame)) [
  | inl out ↦
      stay r _ _ (frame_out_of_range_throws r frame true (length-le_of_none r.entries frame out)).2
        v
  | inr (e, found) ↦ elim (remove-Inv r frame 0 e v found) [
    | inl (_, _, inv, now, _) ↦ (inv, omega arith)
    | inr (inl (_, _, same)) ↦ stay r _ _ same v
    | inr (inr (_, same)) ↦ stay r _ _ same v
  ]
]
step-Kept r evicts v clock = let (_, inv, now, _) = evict-Inv r 0 v in (inv, omega arith)

run-Inv :
    (cs : List Call) (r : Replacer)
    → Inv r
    → r.current_timestamp + length cs ≤ max_uint64
    → Inv (run r cs)
unfolding run
run-Inv [] r v h = v
run-Inv (c ∷ cs) r v h =
    let (inv, now) = step-Kept r c v (omega arith) in run-Inv cs (step r c) inv (omega arith)

-- From construction on, every sequence of fewer than 2 ^ 64 calls, with any arguments and whether or
-- not they throw, leaves a replacer in which the invariant holds.
pub run-make-Inv :
    (capacity k : ℕ) (r : Replacer) (cs : List Call)
    → make capacity k ≡ ok r
    → length cs ≤ max_uint64
    → Inv (run r cs)
run-make-Inv capacity k r cs made short = elim (make-Inv capacity k) [
  | inl (_, e) ↦ cc
  | inr (inl (_, e)) ↦ cc
  | inr (inr (inl (_, e))) ↦ cc
  | inr (inr (inr (r', e, inv, _, _, now))) ↦
      let same : r' ≡ r = ground arith in run-Inv cs r (subst Inv same inv) (ground (arith, same))
]
