-- ===== src/Replacer.antt =====
-- src/lru_k_replacer.cpp and its header: the LRU-K bookkeeping over buffer frames. `entries_` and a
-- history (a deque, its front first) are lists, and the ordered set `candidates_` is a list that
-- `insert_ordered` and `erase_ordered` keep in the order of its comparator.
pub mod Order
pub mod Index
pub mod Invariant
pub mod Steps
pub mod Access
pub mod Evictable
pub mod Evict
pub mod Policy
pub mod Reach
mod Tests
use minidb_cpp.Prelude.{
  ℕ, zero, suc, ◌+◌, ◌-◌, ◌^◌, ◌<◌, Bool, true, false, not, ◌&&◌, ◌||◌, Option, none, some, List,
  [], ◌∷◌, ◌++◌, Result, ok, err, ltb, ◌==◌, if◌then◌else◌, length, get_elem?, set, replicate,
}
use minidb_cpp.Prelude.Stateful.{
  Method, ◌>>=◌, ◌>>◌, returns, get_state, put_state, throw_when, when, observe,
}

pub data Error : Type 0 where
  zero_capacity capacity_too_large zero_k : Error
  frame_out_of_range : Error
  untracked_candidate index_inconsistent duplicate_candidate : Error
  timestamp_exhausted untracked_frame not_evictable victim_disappeared : Error

pub record Entry : Type 0 where
  pub history : List ℕ
  pub tracked : Bool
  pub evictable : Bool

pub record Candidate : Type 0 where
  pub infinite_distance : Bool
  pub priority_timestamp : ℕ
  pub frame_id : ℕ

pub record Replacer : Type 0 where
  pub k : ℕ
  pub current_timestamp : ℕ
  pub tracked_count : ℕ
  pub entries : List Entry
  pub candidates : List Candidate

abbrev pub max_uint64 : ℕ
max_uint64 = 2 ^ 64 - 1

abbrev pub max_frame_id : ℕ
max_frame_id = 2 ^ 32 - 1

-- `left > right` on two bools.
abbrev bool_gt : Bool → Bool → Bool
bool_gt left right = left && not right

abbrev bool_ne : Bool → Bool → Bool
bool_ne true right = not right
bool_ne false right = right

-- CandidateLess::operator()
unfoldable pub candidate_less : Candidate → Candidate → Bool
candidate_less left right =
    if bool_ne left.infinite_distance right.infinite_distance
    then bool_gt left.infinite_distance right.infinite_distance
    else (if not (left.priority_timestamp == right.priority_timestamp)
        then ltb left.priority_timestamp right.priority_timestamp
        else ltb left.frame_id right.frame_id)

-- std::set::insert: the set, and whether the candidate is new.
unfoldable pub insert_ordered : Candidate → List Candidate → List Candidate × Bool
insert_ordered c [] = (c ∷ [], true)
insert_ordered c (d ∷ ds) =
    let rest = insert_ordered c ds in
    if candidate_less c d
    then (c ∷ d ∷ ds, true)
    else (if candidate_less d c then (d ∷ rest.0, rest.1) else (d ∷ ds, false))

-- std::set::erase by key: the set, and the number of candidates that went.
unfoldable pub erase_ordered : Candidate → List Candidate → List Candidate × ℕ
erase_ordered c [] = ([], 0)
erase_ordered c (d ∷ ds) =
    let rest = erase_ordered c ds in
    if candidate_less c d
    then (d ∷ ds, 0)
    else (if candidate_less d c then (d ∷ rest.0, rest.1) else (ds, 1))

abbrev pub default_entry : Entry
default_entry = record { history = []; tracked = false; evictable = false }

-- The constructor. `entries_` is allocated before its guards: a capacity that the vector cannot hold, for
-- which it throws std::length_error or std::bad_alloc in place of these errors, is left out.
unfoldable pub make : ℕ → ℕ → Result Error Replacer
make frame_capacity k =
    if frame_capacity == 0
    then err zero_capacity
    else (if ltb max_frame_id frame_capacity
        then err capacity_too_large
        else (if k == 0
            then err zero_k
            else ok (record {
              k = k;
              current_timestamp = 0;
              tracked_count = 0;
              entries = replicate frame_capacity default_entry;
              candidates = [];
            })))

unfoldable pub require_entry : Replacer → ℕ → Result Error Entry
require_entry r frame = elim (get_elem? r.entries frame) [
  | none ↦ err frame_out_of_range
  | some entry ↦ ok entry
]

-- Candidate{history.size() < k_, history.front(), frameId}
unfoldable pub candidate_of : ℕ → ℕ → Entry → Option Candidate
candidate_of k frame entry = elim entry.history [
  | [] ↦ none
  | t ∷ ts ↦ some (record {
    infinite_distance = ltb (length (t ∷ ts)) k;
    priority_timestamp = t;
    frame_id = frame;
  })
]

unfoldable pub candidate_for : Replacer → ℕ → Result Error Candidate
candidate_for r frame = elim (require_entry r frame) [
  | err e ↦ err e
  | ok entry ↦
      if not entry.tracked
      then err untracked_candidate
      else elim (candidate_of r.k frame entry) [ none ↦ err untracked_candidate | some c ↦ ok c ]
]

abbrev Op {ℓ} : Type ℓ → Type ℓ
Op A = Method Replacer Error A

unfoldable pub erase_candidate : ℕ → Op (Unit {0})
erase_candidate frame = do
  c ← observe (λ r. candidate_for r frame)
  r ← get_state
  put_state (record r { candidates = (erase_ordered c r.candidates).0 })
  throw_when (not ((erase_ordered c r.candidates).1 == 1)) index_inconsistent

unfoldable pub insert_candidate : ℕ → Op (Unit {0})
insert_candidate frame = do
  c ← observe (λ r. candidate_for r frame)
  r ← get_state
  put_state (record r { candidates = (insert_ordered c r.candidates).0 })
  throw_when (not (insert_ordered c r.candidates).1) duplicate_candidate

-- `history.push_back(now); if (history.size() > k_) history.pop_front();`
unfoldable pub push_access : ℕ → ℕ → List ℕ → List ℕ
push_access k now history =
    let pushed = history ++ now ∷ [] in
    if ltb k (length pushed) then elim pushed [ [] ↦ [] | t ∷ ts ↦ ts ] else pushed

-- From the overflow test to the trimmed history.
unfoldable pub stamp : ℕ → Entry → Op (Unit {0})
stamp frame entry = do
  r ← get_state
  throw_when (r.current_timestamp == max_uint64) timestamp_exhausted
  let now = r.current_timestamp + 1
  put_state (record r {
    current_timestamp = now;
    tracked_count = if entry.tracked then r.tracked_count else r.tracked_count + 1;
    entries = set r.entries frame (record {
      history = push_access r.k now entry.history;
      tracked = true;
      evictable = entry.evictable;
    });
  })

unfoldable pub record_access : ℕ → Op (Unit {0})
record_access frame = do
  entry ← observe (λ r. require_entry r frame)
  when entry.evictable (erase_candidate frame)
  stamp frame entry
  when entry.evictable (insert_candidate frame)

unfoldable pub set_evictable : ℕ → Bool → Op (Unit {0})
set_evictable frame evictable = do
  entry ← observe (λ r. require_entry r frame)
  throw_when (not entry.tracked) untracked_frame
  when (bool_ne entry.evictable evictable) (do
    when entry.evictable (erase_candidate frame)
    r ← get_state
    put_state (record r { entries = set r.entries frame (record entry { evictable = evictable }) })
    when evictable (insert_candidate frame))

unfoldable pub victim : Replacer → Option ℕ
victim r = elim r.candidates [ [] ↦ none | c ∷ cs ↦ some c.frame_id ]

-- `--trackedCount_` on a 64-bit std::size_t.
unfoldable pub decrement : ℕ → ℕ
decrement n = if n == 0 then 2 ^ 64 - 1 else n - 1

-- What `remove` does once the frame is known to be tracked and evictable.
unfoldable pub forget : ℕ → Op Bool
forget frame = do
  erase_candidate frame
  r ← get_state
  put_state (record r {
    tracked_count = decrement r.tracked_count;
    entries = set r.entries frame default_entry;
  })
  returns true

unfoldable pub remove : ℕ → Op Bool
remove frame = do
  entry ← observe (λ r. require_entry r frame)
  (if not entry.tracked
      then returns false
      else (throw_when (not entry.evictable) not_evictable >> forget frame))

unfoldable pub evict : Op (Option ℕ)
evict r = elim (victim r) [
  | none ↦ (r, ok none)
  | some frame ↦
      (do removed ← remove frame; throw_when (not removed) victim_disappeared; returns (some frame))
        r
]
