-- ===== src/Replacer/Invariant.antt =====
-- lru_k_replacer.cpp, `validate`: the state that every operation keeps.
use minidb_cpp.Prelude.{
  ℕ, ◌+◌, ◌≤◌, ◌<◌, Bool, true, false, ◌&&◌, ◌≡◌, ◌≢◌, refl, ap, Option, none, some, List, [], ◌∷◌,
  arith, length, if◌then◌else◌, inl, inr, Bool-cases, get_elem?, set, All, count_if, count_if-set,
  get_elem?-set_self, get_elem?-set_ne, ◌==◌,
}
use minidb_cpp.Replacer.{
  Candidate, Entry, Replacer, candidate_of, insert_ordered, erase_ordered, max_uint64, max_frame_id,
}
use minidb_cpp.Replacer.Order.{same, same_iff}
use minidb_cpp.Replacer.Index.{
  Ascending, contains, contains-insert_ordered, contains-erase_ordered, insert_ordered_fresh,
  insert_ordered-Ascending, erase_ordered_present, erase_ordered-Ascending,
}

-- The timestamps ascend strictly from `low` on and do not pass `high`.
abbrev pub Rising : ℕ → List ℕ → ℕ → Type 0
Rising low [] high = Unit {0}
Rising low (t ∷ ts) high = (low ≤ t) × (t ≤ high) × Rising (t + 1) ts high

abbrev pub TrackedOk : ℕ → ℕ → Bool → Entry → Type 0
TrackedOk k now false e = (e.evictable ≡ false) × (e.history ≡ [])
TrackedOk k now true e = (e.history ≢ []) × (length e.history ≤ k) × Rising 1 e.history now

abbrev pub EntryOk : ℕ → ℕ → Entry → Type 0
EntryOk k now e = TrackedOk k now e.tracked e

abbrev pub is_candidate : Candidate → Option Candidate → Bool
is_candidate c none = false
is_candidate c (some d) = same c d

abbrev pub entry_indexed : ℕ → Candidate → Option Entry → Bool
entry_indexed k c none = false
entry_indexed k c (some e) = e.evictable && is_candidate c (candidate_of k c.frame_id e)

-- Whether `c` is the candidate of an evictable frame.
unfoldable pub indexed : ℕ → List Entry → Candidate → Bool
indexed k entries c = entry_indexed k c (get_elem? entries c.frame_id)

-- The candidate set holds the candidates of the evictable frames, in order, and nothing else.
pub record Indexes (k : ℕ) (entries : List Entry) (candidates : List Candidate) : Type 0 where
  pub order : Ascending candidates
  pub index : (c : Candidate) → contains c candidates ≡ indexed k entries c
  pub size : length candidates ≡ count_if (λ e. e.evictable) entries

pub record Inv (r : Replacer) : Type 0 where
  pub k_pos : 0 < r.k
  pub capacity_pos : 0 < length r.entries
  pub capacity_small : length r.entries ≤ max_frame_id
  pub clock_small : r.current_timestamp ≤ max_uint64
  pub entries_ok : All (EntryOk r.k r.current_timestamp) r.entries
  pub tracked : r.tracked_count ≡ count_if (λ e. e.tracked) r.entries
  pub indexes : Indexes r.k r.entries r.candidates

pub frame-candidate_of :
    (k frame : ℕ) (e : Entry) (c : Candidate) → candidate_of k frame e ≡ some c → c.frame_id ≡ frame
unfolding candidate_of
frame-candidate_of k frame e c h = ground arith

pub indexed_self :
    (k : ℕ) (entries : List Entry) (frame : ℕ) (e : Entry) (x : Candidate)
    → get_elem? entries frame ≡ some e
    → x.frame_id ≡ frame
    → indexed k entries x ≡ e.evictable && is_candidate x (candidate_of k frame e)
unfolding indexed
indexed_self k entries frame e x found h = rw (h, found)

module _ (k : ℕ) (entries : List Entry) (frame : ℕ) (e e' : Entry)
    (found : get_elem? entries frame ≡ some e) where
  indexed-set_self :
      (x : Candidate)
      → x.frame_id ≡ frame
      → indexed k (set entries frame e') x
        ≡ e'.evictable && is_candidate x (candidate_of k frame e')
  unfolding indexed
  indexed-set_self x h = rw (h, get_elem?-set_self entries frame e e' found)

  indexed-set_ne :
      (x : Candidate)
      → frame ≢ x.frame_id
      → indexed k (set entries frame e') x ≡ indexed k entries x
  unfolding indexed
  indexed-set_ne x h = rw (get_elem?-set_ne entries frame x.frame_id e' h)

ne_of_frame : (c x : Candidate) → c.frame_id ≢ x.frame_id → same x c ≡ false
ne_of_frame c x h = elim (Bool-cases (same x c)) [
  | inl e ↦ absurd (h (rw ((same_iff x c).0 e)))
  | inr e ↦ e
]

abbrev one_if : Bool → ℕ
one_if b = if b then 1 else 0

-- An evictable frame leaves the set.
module _ (k : ℕ) (entries : List Entry) (cs : List Candidate) (frame : ℕ) (e e' : Entry)
    (c : Candidate) (found : get_elem? entries frame ≡ some e)
    (own : candidate_of k frame e ≡ some c) (on : e.evictable ≡ true) (off : e'.evictable ≡ false)
    (ix : Indexes k entries cs) where
  present : contains c cs ≡ true
  present = ground (
    arith,
    ix.index c,
    indexed_self k entries frame e c found (frame-candidate_of k frame e c own),
    (same_iff c c).1 refl,
  )

  pub erased_one : (erase_ordered c cs).1 ≡ 1
  erased_one = (erase_ordered_present c cs ix.order present).0

  pub erased_size : length (erase_ordered c cs).0 + 1 ≡ length cs
  erased_size = (erase_ordered_present c cs ix.order present).1

  erase_index :
      (x : Candidate) → contains x (erase_ordered c cs).0 ≡ indexed k (set entries frame e') x
  erase_index x = elim (Bool-cases (frame == x.frame_id)) [
    | inl here ↦ ground (
      arith,
      contains-erase_ordered x c cs ix.order,
      ix.index x,
      indexed_self k entries frame e x found,
      indexed-set_self k entries frame e e' found x,
    )
    | inr there ↦ ground (
      arith,
      contains-erase_ordered x c cs ix.order,
      ix.index x,
      frame-candidate_of k frame e c own,
      ne_of_frame c x,
      indexed-set_ne k entries frame e e' found x,
    )
  ]

  pub erase-Indexes : Indexes k (set entries frame e') (erase_ordered c cs).0
  erase-Indexes = record {
    order = erase_ordered-Ascending c cs ix.order;
    index = erase_index;
    size = omega (
      arith,
      erase_ordered_present c cs ix.order present,
      count_if-set (λ e. e.evictable) entries frame e e' found,
      ap one_if on,
      ap one_if off,
      ix.size,
    );
  }

-- A frame that becomes evictable enters the set.
module _ (k : ℕ) (entries : List Entry) (cs : List Candidate) (frame : ℕ) (e e' : Entry)
    (c : Candidate) (found : get_elem? entries frame ≡ some e)
    (own : candidate_of k frame e' ≡ some c) (off : e.evictable ≡ false) (on : e'.evictable ≡ true)
    (ix : Indexes k entries cs) where
  absent : contains c cs ≡ false
  absent = ground (
    arith,
    ix.index c,
    indexed_self k entries frame e c found (frame-candidate_of k frame e' c own),
  )

  pub inserted_new : (insert_ordered c cs).1 ≡ true
  inserted_new = (insert_ordered_fresh c cs absent).0

  insert_index :
      (x : Candidate) → contains x (insert_ordered c cs).0 ≡ indexed k (set entries frame e') x
  insert_index x = elim (Bool-cases (frame == x.frame_id)) [
    | inl here ↦ ground (
      arith,
      contains-insert_ordered x c cs,
      ix.index x,
      indexed_self k entries frame e x found,
      indexed-set_self k entries frame e e' found x,
    )
    | inr there ↦ ground (
      arith,
      contains-insert_ordered x c cs,
      ix.index x,
      frame-candidate_of k frame e' c own,
      ne_of_frame c x,
      indexed-set_ne k entries frame e e' found x,
    )
  ]

  pub insert-Indexes : Indexes k (set entries frame e') (insert_ordered c cs).0
  insert-Indexes = record {
    order = insert_ordered-Ascending c cs ix.order;
    index = insert_index;
    size = omega (
      arith,
      insert_ordered_fresh c cs absent,
      count_if-set (λ e. e.evictable) entries frame e e' found,
      ap one_if on,
      ap one_if off,
      ix.size,
    );
  }

-- A frame that is not evictable before and after is none of the set's.
module _ (k : ℕ) (entries : List Entry) (cs : List Candidate) (frame : ℕ) (e e' : Entry)
    (found : get_elem? entries frame ≡ some e) (off : e.evictable ≡ false)
    (off' : e'.evictable ≡ false) (ix : Indexes k entries cs) where
  change_index : (x : Candidate) → contains x cs ≡ indexed k (set entries frame e') x
  change_index x = elim (Bool-cases (frame == x.frame_id)) [
    | inl here ↦ ground (
      arith,
      ix.index x,
      indexed_self k entries frame e x found,
      indexed-set_self k entries frame e e' found x,
    )
    | inr there ↦ ground (arith, ix.index x, indexed-set_ne k entries frame e e' found x)
  ]

  pub change-Indexes : Indexes k (set entries frame e') cs
  change-Indexes = record {
    order = ix.order;
    index = change_index;
    size = omega (
      arith,
      count_if-set (λ e. e.evictable) entries frame e e' found,
      ap one_if off,
      ap one_if off',
      ix.size,
    );
  }
