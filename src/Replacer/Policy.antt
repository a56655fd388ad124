-- ===== src/Replacer/Policy.antt =====
-- lru_k_replacer.cpp, `victim` and `evict`: the LRU-K policy.
use minidb_cpp.Prelude.{
  ℕ, ◌≤◌, ◌<◌, Bool, true, false, ◌&&◌, ◌≡◌, refl, sym, ◌∙◌, subst, Option, none, some, List, [],
  ◌∷◌, arith, length, if◌then◌else◌, get_elem?, ◌==◌, ok, ◌⊎◌, inl, inr, Bool-cases, Option-cases,
  All-get_elem?,
}
use minidb_cpp.Replacer.{
  Candidate, Entry, Replacer, candidate_of, candidate_less, evict, victim, default_entry,
}
use minidb_cpp.Replacer.Order.{same_iff, less_irrefl}
use minidb_cpp.Replacer.Index.{contains, Above, Ascending, not-contains-Above}
use minidb_cpp.Replacer.Invariant.{
  Inv, indexed, entry_indexed, is_candidate, indexed_self, frame-candidate_of,
}
use minidb_cpp.Replacer.Access.{evictable-tracked}
use minidb_cpp.Replacer.Steps.{candidate_of-some}
use minidb_cpp.Replacer.Evict.{removed}

-- The frame, its entry and its candidate, for each member of the set.
abbrev Owned : Replacer → Candidate → Type 0
Owned r c =
    (e : Entry) × (get_elem? r.entries c.frame_id ≡ some e)
    × (e.evictable ≡ true)
    × (candidate_of r.k c.frame_id e ≡ some c)

owned : (r : Replacer) (c : Candidate) → indexed r.k r.entries c ≡ true → Owned r c
unfolding indexed
owned r c h = go (get_elem? r.entries c.frame_id) refl h
  where
    own :
        (e : Entry) (o : Option Candidate)
        → candidate_of r.k c.frame_id e ≡ o
        → e.evictable && is_candidate c o ≡ true
        → (e.evictable ≡ true) × (candidate_of r.k c.frame_id e ≡ some c)
    own e none p q = ground arith
    own e (some d) p q = ground (arith, same_iff c d)

    go :
        (o : Option Entry)
        → get_elem? r.entries c.frame_id ≡ o
        → entry_indexed r.k c o ≡ true
        → Owned r c
    go none p q = cc
    go (some e) p q =
        let (on, mine) = own e (candidate_of r.k c.frame_id e) refl q in (e, p, on, mine)

indexed_own :
    (r : Replacer) (g : ℕ) (e : Entry) (d : Candidate)
    → get_elem? r.entries g ≡ some e
    → e.evictable ≡ true
    → candidate_of r.k g e ≡ some d
    → indexed r.k r.entries d ≡ true
indexed_own r g e d found on own = ground (
  arith,
  indexed_self r.k r.entries g e d found (frame-candidate_of r.k g e d own),
  (same_iff d d).1 refl,
)

not-less_first :
    (d c : Candidate) (cs : List Candidate)
    → Above c cs
    → contains d (c ∷ cs) ≡ true
    → candidate_less d c ≡ false
unfolding contains
not-less_first d c cs a h = ground (
  arith,
  same_iff d c,
  less_irrefl c,
  not-contains-Above d c cs a,
  Bool-cases (candidate_less d c),
)

abbrev pub is_victim : ℕ → Option ℕ → Bool
is_victim g none = false
is_victim g (some f) = f == g

-- The oldest kept access.
abbrev pub oldest : List ℕ → ℕ
oldest [] = 0
oldest (t ∷ ts) = t

-- The frame of `e` is to go before that of `d`: it alone has fewer than `k` accesses, or both or
-- neither have and its oldest kept access is not later.
abbrev pub GoesBefore : ℕ → Entry → Entry → Type 0
GoesBefore k e d =
    ((length e.history < k) × (k ≤ length d.history))
    ⊎ ((length e.history < k) × (length d.history < k) × (oldest e.history ≤ oldest d.history))
    ⊎ ((k ≤ length e.history) × (k ≤ length d.history) × (oldest e.history ≤ oldest d.history))

not-less-GoesBefore :
    (k f g : ℕ) (e d : Entry) (ce cd : Candidate)
    → candidate_of k f e ≡ some ce
    → candidate_of k g d ≡ some cd
    → candidate_less cd ce ≡ false
    → GoesBefore k e d
unfolding candidate_less candidate_of
not-less-GoesBefore k f g e d ce cd he hd h = go e.history refl d.history refl
  where
    go : (ts : List ℕ) → e.history ≡ ts → (us : List ℕ) → d.history ≡ us → GoesBefore k e d
    go [] p us q = cc (rw (p, candidate_of) at he)
    go (t ∷ ts) p [] q = cc (rw (q, candidate_of) at hd)
    go (t ∷ ts) p (u ∷ us) q =
        let e' = rw (p, candidate_of) at he in
        let d' = rw (q, candidate_of) at hd in rw (p, q) (ground arith)

-- The set's first member belongs to an evictable frame that no evictable frame goes before.
first_chosen :
    (r : Replacer) (c : Candidate) (cs : List Candidate) (g : ℕ) (d : Entry)
    → Inv r
    → r.candidates ≡ c ∷ cs
    → get_elem? r.entries g ≡ some d
    → d.evictable ≡ true
    → (e : Entry) × (get_elem? r.entries c.frame_id ≡ some e)
      × (e.evictable ≡ true)
      × GoesBefore r.k e d
first_chosen r c cs g d v p found on =
    let (e, mine, up, own) = owned r c (sym (v.indexes.index c) ∙ first) in
    let (cd, own') =
      candidate_of-some r.k g d
        (evictable-tracked r.k r.current_timestamp d
          (All-get_elem? _ r.entries g found v.entries_ok) on).1 in
    let held =
      subst (λ (l : List Candidate). contains cd l ≡ true) p
        (v.indexes.index cd ∙ indexed_own r g d cd found on own') in
    (
      e,
      mine,
      up,
      not-less-GoesBefore r.k c.frame_id g e d c cd own own'
          (not-less_first cd c cs (subst Ascending p v.indexes.order) held),
    )
  where
    first : contains c r.candidates ≡ true
    first = rw p (unfold contains in ground (arith, (same_iff c c).1 refl))

-- With no candidate left no frame is evictable.
none_evictable :
    (r : Replacer) (g : ℕ) (d : Entry)
    → Inv r
    → r.candidates ≡ []
    → get_elem? r.entries g ≡ some d
    → d.evictable ≡ false
unfolding contains
none_evictable r g d v p found = elim (Bool-cases d.evictable) [
  | inr off ↦ off
  | inl on ↦
      let (cd, own') =
        candidate_of-some r.k g d
          (evictable-tracked r.k r.current_timestamp d
            (All-get_elem? _ r.entries g found v.entries_ok) on).1 in
      let held =
        subst (λ (l : List Candidate). contains cd l ≡ true) p
          (v.indexes.index cd ∙ indexed_own r g d cd found on own') in
      cc held
]

-- `victim` against any frame `g`: either `g` is not evictable, or the victim is an evictable frame
-- that goes before `g` or is `g`'s equal by the LRU-K order: fewer than k accesses first, then the
-- earliest of the oldest kept accesses.
pub victim-GoesBefore :
    (r : Replacer) (g : ℕ) (d : Entry)
    → Inv r
    → get_elem? r.entries g ≡ some d
    → (d.evictable ≡ false)
      ⊎ ((f : ℕ) × (e : Entry) × (victim r ≡ some f)
          × (get_elem? r.entries f ≡ some e)
          × (e.evictable ≡ true)
          × GoesBefore r.k e d)
unfolding victim
victim-GoesBefore r g d v found = go r.candidates refl
  where
    go :
        (cs : List Candidate)
        → r.candidates ≡ cs
        → (d.evictable ≡ false)
          ⊎ ((f : ℕ) × (e : Entry) × (victim r ≡ some f)
              × (get_elem? r.entries f ≡ some e)
              × (e.evictable ≡ true)
              × GoesBefore r.k e d)
    go [] p = inl (none_evictable r g d v p found)
    go (c ∷ cs) p = elim (Bool-cases d.evictable) [
      | inr off ↦ inl off
      | inl on ↦
          let (e, mine, up, before) = first_chosen r c cs g d v p found on in
          inr (c.frame_id, e, rw p, mine, up, before)
    ]

victim_evictable :
    (r : Replacer) (f : ℕ)
    → Inv r
    → victim r ≡ some f
    → (e : Entry) × (get_elem? r.entries f ≡ some e) × (e.evictable ≡ true)
unfolding victim
victim_evictable r f v h = go r.candidates refl
  where
    go :
        (cs : List Candidate)
        → r.candidates ≡ cs
        → (e : Entry) × (get_elem? r.entries f ≡ some e) × (e.evictable ≡ true)
    go [] p = cc (rw (p, victim) at h)
    go (c ∷ cs) p =
        let here : c.frame_id ≡ f = ground (arith, p, h) in
        let first : contains c r.candidates ≡ true =
          rw p (unfold contains in ground (arith, (same_iff c c).1 refl)) in
        let (e, mine, up, own) = owned r c (sym (v.indexes.index c) ∙ first) in
        (e, subst (λ (n : ℕ). get_elem? r.entries n ≡ some e) here mine, up)

-- `evict` returns the victim and forgets it, or returns nothing and changes nothing if there is
-- none; it never throws, it keeps the invariant and the clock, and it changes no other frame.
pub evict-Inv :
    (r : Replacer) (g : ℕ)
    → Inv r
    → let out = evict r in
      (out.1 ≡ ok (victim r))
      × Inv out.0
      × (out.0.current_timestamp ≡ r.current_timestamp)
      × (get_elem? out.0.entries g
          ≡ (if is_victim g (victim r) then some default_entry else get_elem? r.entries g))
unfolding evict
evict-Inv r g v = elim (Option-cases (victim r)) [
  | inl nobody ↦ rw (nobody, evict) (refl, v, refl, refl)
  | inr (f, chosen) ↦
      let (e, found, on) = victim_evictable r f v chosen in
      let (r', run, inv, clock, entry) = removed r f e v found on in
      rw (chosen, evict, run) (refl, inv, clock, entry g)
]
