-- ===== src/Replacer/Index.antt =====
-- lru_k_replacer.cpp: the ordered set of candidates, as `insert_ordered` and `erase_ordered` keep it.
use minidb_cpp.Prelude.{
  ◌+◌, Bool, true, false, not, ◌&&◌, ◌||◌, ◌≡◌, refl, List, [], ◌∷◌, arith, length,
}
use minidb_cpp.Replacer.{Candidate, candidate_less, insert_ordered, erase_ordered}
use minidb_cpp.Replacer.Order.{less_irrefl, less_trans, less_total, same, same_iff}

unfoldable pub contains : Candidate → List Candidate → Bool
contains x [] = false
contains x (c ∷ cs) = same x c || contains x cs

-- `cs` ascends from `c`.
abbrev pub Above : Candidate → List Candidate → Type 0
Above c [] = Unit {0}
Above c (d ∷ ds) = (candidate_less c d ≡ true) × Above d ds

abbrev pub Ascending : List Candidate → Type 0
Ascending [] = Unit {0}
Ascending (c ∷ cs) = Above c cs

Above-weaken :
    (c d : Candidate) (ds : List Candidate) → candidate_less c d ≡ true → Above d ds → Above c ds
Above-weaken c d [] h a = tt
Above-weaken c d (e ∷ es) h a = (less_trans c d e h a.0, a.1)

Above-Ascending : (c : Candidate) (ds : List Candidate) → Above c ds → Ascending ds
Above-Ascending c [] a = tt
Above-Ascending c (d ∷ ds) a = a.1

pub not-contains-Above :
    (x c : Candidate) (ds : List Candidate)
    → Above c ds
    → candidate_less x c ≡ true
    → contains x ds ≡ false
unfolding contains same
not-contains-Above x c [] a h = refl
not-contains-Above x c (d ∷ ds) a h =
    ground (arith, less_trans x c d, not-contains-Above x c ds (Above-weaken c d ds a.0 a.1) h)

pub not-contains_self : (c : Candidate) (ds : List Candidate) → Above c ds → contains c ds ≡ false
unfolding contains same
not-contains_self c [] a = refl
not-contains_self c (d ∷ ds) a = ground (arith, not-contains-Above c d ds a.1)

-- The set holds the new candidate and what it held before.
pub contains-insert_ordered :
    (x c : Candidate) (cs : List Candidate)
    → contains x (insert_ordered c cs).0 ≡ same x c || contains x cs
unfolding contains insert_ordered
contains-insert_ordered x c [] = refl
contains-insert_ordered x c (d ∷ ds) =
    ground (arith, less_total c d, contains-insert_ordered x c ds)

pub insert_ordered_fresh :
    (c : Candidate) (cs : List Candidate)
    → contains c cs ≡ false
    → ((insert_ordered c cs).1 ≡ true) × (length (insert_ordered c cs).0 ≡ length cs + 1)
unfolding contains insert_ordered same
insert_ordered_fresh c [] h = (refl, omega arith)
insert_ordered_fresh c (d ∷ ds) h = ground (arith, insert_ordered_fresh c ds)

insert_ordered-Above :
    (b c : Candidate) (cs : List Candidate)
    → candidate_less b c ≡ true
    → Above b cs
    → Above b (insert_ordered c cs).0
unfolding insert_ordered
insert_ordered-Above b c [] h a = (h, tt)
insert_ordered-Above b c (d ∷ ds) h a = ground (arith, insert_ordered-Above d c ds)

pub insert_ordered-Ascending :
    (c : Candidate) (cs : List Candidate) → Ascending cs → Ascending (insert_ordered c cs).0
unfolding insert_ordered
insert_ordered-Ascending c [] a = tt
insert_ordered-Ascending c (d ∷ ds) a = ground (arith, insert_ordered-Above d c ds)

-- The set loses the erased candidate alone.
pub contains-erase_ordered :
    (x c : Candidate) (cs : List Candidate)
    → Ascending cs
    → contains x (erase_ordered c cs).0 ≡ not (same x c) && contains x cs
unfolding contains erase_ordered
contains-erase_ordered x c [] a = ground arith
contains-erase_ordered x c (d ∷ ds) a = ground (
  arith,
  same_iff x c,
  same_iff x d,
  same_iff c d,
  less_total c d,
  less_irrefl c,
  not-contains-Above c d ds a,
  not-contains_self d ds a,
  contains-erase_ordered x c ds (Above-Ascending d ds a),
)

pub erase_ordered_present :
    (c : Candidate) (cs : List Candidate)
    → Ascending cs
    → contains c cs ≡ true
    → ((erase_ordered c cs).1 ≡ 1) × (length (erase_ordered c cs).0 + 1 ≡ length cs)
unfolding contains erase_ordered same
erase_ordered_present c [] a h = cc
erase_ordered_present c (d ∷ ds) a h =
    ground (arith, erase_ordered_present c ds (Above-Ascending d ds a), not-contains-Above c d ds a)

erase_ordered-Above :
    (b c : Candidate) (cs : List Candidate) → Above b cs → Above b (erase_ordered c cs).0
unfolding erase_ordered
erase_ordered-Above b c [] a = tt
erase_ordered-Above b c (d ∷ ds) a =
    ground (arith, erase_ordered-Above d c ds, Above-weaken b d ds a.0 a.1)

pub erase_ordered-Ascending :
    (c : Candidate) (cs : List Candidate) → Ascending cs → Ascending (erase_ordered c cs).0
unfolding erase_ordered
erase_ordered-Ascending c [] a = tt
erase_ordered-Ascending c (d ∷ ds) a =
    ground (arith, erase_ordered-Above d c ds, Above-Ascending d ds a)
