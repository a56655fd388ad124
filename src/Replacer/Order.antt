-- ===== src/Replacer/Order.antt =====
-- lru_k_replacer.cpp, CandidateLess: the comparator of the candidate set is a strict total order.
use minidb_cpp.Prelude.{Bool, true, false, not, ◌&&◌, ◌≡◌, ◌↔◌, arith}
use minidb_cpp.Replacer.{Candidate, candidate_less}

pub less_irrefl : (a : Candidate) → candidate_less a a ≡ false
unfolding candidate_less
less_irrefl a = ground arith

pub less_trans :
    (a b c : Candidate)
    → candidate_less a b ≡ true
    → candidate_less b c ≡ true
    → candidate_less a c ≡ true
unfolding candidate_less
less_trans a b c h g = ground arith

pub less_asymm : (a b : Candidate) → candidate_less a b ≡ true → candidate_less b a ≡ false
unfolding candidate_less
less_asymm a b h = ground arith

pub less_total : (a b : Candidate) → candidate_less a b ≡ false → candidate_less b a ≡ false → a ≡ b
unfolding candidate_less
less_total a b h g = ground arith

-- Neither of two candidates is before the other.
unfoldable pub same : Candidate → Candidate → Bool
same a b = not (candidate_less a b) && not (candidate_less b a)

pub same_iff : (a b : Candidate) → (same a b ≡ true) ↔ (a ≡ b)
unfolding same
same_iff a b = (λ h. ground (arith, less_total a b), λ e. ground (arith, less_irrefl a))
