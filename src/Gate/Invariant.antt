-- ===== src/Gate/Invariant.antt =====
-- database_access_gate.cpp: the counters and the owners agree with the leases and the sleepers.
use minidb_cpp.Prelude.{
  ℕ, zero, suc, ◌+◌, ◌≤◌, ◌<◌, ◌≡◌, Bool, true, false, not, ◌&&◌, Option, none, some, List, [], ◌∷◌,
  ◌⊎◌, arith, length, count_if, get_elem?, ◌==◌, if◌then◌else◌,
}
use minidb_cpp.Gate.{
  AccessMode, read_only, read_write, Gate, Stats, Ownership, is_write, uint64_mod, inc, dec,
  enter_wait, leave_wait,
}
use minidb_cpp.Gate.System.{Holder, remove_at}

abbrev pub reads : Holder → Bool
reads h = not (is_write h.1)

abbrev pub writes : Holder → Bool
writes h = is_write h.1

abbrev pub reads_of : ℕ → Holder → Bool
reads_of t h = (h.0 == t) && reads h

abbrev pub writes_of : ℕ → Holder → Bool
writes_of t h = (h.0 == t) && writes h

abbrev pub as_number : Bool → ℕ
as_number b = if b then 1 else 0

-- The entry of thread `t` counts its leases, and there is one only if it has a lease.
abbrev pub OwnerOk : ℕ → Option Ownership → List Holder → Type 0
OwnerOk t none leases = (count_if (reads_of t) leases ≡ 0) × (count_if (writes_of t) leases ≡ 0)
OwnerOk t (some o) leases =
    (o.readers ≡ count_if (reads_of t) leases)
    × (as_number o.writer ≡ count_if (writes_of t) leases)
    × (0 < o.readers + as_number o.writer)

pub record HoldsOk (active peak : ℕ) (writer : Bool) (owners : ℕ → Option Ownership)
    (leases : List Holder) : Type 0 where
  pub active_ok : active ≡ count_if reads leases
  pub writer_ok : as_number writer ≡ count_if writes leases
  pub exclusive : (writer ≡ false) ⊎ (active ≡ 0)
  pub peak_ok : active ≤ peak
  pub owners_ok : (t : ℕ) → OwnerOk t (owners t) leases

-- The invariant of the gate over the leases that are held.
abbrev pub GateOk : Gate → List Holder → Type 0
GateOk g leases =
    HoldsOk g.stats.active_readers g.stats.peak_concurrent_readers g.stats.writer_active g.owners
      leases

abbrev pub WaitsOk : Stats → List Holder → Type 0
WaitsOk s sleepers =
    (s.waiting_readers ≡ count_if reads sleepers) × (s.waiting_writers ≡ count_if writes sleepers)

pub count_if-le {ℓ} : {A : Type ℓ} (p : A → Bool) (xs : List A) → count_if p xs ≤ length xs
count_if-le p [] = omega arith
count_if-le p (x ∷ xs) = ground (arith, count_if-le p xs)

pub count_if-remove_at {ℓ} :
    {A : Type ℓ} (p : A → Bool) (xs : List A) (i : ℕ) (x : A)
    → get_elem? xs i ≡ some x
    → count_if p (remove_at i xs) + as_number (p x) ≡ count_if p xs
unfolding remove_at
count_if-remove_at p [] i x h = cc
count_if-remove_at p (y ∷ ys) zero x h = ground arith
count_if-remove_at p (y ∷ ys) (suc i) x h = omega (arith, count_if-remove_at p ys i x h)

pub length-remove_at {ℓ} :
    {A : Type ℓ} (xs : List A) (i : ℕ) (x : A)
    → get_elem? xs i ≡ some x
    → length (remove_at i xs) + 1 ≡ length xs
unfolding remove_at
length-remove_at [] i x h = cc
length-remove_at (y ∷ ys) zero x h = omega arith
length-remove_at (y ∷ ys) (suc i) x h = omega (arith, length-remove_at ys i x h)

-- The counters of sleepers do not touch what the leases are counted by.
pub enter_wait-GateOk :
    (mode : AccessMode) (waiting : Bool) (g : Gate) (leases : List Holder)
    → GateOk g leases
    → GateOk (record g { stats = enter_wait mode waiting g.stats }) leases
unfolding enter_wait
enter_wait-GateOk read_only true g leases h = h
enter_wait-GateOk read_write true g leases h = h
enter_wait-GateOk mode false g leases h = h

pub leave_wait-GateOk :
    (mode : AccessMode) (waiting : Bool) (elapsed : ℕ) (g : Gate) (leases : List Holder)
    → GateOk g leases
    → GateOk (record g { stats = leave_wait mode waiting elapsed g.stats }) leases
unfolding leave_wait
leave_wait-GateOk read_only true elapsed g leases h = h
leave_wait-GateOk read_write true elapsed g leases h = h
leave_wait-GateOk mode false elapsed g leases h = h

pub enter_wait-WaitsOk :
    (t : ℕ) (mode : AccessMode) (s : Stats) (sleepers : List Holder)
    → length sleepers + 1 < uint64_mod
    → WaitsOk s sleepers
    → WaitsOk (enter_wait mode true s) ((t, mode) ∷ sleepers)
unfolding enter_wait inc
enter_wait-WaitsOk t read_only s sleepers small w = omega (arith, count_if-le reads sleepers)
enter_wait-WaitsOk t read_write s sleepers small w = omega (arith, count_if-le writes sleepers)

pub leave_wait-WaitsOk :
    (t : ℕ) (mode : AccessMode) (elapsed i : ℕ) (s : Stats) (sleepers : List Holder)
    → length sleepers < uint64_mod
    → get_elem? sleepers i ≡ some (t, mode)
    → WaitsOk s sleepers
    → WaitsOk (leave_wait mode true elapsed s) (remove_at i sleepers)
unfolding leave_wait dec
leave_wait-WaitsOk t read_only elapsed i s sleepers small found w = omega (
  arith,
  count_if-le reads sleepers,
  count_if-remove_at reads sleepers i (t, read_only) found,
  count_if-remove_at writes sleepers i (t, read_only) found,
)
leave_wait-WaitsOk t read_write elapsed i s sleepers small found w = omega (
  arith,
  count_if-le writes sleepers,
  count_if-remove_at reads sleepers i (t, read_write) found,
  count_if-remove_at writes sleepers i (t, read_write) found,
)
