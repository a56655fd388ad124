-- ===== src/Gate/Leases.antt =====
-- database_access_gate.cpp: a lease that is handed out, and one that is given back.
use minidb_cpp.Prelude.{
  ℕ, ◌+◌, ◌≤◌, ◌<◌, ◌≡◌, refl, sym, subst, true, false, Option, none, some, List, [], ◌∷◌, ◌⊎◌, inl,
  inr, arith, length, count_if, get_elem?, ◌==◌, ==_iff, Bool-cases,
}
use minidb_cpp.Gate.{
  AccessMode, read_only, read_write, Gate, Ownership, uint64_mod, inc, dec, admit, release, update,
  ownership_of, keep_ownership,
}
use minidb_cpp.Gate.System.{Holder, remove_at}
use minidb_cpp.Gate.Invariant.{
  reads, writes, reads_of, writes_of, OwnerOk, GateOk, count_if-le, count_if-remove_at,
}

count_of-le :
    (t : ℕ) (leases : List Holder)
    → (count_if (reads_of t) leases ≤ count_if reads leases)
      × (count_if (writes_of t) leases ≤ count_if writes leases)
count_of-le t [] = (omega arith, omega arith)
count_of-le t (h ∷ hs) = ground (arith, count_of-le t hs)

-- A lease of another thread.
OwnerOk-other :
    (t t' : ℕ) (mode : AccessMode) (o : Option Ownership) (leases : List Holder)
    → (t == t') ≡ false
    → OwnerOk t' o leases
    → OwnerOk t' o ((t, mode) ∷ leases)
OwnerOk-other t t' mode none leases e h = ground arith
OwnerOk-other t t' mode (some o) leases e h = ground arith

OwnerOk-read :
    (t : ℕ) (o : Option Ownership) (leases : List Holder)
    → length leases + 1 < uint64_mod
    → OwnerOk t o leases
    → OwnerOk t
        (some (record (ownership_of o) { readers = inc (ownership_of o).readers }))
        ((t, read_only) ∷ leases)
unfolding inc
OwnerOk-read t none leases small h = ground (arith, (==_iff t t).1 refl)
OwnerOk-read t (some o) leases small h =
    ground (arith, (==_iff t t).1 refl, count_if-le (reads_of t) leases)

OwnerOk-write :
    (t : ℕ) (o : Option Ownership) (leases : List Holder)
    → count_if (writes_of t) leases ≡ 0
    → OwnerOk t o leases
    → OwnerOk t (some (record (ownership_of o) { writer = true })) ((t, read_write) ∷ leases)
OwnerOk-write t none leases free h = ground (arith, (==_iff t t).1 refl)
OwnerOk-write t (some o) leases free h = ground (arith, (==_iff t t).1 refl)

owners_updated :
    (t : ℕ) (mode : AccessMode) (owners : ℕ → Option Ownership) (o : Option Ownership)
    (leases : List Holder)
    → ((t' : ℕ) → OwnerOk t' (owners t') leases)
    → OwnerOk t o ((t, mode) ∷ leases)
    → (t' : ℕ) → OwnerOk t' (update owners t o t') ((t, mode) ∷ leases)
owners_updated t mode owners o leases all own t' = elim (Bool-cases (t' == t)) [
  | inl same ↦
      rw same (subst (λ (u : ℕ). OwnerOk u o ((t, mode) ∷ leases)) (sym ((==_iff t' t).0 same)) own)
  | inr other ↦ rw other (OwnerOk-other t t' mode (owners t') leases (ground arith) (all t'))
]

-- A lease that is handed out, where the mode admits it.
pub admit-GateOk :
    (t : ℕ) (mode : AccessMode) (g : Gate) (leases : List Holder)
    → length leases + 1 < uint64_mod
    → g.stats.writer_active ≡ false
    → (mode ≡ read_only) ⊎ (g.stats.active_readers ≡ 0)
    → GateOk g leases
    → GateOk (admit t mode g) ((t, mode) ∷ leases)
unfolding admit inc
admit-GateOk t read_only g leases small free e h = record {
  active_ok = omega (arith, h.active_ok, count_if-le reads leases);
  writer_ok = omega (arith, h.writer_ok);
  exclusive = inl free;
  peak_ok = omega arith;
  owners_ok =
      owners_updated t read_only g.owners _ leases h.owners_ok
        (OwnerOk-read t (g.owners t) leases small (h.owners_ok t));
}
admit-GateOk t read_write g leases small free e h = record {
  active_ok = omega (arith, h.active_ok);
  writer_ok = none_before;
  exclusive = inr (ground (arith, e));
  peak_ok = h.peak_ok;
  owners_ok = owners_updated t read_write g.owners _ leases h.owners_ok (
      OwnerOk-write t (g.owners t) leases (omega (arith, none_before, count_of-le t leases))
        (h.owners_ok t));
}
  where
    none_before : 1 ≡ 1 + count_if writes leases
    none_before = ground (arith, h.writer_ok, free)

OwnerOk-removed_other :
    (t t' i : ℕ) (mode : AccessMode) (o : Option Ownership) (leases : List Holder)
    → get_elem? leases i ≡ some (t, mode)
    → (t == t') ≡ false
    → OwnerOk t' o leases
    → OwnerOk t' o (remove_at i leases)
OwnerOk-removed_other t t' i mode none leases found e h = ground (
  arith,
  count_if-remove_at (reads_of t') leases i (t, mode) found,
  count_if-remove_at (writes_of t') leases i (t, mode) found,
)
OwnerOk-removed_other t t' i mode (some o) leases found e h = ground (
  arith,
  count_if-remove_at (reads_of t') leases i (t, mode) found,
  count_if-remove_at (writes_of t') leases i (t, mode) found,
)

OwnerOk-removed_read :
    (t i : ℕ) (o : Option Ownership) (leases : List Holder)
    → length leases < uint64_mod
    → get_elem? leases i ≡ some (t, read_only)
    → OwnerOk t o leases
    → OwnerOk t
        (keep_ownership (record (ownership_of o) { readers = dec (ownership_of o).readers }))
        (remove_at i leases)
unfolding dec
OwnerOk-removed_read t i none leases small found h =
    ground
      (arith, count_if-remove_at (reads_of t) leases i (t, read_only) found, (==_iff t t).1 refl)
OwnerOk-removed_read t i (some o) leases small found h = ground (
  arith,
  count_if-remove_at (reads_of t) leases i (t, read_only) found,
  count_if-remove_at (writes_of t) leases i (t, read_only) found,
  count_if-le (reads_of t) leases,
  (==_iff t t).1 refl,
)

OwnerOk-removed_write :
    (t i : ℕ) (o : Option Ownership) (leases : List Holder)
    → get_elem? leases i ≡ some (t, read_write)
    → OwnerOk t o leases
    → OwnerOk t (keep_ownership (record (ownership_of o) { writer = false })) (remove_at i leases)
OwnerOk-removed_write t i none leases found h =
    ground
      (arith, count_if-remove_at (writes_of t) leases i (t, read_write) found, (==_iff t t).1 refl)
OwnerOk-removed_write t i (some o) leases found h = ground (
  arith,
  count_if-remove_at (reads_of t) leases i (t, read_write) found,
  count_if-remove_at (writes_of t) leases i (t, read_write) found,
  (==_iff t t).1 refl,
)

owners_removed :
    (t i : ℕ) (mode : AccessMode) (owners : ℕ → Option Ownership) (o : Option Ownership)
    (leases : List Holder)
    → get_elem? leases i ≡ some (t, mode)
    → ((t' : ℕ) → OwnerOk t' (owners t') leases)
    → OwnerOk t o (remove_at i leases)
    → (t' : ℕ) → OwnerOk t' (update owners t o t') (remove_at i leases)
owners_removed t i mode owners o leases found all own t' = elim (Bool-cases (t' == t)) [
  | inl same ↦
      rw same (subst (λ (u : ℕ). OwnerOk u o (remove_at i leases)) (sym ((==_iff t' t).0 same)) own)
  | inr other ↦
      rw other (OwnerOk-removed_other t t' i mode (owners t') leases found (ground arith) (all t'))
]

-- A lease that is given back.
pub release-GateOk :
    (t i : ℕ) (mode : AccessMode) (g : Gate) (leases : List Holder)
    → length leases < uint64_mod
    → get_elem? leases i ≡ some (t, mode)
    → GateOk g leases
    → GateOk (release mode t g) (remove_at i leases)
unfolding release
release-GateOk t i read_only g leases small found h = record {
  active_ok = fewer;
  writer_ok = omega (arith, h.writer_ok, count_if-remove_at writes leases i (t, read_only) found);
  exclusive =
      ground
        (arith, h.exclusive, h.active_ok, count_if-remove_at reads leases i (t, read_only) found);
  peak_ok = omega (
    arith,
    h.peak_ok,
    h.active_ok,
    fewer,
    count_if-remove_at reads leases i (t, read_only) found,
  );
  owners_ok =
      owners_removed t i read_only g.owners _ leases found h.owners_ok
        (OwnerOk-removed_read t i (g.owners t) leases small found (h.owners_ok t));
}
  where
    fewer : dec g.stats.active_readers ≡ count_if reads (remove_at i leases)
    fewer =
        unfold dec in
        omega (
          arith,
          h.active_ok,
          count_if-le reads leases,
          count_if-remove_at reads leases i (t, read_only) found,
        )
release-GateOk t i read_write g leases small found h = record {
  active_ok = omega (arith, h.active_ok, count_if-remove_at reads leases i (t, read_write) found);
  writer_ok = ground (arith, h.writer_ok, count_if-remove_at writes leases i (t, read_write) found);
  exclusive = inl refl;
  peak_ok = h.peak_ok;
  owners_ok =
      owners_removed t i read_write g.owners _ leases found h.owners_ok
        (OwnerOk-removed_write t i (g.owners t) leases found (h.owners_ok t));
}
