-- ===== src/Gate/Progress.antt =====
-- database_access_gate.cpp: who is let in, and when.
use minidb_cpp.Prelude.{
  ℕ, ◌<◌, ◌^◌, ◌≡◌, refl, Bool, true, false, Option, none, some, List, [], ◌∷◌, ◌⊎◌, inl, inr,
  arith, count_if, get_elem?, ==_iff, ◌≤◌, length,
}
use minidb_cpp.Gate.{
  AccessMode, read_only, read_write, Ownership, enter_wait, eligible, attempt, acquire_begin,
  shutdown,
}
use minidb_cpp.Gate.System.{
  System, Holder, Event, shuts_down, remove_at, settle, request, wake, step, run, start,
}
use minidb_cpp.Gate.Invariant.{reads, writes, reads_of, writes_of, OwnerOk, count_if-remove_at}
use minidb_cpp.Gate.Exclusion.{Inv, run-start-Inv}
use minidb_cpp.Gate.Stopped.{run-Shut}

-- With no lease out and the gate open, a sleeper that wakes uncancelled leaves with a lease, unless
-- it wants to read while a writer waits.
pub wake_granted :
    (s : System) (i t : ℕ) (mode : AccessMode) (elapsed : ℕ)
    → Inv s
    → s.leases ≡ []
    → s.gate.stopped ≡ false
    → get_elem? s.sleepers i ≡ some (t, mode)
    → (mode ≡ read_write) ⊎ (count_if writes s.sleepers ≡ 0)
    → let s' = wake s i false elapsed in
      (s'.leases ≡ (t, mode) ∷ []) × (s'.sleepers ≡ remove_at i s.sleepers)
unfolding wake attempt settle
wake_granted s i t mode elapsed v none_out running found first =
    ground (arith, now mode first, none_out)
  where
    idle : (s.gate.stats.writer_active ≡ false) × (s.gate.stats.active_readers ≡ 0)
    idle = ground (arith, v.holds.active_ok, v.holds.writer_ok, none_out)

    now :
        (m : AccessMode)
        → (m ≡ read_write) ⊎ (count_if writes s.sleepers ≡ 0)
        → eligible s.gate.stats m ≡ true
    now read_only (inl e) = cc
    now read_only (inr e) = unfold eligible in ground (arith, idle, v.waits)
    now read_write e = unfold eligible in ground (arith, idle)

-- Writers go first: while one sleeps, a request to read gets no lease. The thread joins the sleepers,
-- or is refused as recursive, or is cancelled.
pub read_behind_writer :
    (s : System) (t : ℕ) (cancel : Bool) (elapsed : ℕ)
    → Inv s
    → 0 < count_if writes s.sleepers
    → let s' = request s t read_only cancel elapsed in
      (s'.leases ≡ s.leases)
      × ((s'.sleepers ≡ (t, read_only) ∷ s.sleepers) ⊎ (s'.sleepers ≡ s.sleepers))
unfolding request acquire_begin attempt settle eligible enter_wait
read_behind_writer s t cancel elapsed v h = ground (arith, v.waits)

-- After a shutdown in any state, whatever events follow, statistics resets among them, the gate stays
-- shut, and no lease or sleeper is added: of any kind of thread and mode there are at most as many
-- leases, and at most as many sleepers, as there were at the shutdown.
pub stopped_admits_nobody :
    (s : System) (es : List Event) (p : Holder → Bool)
    → let late = run (step s shuts_down) es in
      (late.gate.stopped ≡ true)
      × (count_if p late.leases ≤ count_if p s.leases)
      × (count_if p late.sleepers ≤ count_if p s.sleepers)
unfolding step
stopped_admits_nobody s es p = run-Shut p (step s shuts_down) es shut
  where
    shut : (step s shuts_down).gate.stopped ≡ true
    shut = unfold step shutdown in refl

-- A lease that is out is counted in its thread's entry and in the statistics.
counted_lease :
    (s : System) (i t : ℕ) (mode : AccessMode)
    → Inv s
    → get_elem? s.leases i ≡ some (t, mode)
    → (o : Ownership) × (s.gate.owners t ≡ some o)
      × (((mode ≡ read_only) × (0 < o.readers) × (0 < s.gate.stats.active_readers))
          ⊎ ((mode ≡ read_write) × (o.writer ≡ true) × (s.gate.stats.writer_active ≡ true)))
counted_lease s i t mode v found = go mode found (s.gate.owners t) (v.holds.owners_ok t) refl
  where
    Counted : AccessMode → Type 0
    Counted read_only = (0 < count_if (reads_of t) s.leases) × (0 < count_if reads s.leases)
    Counted read_write = (0 < count_if (writes_of t) s.leases) × (0 < count_if writes s.leases)

    counted : (m : AccessMode) → get_elem? s.leases i ≡ some (t, m) → Counted m
    counted read_only f = ground (
      arith,
      (==_iff t t).1 refl,
      count_if-remove_at (reads_of t) s.leases i (t, read_only) f,
      count_if-remove_at reads s.leases i (t, read_only) f,
    )
    counted read_write f = ground (
      arith,
      (==_iff t t).1 refl,
      count_if-remove_at (writes_of t) s.leases i (t, read_write) f,
      count_if-remove_at writes s.leases i (t, read_write) f,
    )

    Asserted : AccessMode → Ownership → Type 0
    Asserted m o =
        ((m ≡ read_only) × (0 < o.readers) × (0 < s.gate.stats.active_readers))
        ⊎ ((m ≡ read_write) × (o.writer ≡ true) × (s.gate.stats.writer_active ≡ true))

    go :
        (m : AccessMode)
        → get_elem? s.leases i ≡ some (t, m)
        → (e : Option Ownership) → OwnerOk t e s.leases
        → s.gate.owners t ≡ e
        → (o : Ownership) × (s.gate.owners t ≡ some o) × Asserted m o
    go read_only f none k e = absurd (ground (arith, counted read_only f))
    go read_only f (some o) k e = (o, e, inl (ground (arith, counted read_only f)))
    go read_write f none k e = absurd (ground (arith, counted read_write f))
    go read_write f (some o) k e = (o, e, inr (ground (arith, counted read_write f)))

-- In every interleaving of fewer than 2 ^ 64 events from a fresh gate, what `release` asserts holds for
-- every lease that is out: its thread has an entry, which counts a reader or names the writer by the
-- lease's mode, and the statistics have an active reader, or the writer, with it.
pub release_asserted :
    (es : List Event) (i t : ℕ) (mode : AccessMode)
    → length es < 2 ^ 64
    → get_elem? (run start es).leases i ≡ some (t, mode)
    → let g = (run start es).gate in
      (o : Ownership) × (g.owners t ≡ some o)
      × (((mode ≡ read_only) × (0 < o.readers) × (0 < g.stats.active_readers))
          ⊎ ((mode ≡ read_write) × (o.writer ≡ true) × (g.stats.writer_active ≡ true)))
release_asserted es i t mode few found =
    counted_lease (run start es) i t mode (run-start-Inv es few) found
