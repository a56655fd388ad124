-- ===== src/Gate/Tests.antt =====
-- database_access_gate.cpp: an interleaving of three threads.
use minidb_cpp.Prelude.{
  ◌<◌, ◌≤◌, ◌≡◌, refl, ◌⊎◌, inl, true, false, some, List, [], ◌∷◌, arith, count_if,
}
use minidb_cpp.Gate.{read_only, read_write, Ownership}
use minidb_cpp.Gate.{
  attempt, acquire_begin, is_recursive, eligible, enter_wait, leave_wait, admit, release, inc, dec,
}
use minidb_cpp.Gate.System.{
  System, Event, requests, wakes, releases, shuts_down, resets, start, step, run, request, wake,
  settle, let_go, remove_at,
}
use minidb_cpp.Gate.Invariant.{reads, writes}
use minidb_cpp.Gate.Exclusion.{Inv, run-start-Inv, run_exclusive}
use minidb_cpp.Gate.Progress.{
  wake_granted, read_behind_writer, stopped_admits_nobody, release_asserted,
}

-- Thread 1 reads, thread 2 waits to write, and thread 3 waits to read.
abbrev queue : List Event
queue =
    requests 1 read_only false 0 ∷ requests 2 read_write false 0 ∷ requests 3 read_only false 0 ∷ []

abbrev queued : System
queued = run start queue

-- Thread 1 gives its lease back.
abbrev drained : System
drained = step queued (releases 0)

queued_sleepers : queued.sleepers ≡ (3, read_only) ∷ (2, read_write) ∷ []
unfolding run step request settle attempt acquire_begin is_recursive eligible enter_wait leave_wait
    admit inc
queued_sleepers = refl

queued_leases : queued.leases ≡ (1, read_only) ∷ []
unfolding run step request settle attempt acquire_begin is_recursive eligible enter_wait leave_wait
    admit inc
queued_leases = refl

run_exclusive_example :
    (count_if writes queued.leases ≡ 0)
    ⊎ ((count_if writes queued.leases ≡ 1) × (count_if reads queued.leases ≡ 0))
run_exclusive_example = run_exclusive queue (omega arith)

run-start-Inv_example : Inv queued
run-start-Inv_example = run-start-Inv queue (omega arith)

drained-Inv : Inv drained
unfolding run
drained-Inv =
    run-start-Inv
      (requests 1 read_only false 0
        ∷ requests 2 read_write false 0
        ∷ requests 3 read_only false 0
        ∷ releases 0
        ∷ [])
      (omega arith)

queued-Inv : Inv queued
queued-Inv = run-start-Inv queue (omega arith)

wake_granted_example :
    ((wake drained 1 false 5).leases ≡ (2, read_write) ∷ [])
    × ((wake drained 1 false 5).sleepers ≡ remove_at 1 drained.sleepers)
unfolding run step request settle attempt acquire_begin is_recursive eligible enter_wait leave_wait
    admit inc let_go release dec remove_at
wake_granted_example = wake_granted drained 1 2 read_write 5 drained-Inv refl refl refl (inl refl)

read_behind_writer_example :
    ((request queued 4 read_only false 0).leases ≡ queued.leases)
    × (((request queued 4 read_only false 0).sleepers ≡ (4, read_only) ∷ queued.sleepers)
        ⊎ ((request queued 4 read_only false 0).sleepers ≡ queued.sleepers))
unfolding run step request settle attempt acquire_begin is_recursive eligible enter_wait leave_wait
    admit inc
read_behind_writer_example = read_behind_writer queued 4 false 0 queued-Inv (omega arith)

stopped_admits_nobody_example :
    let late =
      run
        (step queued shuts_down)
        (resets ∷ requests 4 read_write false 0 ∷ wakes 1 false 0 ∷ releases 0 ∷ []) in
    (late.gate.stopped ≡ true)
    × (count_if reads late.leases ≤ count_if reads queued.leases)
    × (count_if reads late.sleepers ≤ count_if reads queued.sleepers)
stopped_admits_nobody_example =
    stopped_admits_nobody queued
      (resets ∷ requests 4 read_write false 0 ∷ wakes 1 false 0 ∷ releases 0 ∷ []) reads

release_asserted_example :
    (o : Ownership) × (queued.gate.owners 1 ≡ some o)
    × (((read_only ≡ read_only) × (0 < o.readers) × (0 < queued.gate.stats.active_readers))
        ⊎ ((read_only ≡ read_write) × (o.writer ≡ true) × (queued.gate.stats.writer_active ≡ true)))
release_asserted_example = release_asserted queue 0 1 read_only (omega arith) (
    unfold run step request settle attempt acquire_begin is_recursive eligible enter_wait leave_wait
      admit inc in
    refl)
