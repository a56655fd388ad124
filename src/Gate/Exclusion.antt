-- ===== src/Gate/Exclusion.antt =====
-- database_access_gate.cpp: readers and the writer exclude each other in every interleaving.
use minidb_cpp.Prelude.{
  ℕ, ◌+◌, ◌≤◌, ◌<◌, ◌≡◌, refl, ◌∙◌, Bool, true, false, not, ◌||◌, List, [], ◌∷◌, ◌⊎◌, inl, inr,
  arith, length, count_if, get_elem?, Bool-cases, Option-cases,
}
use minidb_cpp.Gate.{
  AccessMode, read_only, read_write, Gate, Stats, Attempt, acquired, cancelled, blocked, uint64_mod,
  enter_wait, leave_wait, eligible, admit, release, attempt, acquire_begin, is_recursive, shutdown,
  reset_stats,
}
use minidb_cpp.Gate.System.{
  System, Holder, Event, requests, wakes, releases, shuts_down, resets, remove_at, settle, request,
  wake, let_go, step, run, start,
}
use minidb_cpp.Gate.Invariant.{
  reads, writes, GateOk, WaitsOk, enter_wait-GateOk, enter_wait-WaitsOk, leave_wait-GateOk,
  leave_wait-WaitsOk, length-remove_at,
}
use minidb_cpp.Gate.Leases.{admit-GateOk, release-GateOk}

-- The counters agree with the leases and the sleepers, and no lease of one thread or mode is beside
-- the writer's.
pub record Inv (s : System) : Type 0 where
  pub holds : GateOk s.gate s.leases
  pub waits : WaitsOk s.gate.stats s.sleepers

-- The room that the 64-bit counters need.
abbrev pub load : System → ℕ
load s = length s.leases + length s.sleepers

eligible-free :
    (s : Stats) (mode : AccessMode)
    → eligible s mode ≡ true
    → (s.writer_active ≡ false) × ((mode ≡ read_only) ⊎ (s.active_readers ≡ 0))
unfolding eligible
eligible-free s read_only h = (ground arith, inl refl)
eligible-free s read_write h = (ground arith, inr (ground arith))

left-same :
    (mode : AccessMode) (waiting : Bool) (elapsed : ℕ) (s : Stats)
    → ((leave_wait mode waiting elapsed s).writer_active ≡ s.writer_active)
      × ((leave_wait mode waiting elapsed s).active_readers ≡ s.active_readers)
unfolding leave_wait
left-same read_only true elapsed s = (refl, refl)
left-same read_write true elapsed s = (refl, refl)
left-same mode false elapsed s = (refl, refl)

admit-waits :
    (t : ℕ) (mode : AccessMode) (g : Gate) (sleepers : List Holder)
    → WaitsOk g.stats sleepers
    → WaitsOk (admit t mode g).stats sleepers
unfolding admit
admit-waits t read_only g sleepers w = w
admit-waits t read_write g sleepers w = w

-- One round of the loop of `acquire`, for a thread that is no longer among the sleepers `rest`.
settle-Inv :
    (s : System) (t : ℕ) (mode : AccessMode) (waiting cancel : Bool) (elapsed : ℕ)
    (rest : List Holder)
    → length s.leases + 1 < uint64_mod
    → GateOk s.gate s.leases
    → (eligible s.gate.stats mode ≡ false → Inv s)
    → WaitsOk (leave_wait mode waiting elapsed s.gate.stats) rest
    → Inv (settle s (t, mode) rest (attempt s.gate t mode waiting cancel elapsed))
unfolding settle attempt
settle-Inv s t mode waiting cancel elapsed rest small v asleep w =
    elim (Bool-cases (s.gate.stopped || cancel)) [
      | inl stop ↦
          rw (stop, settle)
            (record { holds = leave_wait-GateOk mode waiting elapsed s.gate s.leases v; waits = w })
      | inr going ↦ elim (Bool-cases (eligible s.gate.stats mode)) [
        | inr sleep ↦ rw (going, sleep, settle) (asleep sleep)
        | inl now ↦
            let (free, other) = eligible-free s.gate.stats mode now in
            let (same, same') = left-same mode waiting elapsed s.gate.stats in
            rw (going, now, settle)
              (record {
                holds =
                    admit-GateOk t mode _ s.leases small (same ∙ free)
                      (ground (arith, other, same'))
                      (leave_wait-GateOk mode waiting elapsed s.gate s.leases v);
                waits = admit-waits t mode _ rest w;
              })
      ]
    ]

wake-Inv :
    (s : System) (i : ℕ) (cancel : Bool) (elapsed : ℕ)
    → load s + 1 < uint64_mod
    → Inv s
    → Inv (wake s i cancel elapsed)
unfolding wake
wake-Inv s i cancel elapsed small v = elim (Option-cases (get_elem? s.sleepers i)) [
  | inl nobody ↦ rw (nobody, wake) v
  | inr ((t, mode), found) ↦
      rw (found, wake)
        (settle-Inv s t mode true cancel elapsed (remove_at i s.sleepers) (omega arith) v.holds
          (λ _. v)
          (leave_wait-WaitsOk t mode elapsed i s.gate.stats s.sleepers (omega arith) found v.waits))
]

module _ (s : System) (t : ℕ) (mode : AccessMode) where
  -- The system as the thread comes to the loop.
  abbrev come : Bool → System
  come waiting = record s {
    gate = record (s.gate) { stats = enter_wait mode waiting s.gate.stats };
    sleepers = (t, mode) ∷ s.sleepers;
  }

module _ (s : System) (t : ℕ) (mode : AccessMode) (cancel : Bool) (elapsed : ℕ)
    (small : load s + 1 < uint64_mod) (v : Inv s) where
  queued : Inv (come s t mode true)
  queued = record {
    holds = enter_wait-GateOk mode true s.gate s.leases v.holds;
    waits = enter_wait-WaitsOk t mode s.gate.stats s.sleepers (omega arith) v.waits;
  }

  queued_settles : Inv (
      settle
        (come s t mode true)
        (t, mode)
        s.sleepers
        (attempt (come s t mode true).gate t mode true cancel elapsed))
  unfolding remove_at
  queued_settles =
      settle-Inv (come s t mode true) t mode true cancel elapsed s.sleepers (omega arith)
        queued.holds (λ _. queued)
        (leave_wait-WaitsOk t mode elapsed 0 (come s t mode true).gate.stats
          ((t, mode) ∷ s.sleepers) (omega arith) refl queued.waits)

  straight_settles :
      eligible s.gate.stats mode ≡ true
      → Inv (
          settle
            (come s t mode false)
            (t, mode)
            s.sleepers
            (attempt (come s t mode false).gate t mode false cancel elapsed))
  unfolding enter_wait leave_wait
  straight_settles now =
      settle-Inv (come s t mode false) t mode false cancel elapsed s.sleepers (omega arith) v.holds
        (λ later. cc) v.waits

  request-Inv : Inv (request s t mode cancel elapsed)
  unfolding request acquire_begin
  request-Inv = elim (Bool-cases (is_recursive s.gate t mode)) [
    | inl again ↦ rw (again, request) v
    | inr fresh ↦ elim (Bool-cases (eligible s.gate.stats mode)) [
      | inl now ↦ rw (fresh, now, request) (straight_settles now)
      | inr later ↦ rw (fresh, later, request) queued_settles
    ]
  ]

let_go-Inv : (s : System) (i : ℕ) → load s + 1 < uint64_mod → Inv s → Inv (let_go s i)
unfolding let_go
let_go-Inv s i small v = elim (Option-cases (get_elem? s.leases i)) [
  | inl nobody ↦ rw (nobody, let_go) v
  | inr ((t, mode), found) ↦
      rw (found, let_go)
        (record {
          holds = release-GateOk t i mode s.gate s.leases (omega arith) found v.holds;
          waits = release-waits t mode s.gate s.sleepers v.waits;
        })
]
  where
    release-waits :
        (t : ℕ) (mode : AccessMode) (g : Gate) (sleepers : List Holder)
        → WaitsOk g.stats sleepers
        → WaitsOk (release mode t g).stats sleepers
    release-waits t read_only g sleepers w = unfold release in w
    release-waits t read_write g sleepers w = unfold release in w

step-Inv : (s : System) (e : Event) → load s + 1 < uint64_mod → Inv s → Inv (step s e)
unfolding step
step-Inv s (requests t mode cancel elapsed) small v = request-Inv s t mode cancel elapsed small v
step-Inv s (wakes i cancel elapsed) small v = wake-Inv s i cancel elapsed small v
step-Inv s (releases i) small v = let_go-Inv s i small v
step-Inv s shuts_down small v = unfold shutdown in record { holds = v.holds; waits = v.waits }
step-Inv s resets small v =
    unfold reset_stats in
    record {
      holds = record {
        active_ok = v.holds.active_ok;
        writer_ok = v.holds.writer_ok;
        exclusive = v.holds.exclusive;
        peak_ok = omega arith;
        owners_ok = v.holds.owners_ok;
      };
      waits = v.waits;
    }

-- An event adds one lease or one sleeper at most.
settle-load :
    (s : System) (h : Holder) (rest : List Holder) (a : Attempt)
    → length rest + 1 ≡ length s.sleepers
    → load (settle s h rest a) ≤ load s
unfolding settle
settle-load s h rest (acquired g) e = omega arith
settle-load s h rest (cancelled g) e = omega arith
settle-load s h rest blocked e = omega arith

request-load :
    (s : System) (t : ℕ) (mode : AccessMode) (cancel : Bool) (elapsed : ℕ)
    → load (request s t mode cancel elapsed) ≤ load s + 1
unfolding request acquire_begin
request-load s t mode cancel elapsed = elim (Bool-cases (is_recursive s.gate t mode)) [
  | inl again ↦ rw (again, request) (omega arith)
  | inr fresh ↦
      rw (fresh, request)
        (omega (
          arith,
          settle-load (come s t mode waiting) (t, mode) s.sleepers
              (attempt (come s t mode waiting).gate t mode waiting cancel elapsed) (omega arith),
        ))
]
  where
    waiting : Bool
    waiting = not (eligible s.gate.stats mode)

wake-load :
    (s : System) (i : ℕ) (cancel : Bool) (elapsed : ℕ) → load (wake s i cancel elapsed) ≤ load s
unfolding wake
wake-load s i cancel elapsed = elim (Option-cases (get_elem? s.sleepers i)) [
  | inl nobody ↦ rw (nobody, wake) (omega arith)
  | inr ((t, mode), found) ↦
      rw (found, wake)
        (settle-load s (t, mode) (remove_at i s.sleepers)
          (attempt s.gate t mode true cancel elapsed)
          (length-remove_at s.sleepers i (t, mode) found))
]

let_go-load : (s : System) (i : ℕ) → load (let_go s i) ≤ load s
unfolding let_go
let_go-load s i = elim (Option-cases (get_elem? s.leases i)) [
  | inl nobody ↦ rw (nobody, let_go) (omega arith)
  | inr ((t, mode), found) ↦
      rw (found, let_go) (omega (arith, length-remove_at s.leases i (t, mode) found))
]

step-load : (s : System) (e : Event) → load (step s e) ≤ load s + 1
unfolding step
step-load s (requests t mode cancel elapsed) = request-load s t mode cancel elapsed
step-load s (wakes i cancel elapsed) = omega (arith, wake-load s i cancel elapsed)
step-load s (releases i) = omega (arith, let_go-load s i)
step-load s shuts_down = omega arith
step-load s resets = omega arith

run-Inv : (es : List Event) (s : System) → load s + length es < uint64_mod → Inv s → Inv (run s es)
unfolding run
run-Inv [] s small v = v
run-Inv (e ∷ es) s small v =
    run-Inv es (step s e) (omega (arith, step-load s e)) (step-Inv s e (omega arith) v)

start-Inv : Inv start
start-Inv = record {
  holds = record {
    active_ok = refl;
    writer_ok = refl;
    exclusive = inl refl;
    peak_ok = omega arith;
    owners_ok = λ t. (refl, refl);
  };
  waits = (refl, refl);
}

-- In every interleaving of fewer than 2 ^ 64 events from a fresh gate the counters and the owners
-- agree with the leases and the sleepers, and a writer excludes readers.
pub run-start-Inv : (es : List Event) → length es < uint64_mod → Inv (run start es)
run-start-Inv es h = run-Inv es start (omega arith) start-Inv

-- In every interleaving of fewer than 2 ^ 64 events from a fresh gate there is no exclusive lease, or
-- there is one, and it is the only lease.
pub run_exclusive :
    (es : List Event)
    → length es < uint64_mod
    → let leases = (run start es).leases in
      (count_if writes leases ≡ 0) ⊎ ((count_if writes leases ≡ 1) × (count_if reads leases ≡ 0))
run_exclusive es h =
    let v = run-start-Inv es h in
    ground (arith, v.holds.exclusive, v.holds.writer_ok, v.holds.active_ok)
