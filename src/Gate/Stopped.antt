-- ===== src/Gate/Stopped.antt =====
-- database_access_gate.cpp: what a gate that is shut lets happen.
use minidb_cpp.Prelude.{
  ℕ, ◌≡◌, refl, Bool, true, not, some, List, [], ◌∷◌, inl, inr, arith, count_if, get_elem?,
  Bool-cases, Option-cases, ◌≤◌, ◌∙◌,
}
use minidb_cpp.Gate.{
  AccessMode, read_only, read_write, enter_wait, eligible, attempt, acquire_begin, is_recursive,
  Gate, release, shutdown, reset_stats,
}
use minidb_cpp.Gate.System.{
  System, Holder, Event, requests, wakes, releases, shuts_down, resets, remove_at, settle, request,
  wake, let_go, step, run,
}
use minidb_cpp.Gate.Invariant.{count_if-remove_at}

settle_stopped :
    (s : System) (t : ℕ) (mode : AccessMode) (waiting cancel : Bool) (elapsed : ℕ)
    (rest : List Holder)
    → s.gate.stopped ≡ true
    → let s' = settle s (t, mode) rest (attempt s.gate t mode waiting cancel elapsed) in
      (s'.gate.stopped ≡ true) × (s'.leases ≡ s.leases) × (s'.sleepers ≡ rest)
unfolding settle attempt
settle_stopped s t mode waiting cancel elapsed rest h = ground arith

-- No lease or sleeper of `s` that `p` accepts is added in `t`, and the gate is shut.
abbrev Shut : (Holder → Bool) → System → System → Type 0
Shut p s t =
    (t.gate.stopped ≡ true)
    × (count_if p t.leases ≤ count_if p s.leases)
    × (count_if p t.sleepers ≤ count_if p s.sleepers)

count_if-remove_at_le :
    (p : Holder → Bool) (xs : List Holder) (i : ℕ) (x : Holder)
    → get_elem? xs i ≡ some x
    → count_if p (remove_at i xs) ≤ count_if p xs
count_if-remove_at_le p xs i x h = omega (arith, count_if-remove_at p xs i x h)

release-stopped : (mode : AccessMode) (t : ℕ) (g : Gate) → (release mode t g).stopped ≡ g.stopped
unfolding release
release-stopped read_only t g = refl
release-stopped read_write t g = refl

request-Shut :
    (p : Holder → Bool) (s : System) (t : ℕ) (mode : AccessMode) (cancel : Bool) (elapsed : ℕ)
    → s.gate.stopped ≡ true
    → Shut p s (request s t mode cancel elapsed)
unfolding request acquire_begin
request-Shut p s t mode cancel elapsed h = elim (Bool-cases (is_recursive s.gate t mode)) [
  | inl again ↦ rw (again, request) (h, omega arith, omega arith)
  | inr fresh ↦
      let (a, b, c) =
        settle_stopped
          (record s {
            gate = record (s.gate) {
              stats = enter_wait mode (not (eligible s.gate.stats mode)) s.gate.stats;
            };
            sleepers = (t, mode) ∷ s.sleepers;
          })
          t mode (not (eligible s.gate.stats mode)) cancel elapsed s.sleepers h in
      rw (fresh, request) (a, rw b (omega arith), rw c (omega arith))
]

wake-Shut :
    (p : Holder → Bool) (s : System) (i : ℕ) (cancel : Bool) (elapsed : ℕ)
    → s.gate.stopped ≡ true
    → Shut p s (wake s i cancel elapsed)
unfolding wake
wake-Shut p s i cancel elapsed h = elim (Option-cases (get_elem? s.sleepers i)) [
  | inl nobody ↦ rw (nobody, wake) (h, omega arith, omega arith)
  | inr ((t, mode), found) ↦
      let (a, b, c) = settle_stopped s t mode true cancel elapsed (remove_at i s.sleepers) h in
      rw (found, wake)
        (a, rw b (omega arith), rw c (count_if-remove_at_le p s.sleepers i (t, mode) found))
]

let_go-Shut :
    (p : Holder → Bool) (s : System) (i : ℕ) → s.gate.stopped ≡ true → Shut p s (let_go s i)
unfolding let_go
let_go-Shut p s i h = elim (Option-cases (get_elem? s.leases i)) [
  | inl nobody ↦ rw (nobody, let_go) (h, omega arith, omega arith)
  | inr ((t, mode), found) ↦
      rw (found, let_go)
        (
          release-stopped mode t s.gate ∙ h,
          count_if-remove_at_le p s.leases i (t, mode) found,
          omega arith,
        )
]

step-Shut :
    (p : Holder → Bool) (s : System) (e : Event) → s.gate.stopped ≡ true → Shut p s (step s e)
unfolding step shutdown reset_stats
step-Shut p s (requests t mode cancel elapsed) h = request-Shut p s t mode cancel elapsed h
step-Shut p s (wakes i cancel elapsed) h = wake-Shut p s i cancel elapsed h
step-Shut p s (releases i) h = let_go-Shut p s i h
step-Shut p s shuts_down h = (refl, omega arith, omega arith)
step-Shut p s resets h = (h, omega arith, omega arith)

pub run-Shut :
    (p : Holder → Bool) (s : System) (es : List Event) → s.gate.stopped ≡ true → Shut p s (run s es)
unfolding run
run-Shut p s [] h = (h, omega arith, omega arith)
run-Shut p s (e ∷ es) h =
    let (a, b, c) = step-Shut p s e h in
    let (d, f, g) = run-Shut p (step s e) es a in (d, omega (arith, b, f), omega (arith, c, g))
