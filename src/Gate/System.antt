-- ===== src/Gate/System.antt =====
-- database_access_gate.cpp: the gate together with the leases that are held and the threads that
-- sleep in `acquire`. The mutex makes each event below atomic, so a list of events is an
-- interleaving of the threads.
use minidb_cpp.Prelude.{ℕ, zero, suc, Bool, true, none, some, List, [], ◌∷◌, ok, err, get_elem?}
use minidb_cpp.Gate.{
  AccessMode, Gate, acquire_begin, attempt, Attempt, acquired, cancelled, blocked, release,
  shutdown, reset_stats, new_gate,
}

-- A lease, or a sleeper: the thread and its mode.
abbrev pub Holder : Type 0
Holder = ℕ × AccessMode

pub record System : Type 0 where
  pub gate : Gate
  pub leases : List Holder
  pub sleepers : List Holder

abbrev pub start : System
start = record { gate = new_gate; leases = []; sleepers = [] }

unfoldable pub remove_at {ℓ} : {A : Type ℓ} → ℕ → List A → List A
remove_at i [] = []
remove_at zero (x ∷ xs) = xs
remove_at (suc i) (x ∷ xs) = x ∷ remove_at i xs

pub data Event : Type 0 where
  -- A thread calls `acquireShared` or `acquireExclusive`; its probe answers `cancel`.
  requests : (thread : ℕ) (mode : AccessMode) (cancel : Bool) (elapsed : ℕ) → Event
  -- A sleeper wakes, by a notification or after ten milliseconds, and looks again.
  wakes : (position : ℕ) (cancel : Bool) (elapsed : ℕ) → Event
  -- A lease is reset or destroyed.
  releases : (position : ℕ) → Event
  shuts_down resets : Event

-- What becomes of a thread whose round of the loop ended so, with the other sleepers `rest`.
unfoldable pub settle : System → Holder → List Holder → Attempt → System
settle s h rest (acquired g) = record s { gate = g; leases = h ∷ s.leases; sleepers = rest }
settle s h rest (cancelled g) = record s { gate = g; sleepers = rest }
settle s h rest blocked = s

unfoldable pub request : System → ℕ → AccessMode → Bool → ℕ → System
request s thread mode cancel elapsed = elim (acquire_begin s.gate thread mode) [
  | err e ↦ s
  | ok (g, waiting) ↦
      let h : Holder = (thread, mode) in
      settle (record s { gate = g; sleepers = h ∷ s.sleepers }) h s.sleepers
        (attempt g thread mode waiting cancel elapsed)
]

unfoldable pub wake : System → ℕ → Bool → ℕ → System
wake s position cancel elapsed = elim (get_elem? s.sleepers position) [
  | none ↦ s
  | some (thread, mode) ↦
      settle s (thread, mode) (remove_at position s.sleepers)
        (attempt s.gate thread mode true cancel elapsed)
]

unfoldable pub let_go : System → ℕ → System
let_go s position = elim (get_elem? s.leases position) [
  | none ↦ s
  | some (thread, mode) ↦ record s {
    gate = release mode thread s.gate;
    leases = remove_at position s.leases;
  }
]

unfoldable pub step : System → Event → System
step s (requests thread mode cancel elapsed) = request s thread mode cancel elapsed
step s (wakes position cancel elapsed) = wake s position cancel elapsed
step s (releases position) = let_go s position
step s shuts_down = record s { gate = shutdown s.gate }
step s resets = record s { gate = reset_stats s.gate }

unfoldable pub run : System → List Event → System
run s [] = s
run s (e ∷ es) = run (step s e) es
