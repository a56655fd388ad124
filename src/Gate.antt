-- ===== src/Gate.antt =====
-- src/database_access_gate.cpp and its header: shared and exclusive leases of the database. Each
-- function below is one section of code under the gate's mutex. Thread ids are numbers; the value
-- of the cancellation probe, and the time that a thread has waited, are arguments.
pub mod System
pub mod Invariant
pub mod Leases
pub mod Exclusion
pub mod Stopped
pub mod Progress
mod Tests
use minidb_cpp.Prelude.{
  ℕ, ◌+◌, ◌-◌, ◌%◌, ◌^◌, Bool, true, false, not, ◌&&◌, ◌||◌, Option, none, some, Result, ok, err,
  ltb, ◌==◌, if◌then◌else◌, max,
}

pub data AccessMode : Type 0 where
  read_only read_write : AccessMode

pub data Error : Type 0 where
  recursive_access access_cancelled : Error

pub record Stats : Type 0 where
  pub active_readers : ℕ
  pub peak_concurrent_readers : ℕ
  pub writer_active : Bool
  pub waiting_readers : ℕ
  pub waiting_writers : ℕ
  pub shared_acquisitions : ℕ
  pub exclusive_acquisitions : ℕ
  pub reader_wait_count : ℕ
  pub writer_wait_count : ℕ
  pub reader_wait_ns : ℕ
  pub writer_wait_ns : ℕ
  pub cancelled_waits : ℕ

pub record Ownership : Type 0 where
  pub readers : ℕ
  pub writer : Bool

-- `owners` is the unordered map: `none` where a thread has no entry.
pub record Gate : Type 0 where
  pub stats : Stats
  pub owners : ℕ → Option Ownership
  pub stopped : Bool

abbrev pub uint64_mod : ℕ
uint64_mod = 2 ^ 64

-- `++n`, `--n` and `n += d` on a std::uint64_t.
unfoldable pub inc : ℕ → ℕ
inc n = (n + 1) % uint64_mod

unfoldable pub dec : ℕ → ℕ
dec n = (n + uint64_mod - 1) % uint64_mod

unfoldable pub plus : ℕ → ℕ → ℕ
plus n d = (n + d) % uint64_mod

abbrev pub empty_stats : Stats
empty_stats = record {
  active_readers = 0;
  peak_concurrent_readers = 0;
  writer_active = false;
  waiting_readers = 0;
  waiting_writers = 0;
  shared_acquisitions = 0;
  exclusive_acquisitions = 0;
  reader_wait_count = 0;
  writer_wait_count = 0;
  reader_wait_ns = 0;
  writer_wait_ns = 0;
  cancelled_waits = 0;
}

abbrev pub new_gate : Gate
new_gate = record { stats = empty_stats; owners = λ thread. none; stopped = false }

abbrev pub is_write : AccessMode → Bool
is_write read_only = false
is_write read_write = true

abbrev pub update : (ℕ → Option Ownership) → ℕ → Option Ownership → ℕ → Option Ownership
update owners thread o t = if t == thread then o else owners t

-- The lambda `eligible` of `acquire`.
unfoldable pub eligible : Stats → AccessMode → Bool
eligible s read_only = not s.writer_active && (s.waiting_writers == 0)
eligible s read_write = not s.writer_active && (s.active_readers == 0)

-- `owned != end && (mode == ReadWrite || owned->second.writer || stats_.waitingWriters != 0)`
unfoldable pub is_recursive : Gate → ℕ → AccessMode → Bool
is_recursive g thread mode = elim (g.owners thread) [
  | none ↦ false
  | some o ↦ is_write mode || (o.writer || not (g.stats.waiting_writers == 0))
]

-- `if (waiting) { ++waiters; ++waits; }`
unfoldable pub enter_wait : AccessMode → Bool → Stats → Stats
enter_wait mode false s = s
enter_wait read_only true s = record s {
  waiting_readers = inc s.waiting_readers;
  reader_wait_count = inc s.reader_wait_count;
}
enter_wait read_write true s = record s {
  waiting_writers = inc s.waiting_writers;
  writer_wait_count = inc s.writer_wait_count;
}

-- The lambda `leaveWait`.
unfoldable pub leave_wait : AccessMode → Bool → ℕ → Stats → Stats
leave_wait mode false elapsed s = s
leave_wait read_only true elapsed s = record s {
  waiting_readers = dec s.waiting_readers;
  reader_wait_ns = plus s.reader_wait_ns elapsed;
}
leave_wait read_write true elapsed s = record s {
  waiting_writers = dec s.waiting_writers;
  writer_wait_ns = plus s.writer_wait_ns elapsed;
}

-- `acquire` up to its loop: the gate, and whether the thread counts as waiting.
unfoldable pub acquire_begin : Gate → ℕ → AccessMode → Result Error (Gate × Bool)
acquire_begin g thread mode =
    let waiting = not (eligible g.stats mode) in
    if is_recursive g thread mode
    then err recursive_access
    else ok (record g { stats = enter_wait mode waiting g.stats }, waiting)

abbrev pub ownership_of : Option Ownership → Ownership
ownership_of none = record { readers = 0; writer = false }
ownership_of (some o) = o

-- `owners_[owner]`, and the counters of a lease that is handed out.
unfoldable pub admit : ℕ → AccessMode → Gate → Gate
admit thread read_only g =
    let o = ownership_of (g.owners thread) in
    let readers = inc g.stats.active_readers in
    record g {
      owners = update g.owners thread (some (record o { readers = inc o.readers }));
      stats = record (g.stats) {
        active_readers = readers;
        shared_acquisitions = inc g.stats.shared_acquisitions;
        peak_concurrent_readers = max g.stats.peak_concurrent_readers readers;
      };
    }
admit thread read_write g =
    let o = ownership_of (g.owners thread) in
    record g {
      owners = update g.owners thread (some (record o { writer = true }));
      stats = record (g.stats) {
        writer_active = true;
        exclusive_acquisitions = inc g.stats.exclusive_acquisitions;
      };
    }

pub data Attempt : Type 0 where
  acquired cancelled : Gate → Attempt
  blocked : Attempt

-- One round of the loop of `acquire`, with what follows it where it ends: the handler of the
-- exception, or the lease. `blocked` goes to sleep on the condition variable.
unfoldable pub attempt : Gate → ℕ → AccessMode → Bool → Bool → ℕ → Attempt
attempt g thread mode waiting cancel elapsed =
    let left = leave_wait mode waiting elapsed g.stats in
    if g.stopped || cancel
    then cancelled (record g { stats = record left { cancelled_waits = inc left.cancelled_waits } })
    else (if eligible g.stats mode
        then acquired (admit thread mode (record g { stats = left }))
        else blocked)

-- `if (readers == 0 && !writer) owners_.erase(found);`
abbrev pub keep_ownership : Ownership → Option Ownership
keep_ownership o = if (o.readers == 0) && not o.writer then none else some o

-- `release`: an owner with no entry is excluded by an assertion.
unfoldable pub release : AccessMode → ℕ → Gate → Gate
release read_only thread g =
    let o = ownership_of (g.owners thread) in
    record g {
      owners = update g.owners thread (keep_ownership (record o { readers = dec o.readers }));
      stats = record (g.stats) { active_readers = dec g.stats.active_readers };
    }
release read_write thread g =
    let o = ownership_of (g.owners thread) in
    record g {
      owners = update g.owners thread (keep_ownership (record o { writer = false }));
      stats = record (g.stats) { writer_active = false };
    }

unfoldable pub shutdown : Gate → Gate
shutdown g = record g { stopped = true }

unfoldable pub reset_stats : Gate → Gate
reset_stats g = record g {
  stats = record empty_stats {
    active_readers = g.stats.active_readers;
    peak_concurrent_readers = g.stats.active_readers;
    writer_active = g.stats.writer_active;
    waiting_readers = g.stats.waiting_readers;
    waiting_writers = g.stats.waiting_writers;
  };
}
