-- ===== src/Runtime.antt =====
-- frontend/src/lib/taskRuntime.js: the run state of one task. Clock readings are milliseconds, and
-- the ISO text of an instant is kept as the instant. A missing entry is `none`.
pub mod Machine
pub mod Clock
pub mod Hook
pub mod Single
mod Tests
use task_manger_project.Common.{
  ℕ, Bool, true, false, not, Option, none, some, List, [], truthy, any, ◌+◌, ◌-◌, ◌/◌, ◌&&◌, ◌||◌,
  ◌∷◌, ◌or◌, if◌then◌else◌,
}

pub data RunStatus : Type 0 where
  idle running paused completed : RunStatus

pub record Entry : Type 0 where
  pub status : RunStatus
  pub elapsed_seconds : ℕ
  pub run_start_ms : Option ℕ
  pub started_at : Option ℕ
  pub completed_at : Option ℕ

-- The table ALLOWED.
unfoldable pub allowed : RunStatus → List RunStatus
allowed idle = running ∷ []
allowed running = paused ∷ completed ∷ []
allowed paused = running ∷ completed ∷ []
allowed completed = []

abbrev pub same_status : RunStatus → RunStatus → Bool
same_status idle idle = true
same_status running running = true
same_status paused paused = true
same_status completed completed = true
same_status _ _ = false

unfoldable pub can_transition : RunStatus → RunStatus → Bool
unfolding allowed
can_transition from to = any (same_status to) (allowed from)

unfoldable pub empty_entry : Entry
empty_entry = record {
  status = idle;
  elapsed_seconds = 0;
  run_start_ms = none;
  started_at = none;
  completed_at = none;
}

-- `Math.max(0, Math.floor((nowMs - start) / 1000))`: a difference below 0 has a floor below 0.
abbrev pub whole_seconds : ℕ → Option ℕ → ℕ
whole_seconds now none = 0
whole_seconds now (some start) = (now - start) / 1000

abbrev pub is_running : Entry → Bool
is_running e = same_status e.status running

unfoldable pub display_seconds : Option Entry → ℕ → ℕ
display_seconds none now = 0
display_seconds (some e) now =
    if is_running e && truthy e.run_start_ms
    then e.elapsed_seconds + whole_seconds now e.run_start_ms
    else e.elapsed_seconds

unfoldable pub fold_running : Entry → ℕ → ℕ
fold_running e now =
    if not (is_running e) || not (truthy e.run_start_ms)
    then e.elapsed_seconds
    else e.elapsed_seconds + whole_seconds now e.run_start_ms

unfoldable pub start_entry : Option Entry → ℕ → Entry
unfolding can_transition empty_entry
start_entry entry now =
    let e = entry or empty_entry in
    if can_transition e.status running
    then record e { status = running; run_start_ms = some now; started_at = some now }
    else e

unfoldable pub resume_entry : Option Entry → ℕ → Entry
unfolding can_transition empty_entry
resume_entry entry now =
    let e = entry or empty_entry in
    if can_transition e.status running
    then record e { status = running; run_start_ms = some now }
    else e

unfoldable pub pause_entry : Option Entry → ℕ → Entry
unfolding can_transition empty_entry fold_running
pause_entry entry now =
    let e = entry or empty_entry in
    if can_transition e.status paused
    then record e { status = paused; elapsed_seconds = fold_running e now; run_start_ms = none }
    else e

unfoldable pub finish_entry : Option Entry → ℕ → Entry
unfolding can_transition empty_entry fold_running
finish_entry entry now =
    let e = entry or empty_entry in
    if can_transition e.status completed
    then record e {
      status = completed;
      elapsed_seconds = fold_running e now;
      run_start_ms = none;
      completed_at = some now;
    }
    else e
