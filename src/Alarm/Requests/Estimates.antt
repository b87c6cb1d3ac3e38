-- ===== src/Alarm/Requests/Estimates.antt =====
-- The rows of the tasks: what the estimates and the times of a day come to after an update.

use task_manger_project.Common.{
  ℕ, inl, inr, Option, none, some, List, [], arith, Bool-cases, All, ℤ, pos, +ℤ_parts, -ℤ_parts,
  ◌+◌, ◌≤◌, ◌&&◌, ◌∷◌, ◌==◌, ◌or◌, ◌-ℤ◌, ◌≤ℤ◌,
}
use task_manger_project.Alarm.Transitions.{Action, TimerStatus}
use task_manger_project.Alarm.Database.{Task, Db, update_task, sum, sum_ℤ, of_day, is_completed}
use task_manger_project.Alarm.AvailableTime.{
  total_of, sum_allocated, allocated_seconds, complete_row, least, consumed_seconds,
}
use task_manger_project.Alarm.TaskStatus.{changed_row}
use task_manger_project.Alarm.Priority.{demote}
use task_manger_project.Alarm.Requests.{archive_rows}

-- For each user and day, the estimates of the tasks that wait fit into the available time.
unfoldable pub IsFunded : Db → Type 0
IsFunded db = (u d : ℕ) → sum_allocated u d db ≤ total_of u d db.times

pub sum_update_le :
    (g : Task → ℕ) (id : ℕ) (f : Task → Task) (ts : List Task)
    → ((t : Task) → g (f t) ≤ g t)
    → sum g (update_task id f ts) ≤ sum g ts
unfolding sum update_task
sum_update_le g id f [] h = omega arith
sum_update_le g id f (t ∷ ts) h = elim (Bool-cases (t.task_id == id)) [
  | inl here ↦ rw here (omega (arith, h t, sum_update_le g id f ts h))
  | inr there ↦ rw there (omega (arith, sum_update_le g id f ts h))
]

pub sum-demote :
    (u d user id : ℕ) (ts : List Task)
    → sum (allocated_seconds u d) (demote user id ts) ≤ sum (allocated_seconds u d) ts
unfolding sum demote
sum-demote u d user id [] = omega arith
sum-demote u d user id (t ∷ ts) = ground (arith, sum-demote u d user id ts)

pub sum-archive :
    (u d user id : ℕ) (ts : List Task)
    → sum (allocated_seconds u d) (archive_rows user id ts) ≤ sum (allocated_seconds u d) ts
unfolding sum archive_rows
sum-archive u d user id [] = omega arith
sum-archive u d user id (t ∷ ts) = ground (arith, sum-archive u d user id ts)

pub completed_less :
    (u d spent at : ℕ) (t : Task)
    → allocated_seconds u d (complete_row spent at t) ≤ allocated_seconds u d t
completed_less u d spent at t = ground arith

pub changed_less :
    (u d : ℕ) (action : Action) (timer : TimerStatus) (elapsed : Option ℤ) (now : ℕ) (t : Task)
    → allocated_seconds u d (changed_row action timer elapsed now t) ≤ allocated_seconds u d t
unfolding changed_row
changed_less u d action timer elapsed now t = ground arith

-- No time that is reported is negative.
abbrev pub IsNatural : Option ℤ → Type 0
IsNatural e = pos 0 ≤ℤ (e or pos 0)

abbrev pub AllNatural : List Task → Type 0
AllNatural ts = All (λ t. IsNatural t.elapsed_time) ts

least_natural : (a : ℤ) (est : Option ℕ) → pos 0 ≤ℤ a → pos 0 ≤ℤ least a est
least_natural a none h = h
least_natural a (some n) h = ground (arith, h)

pub consumed_natural :
    (u d : ℕ) (ts : List Task) → AllNatural ts → pos 0 ≤ℤ sum_ℤ (consumed_seconds u d) ts
unfolding sum_ℤ
consumed_natural u d [] h = omega arith
consumed_natural u d (t ∷ ts) h =
    let one : pos 0 ≤ℤ consumed_seconds u d t =
      elim (Bool-cases (of_day u d t && is_completed t.status)) [
        | inl yes' ↦ rw yes' (least_natural (t.elapsed_time or pos 0) t.estimated_duration h.0)
        | inr no' ↦ rw no' (omega arith)
      ] in
    omega (
      arith,
      one,
      consumed_natural u d ts h.1,
      +ℤ_parts (consumed_seconds u d t) (sum_ℤ (consumed_seconds u d) ts),
    )

-- What a reservation has checked, where nothing negative is consumed.
pub fits_le :
    (total allocated dur : ℕ) (consumed : ℤ)
    → pos dur ≤ℤ pos total -ℤ pos allocated -ℤ consumed
    → pos 0 ≤ℤ consumed
    → dur + allocated ≤ total
fits_le total allocated dur consumed h k = omega (
  arith,
  -ℤ_parts (pos total) (pos allocated),
  -ℤ_parts (pos total -ℤ pos allocated) consumed,
  h,
  k,
)
