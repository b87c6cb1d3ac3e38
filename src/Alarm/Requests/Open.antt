-- ===== src/Alarm/Requests/Open.antt =====
-- The rows of the tasks: how many open tasks with priority an update leaves to a day.

use task_manger_project.Common.{
  ℕ, refl, inl, inr, Bool, true, Option, none, List, [], arith, Bool-cases, length, filter, find, ℤ,
  ◌≤◌, ◌≡◌, ◌∷◌, ◌==◌,
}
use task_manger_project.Alarm.Transitions.{Action, TimerStatus}
use task_manger_project.Alarm.Database.{Task, Db, update_task}
use task_manger_project.Alarm.AvailableTime.{is_open_priority, complete_row, new_task}
use task_manger_project.Alarm.TaskStatus.{changed_row}
use task_manger_project.Alarm.Priority.{demote}
use task_manger_project.Alarm.Requests.{archive_rows}

abbrev pub count_open : ℕ → ℕ → List Task → ℕ
count_open user date ts = length (filter (is_open_priority user date) ts)

-- At most one open task with priority for each user and day.
unfoldable pub IsSingle : Db → Type 0
IsSingle db = (u d : ℕ) → count_open u d db.tasks ≤ 1

pub count-update :
    (u d id : ℕ) (f : Task → Task) (ts : List Task)
    → ((t : Task) → is_open_priority u d (f t) ≡ true → is_open_priority u d t ≡ true)
    → count_open u d (update_task id f ts) ≤ count_open u d ts
unfolding update_task
count-update u d id f [] h = omega arith
count-update u d id f (t ∷ ts) h = elim (Bool-cases (t.task_id == id)) [
  | inl here ↦ elim (Bool-cases (is_open_priority u d (f t))) [
    | inl yes' ↦ rw (here, yes', h t yes') (omega (arith, count-update u d id f ts h))
    | inr no' ↦ elim (Bool-cases (is_open_priority u d t)) [
      | inl was ↦ rw (here, no', was) (omega (arith, count-update u d id f ts h))
      | inr never ↦ rw (here, no', never) (omega (arith, count-update u d id f ts h))
    ]
  ]
  | inr there ↦ elim (Bool-cases (is_open_priority u d t)) [
    | inl yes' ↦ rw (there, yes') (omega (arith, count-update u d id f ts h))
    | inr no' ↦ rw (there, no') (omega (arith, count-update u d id f ts h))
  ]
]

pub count-demote :
    (u d user id : ℕ) (ts : List Task) → count_open u d (demote user id ts) ≤ count_open u d ts
unfolding demote
count-demote u d user id [] = omega arith
count-demote u d user id (t ∷ ts) = ground (arith, count-demote u d user id ts)

pub count-archive :
    (u d user id : ℕ) (ts : List Task)
    → count_open u d (archive_rows user id ts) ≤ count_open u d ts
unfolding archive_rows
count-archive u d user id [] = omega arith
count-archive u d user id (t ∷ ts) = ground (arith, count-archive u d user id ts)

pub none_open :
    (u d : ℕ) (ts : List Task) → find (is_open_priority u d) ts ≡ none → count_open u d ts ≡ 0
none_open u d [] e = refl
none_open u d (t ∷ ts) e = elim (Bool-cases (is_open_priority u d t)) [
  | inl yes' ↦ absurd (ground (arith, yes', e))
  | inr no' ↦ ground (arith, no', e, none_open u d ts)
]

pub completed_closed :
    (u d spent at : ℕ) (t : Task)
    → is_open_priority u d (complete_row spent at t) ≡ true
    → is_open_priority u d t ≡ true
completed_closed u d spent at t e = ground arith

pub changed_closed :
    (u d : ℕ) (action : Action) (timer : TimerStatus) (elapsed : Option ℤ) (now : ℕ) (t : Task)
    → is_open_priority u d (changed_row action timer elapsed now t) ≡ true
    → is_open_priority u d t ≡ true
unfolding changed_row
changed_closed u d action timer elapsed now t e = ground arith

-- A row that is open for a day is of that day and has priority.
pub open_row :
    (u d id user : ℕ) (title : List ℕ) (dur : ℕ) (prio : Bool) (date now : ℕ)
    → is_open_priority u d (new_task id user title dur prio date now) ≡ true
    → (user ≡ u) × (date ≡ d) × (prio ≡ true)
open_row u d id user title dur prio date now e = ground (arith, e)
