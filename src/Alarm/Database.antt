-- ===== src/Alarm/Database.antt =====
-- The tables that the services of alarm-system/src read and write, and their transactions. The
-- queries are the SQL of the services; a column that may be NULL is an option. A date is the number
-- of its key, 20260115 for 2026-01-15; an instant is its milliseconds, a text its UTF-16 units.
pub mod Rows
pub mod Query
use task_manger_project.Common.{
  ℕ, Bool, true, false, Option, none, some, List, [], ℤ, pos, ◌+◌, ◌&&◌, ◌∷◌, ◌==◌, if◌then◌else◌,
  ◌+ℤ◌,
}
use task_manger_project.Alarm.Transitions.{
  BusinessStatus, TimerStatus, completed_task, archived, pending, snoozed,
}

pub record Task : Type 0 where
  pub task_id : ℕ
  pub user_id : ℕ
  pub title : List ℕ
  pub status : BusinessStatus
  pub timer_status : TimerStatus
  pub estimated_duration : Option ℕ
  pub elapsed_time : Option ℤ
  pub scheduled_date : ℕ
  pub deadline : Option ℕ
  pub is_priority : Bool
  pub is_deferred : Bool
  pub deferred_count : ℕ
  pub completed_at : Option ℕ
  pub timer_started_at : Option ℕ
  pub created_at : ℕ

-- A row of user_available_time.
pub record DayTime : Type 0 where
  pub user_id : ℕ
  pub service_date : ℕ
  pub available_seconds : ℕ

-- A row of time_refunds.
pub record Refund : Type 0 where
  pub user_id : ℕ
  pub task_id : ℕ
  pub refunded_seconds : ℕ
  pub created_at : ℕ

-- `next_id` is the sequence that numbers the tasks.
pub record Db : Type 0 where
  pub tasks : List Task
  pub times : List DayTime
  pub refunds : List Refund
  pub next_id : ℕ

-- status IN ('PENDING','SNOOZED')
abbrev pub is_allocated : BusinessStatus → Bool
is_allocated pending = true
is_allocated snoozed = true
is_allocated _ = false

-- status NOT IN ('COMPLETED','ARCHIVED')
abbrev pub is_active : BusinessStatus → Bool
is_active completed_task = false
is_active archived = false
is_active _ = true

abbrev pub is_completed : BusinessStatus → Bool
is_completed completed_task = true
is_completed _ = false

abbrev pub is_archived : BusinessStatus → Bool
is_archived archived = true
is_archived _ = false

-- user_id = $1 AND scheduled_date = $2
abbrev pub of_day : ℕ → ℕ → Task → Bool
of_day user date t = t.user_id == user && t.scheduled_date == date

-- UPDATE tasks SET ... WHERE task_id = $1
unfoldable pub update_task : ℕ → (Task → Task) → List Task → List Task
update_task id f [] = []
update_task id f (t ∷ ts) = (if t.task_id == id then f t else t) ∷ update_task id f ts

unfoldable pub find_task : ℕ → List Task → Option Task
find_task id [] = none
find_task id (t ∷ ts) = let rest = find_task id ts in if t.task_id == id then some t else rest

-- Σ over the rows, as COALESCE(SUM(...), 0).
unfoldable pub sum : (Task → ℕ) → List Task → ℕ
sum f [] = 0
sum f (t ∷ ts) = f t + sum f ts

unfoldable pub sum_ℤ : (Task → ℤ) → List Task → ℤ
sum_ℤ f [] = pos 0
sum_ℤ f (t ∷ ts) = f t +ℤ sum_ℤ f ts
