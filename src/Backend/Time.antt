-- ===== src/Backend/Time.antt =====
-- mock.js: the operations on the available time, and those that ask for it.

use task_manger_project.Common.{
  ℕ, Bool, Option, none, some, [], ltb, leb, find, any, ℤ, pos, ltb_ℤ, ◌+◌, ◌-◌, ◌/◌, ◌&&◌, ◌||◌,
  ◌∷◌, ◌++◌, ◌==◌, ◌or◌, if◌then◌else◌, ◌-ℤ◌,
}
use task_manger_project.Backend.{
  Server, Task, Input, pending, completed, medium, is_pending, sum, est_seconds_of,
  allocated_seconds, change,
}

-- The answer to the question about the available time.
pub record TimeReport : Type 0 where
  pub total_available : ℤ
  pub allocated : ℕ
  pub refunded : ℕ
  pub remaining : ℤ
  pub can_create_task : Bool

unfoldable pub get_available_time : Server → TimeReport
get_available_time s =
    let rest = s.available -ℤ pos (allocated_seconds s.tasks) in
    record {
      total_available = s.available;
      allocated = allocated_seconds s.tasks;
      refunded = sum s.refunds;
      remaining = rest;
      can_create_task = ltb_ℤ (pos 0) rest;
    }

pub data Reply {ℓ} (A : Type ℓ) : Type ℓ where
  done : A → Reply A
  insufficient_available_time priority_exists available_below_allocated : Reply A

abbrev pub is_open_priority : Task → Bool
is_open_priority t = (t.is_priority || leb 5 t.importance) && is_pending t.status

-- `Math.round(dur / 60)`
unfoldable pub budgeted : Server → Input → ℕ → ℕ → Task
budgeted s input now later = record {
  task_id = s.next_id + 1;
  title = input.title;
  description = input.description or "";
  estimated_minutes = (input.estimated_duration + 30) / 60;
  estimated_duration = some input.estimated_duration;
  deadline = some (input.deadline or later);
  required_energy = input.required_energy or medium;
  importance = input.importance or 3;
  status = pending;
  delay_count = 0;
  is_priority = input.is_priority;
  created_at = some now;
  category = input.category or "업무";
}

-- For a duration that is a whole number and not negative. With one that is missing or no number the
-- source compares NaN, which refuses nothing; this and a negative one are left out.
unfoldable pub create_task_with_budget : Server → Input → ℕ → ℕ → Reply Server
create_task_with_budget s input now later =
    let remaining = s.available -ℤ pos (allocated_seconds s.tasks) in
    if ltb_ℤ remaining (pos input.estimated_duration)
    then insufficient_available_time
    else if input.is_priority && any is_open_priority s.tasks
    then priority_exists
    else done (record s { tasks = budgeted s input now later ∷ s.tasks; next_id = s.next_id + 1 })

abbrev pub estimate_of : Option Task → ℕ
estimate_of none = 0
estimate_of (some t) = est_seconds_of t

-- The server and the refund.
unfoldable pub complete_task_with_refund : Server → ℕ → ℕ → Server × ℕ
complete_task_with_refund s id elapsed =
    let refund = estimate_of (find (λ t. t.task_id == id) s.tasks) - elapsed in
    (
      record s {
        refunds = if ltb 0 refund then s.refunds ++ refund ∷ [] else s.refunds;
        tasks = change id (λ t. record t { status = completed }) s.tasks;
      },
      refund,
    )

unfoldable pub set_available_time : Server → ℤ → Reply Server
set_available_time s seconds =
    if ltb_ℤ seconds (pos (allocated_seconds s.tasks))
    then available_below_allocated
    else done (record s { available = seconds })
