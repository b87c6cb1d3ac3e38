-- ===== src/Alarm/TaskStatus.antt =====
-- alarm-system/src/services/taskStatusService.ts: START, PAUSE, RESUME and FINISH of a task.
use task_manger_project.Common.{
  ℕ, Bool, true, false, not, Option, none, some, ltb, ℤ, ◌&&◌, if◌then◌else◌,
}
use task_manger_project.Alarm.Transitions.{
  Action, finish, TimerStatus, t_running, t_completed, BusinessStatus, completed_task, Outcome,
  TransitionResult, valid, invalid, derive_display_status, transition,
}
use task_manger_project.Alarm.Errors.{invalid_transition}
use task_manger_project.Alarm.Database.{Task, is_completed, update_task}
use task_manger_project.Alarm.Database.Query.{Query, pure, throw, with_tx, update, ◌>>=◌, ◌>>◌}
use task_manger_project.Alarm.AvailableTime.{own_task}

pub record Receipt : Type 0 where
  pub task_id : ℕ
  pub action : Action
  pub timer_status : TimerStatus
  pub status : BusinessStatus
  pub was_priority : Bool
  pub priority_slot_released : Bool

abbrev pub passed : Option ℕ → ℕ → Bool
passed none now = false
passed (some deadline) now = ltb deadline now

unfoldable pub is_overdue : Task → ℕ → Bool
is_overdue t now = passed t.deadline now && not (is_completed t.status)

abbrev pub allowed : TransitionResult → Query Outcome
allowed (valid o) = pure o
allowed (invalid message) = throw (invalid_transition message)

-- COALESCE($3, elapsed_time)
abbrev pub coalesce : Option ℤ → Option ℤ → Option ℤ
coalesce none b = b
coalesce (some a) b = some a

abbrev pub finish_row : Option ℤ → ℕ → Task → Task
finish_row elapsed now t = record t {
  status = completed_task;
  timer_status = t_completed;
  completed_at = some now;
  elapsed_time = coalesce elapsed t.elapsed_time;
}

abbrev pub is_running : TimerStatus → Bool
is_running t_running = true
is_running _ = false

abbrev pub timer_row : TimerStatus → ℕ → Task → Task
timer_row timer now t = record t {
  timer_status = timer;
  timer_started_at = if is_running timer then some now else t.timer_started_at;
}

abbrev pub is_finish : Action → Bool
is_finish finish = true
is_finish _ = false

unfoldable pub changed_row : Action → TimerStatus → Option ℤ → ℕ → Task → Task
changed_row action timer elapsed now t =
    if is_finish action then finish_row elapsed now t else timer_row timer now t

-- The transaction of `applyAction`.
unfoldable pub change_status : ℕ → ℕ → Action → Option ℤ → ℕ → Query Receipt
unfolding own_task is_overdue derive_display_status transition changed_row
change_status user id action elapsed now = do
  t ← own_task user id
  o ← allowed (transition (derive_display_status t.status t.timer_status (is_overdue t now)) action)
  update (λ db. record db {
    tasks = update_task id (changed_row action o.timer_status elapsed now) db.tasks;
  })
  pure (record {
    task_id = id;
    action = action;
    timer_status = if is_finish action then t_completed else o.timer_status;
    status = if is_finish action then completed_task else t.status;
    was_priority = t.is_priority;
    priority_slot_released = is_finish action && t.is_priority;
  })

unfoldable pub apply_action : ℕ → ℕ → Action → Option ℤ → ℕ → Query Receipt
unfolding change_status
apply_action user id action elapsed now = with_tx (change_status user id action elapsed now)
