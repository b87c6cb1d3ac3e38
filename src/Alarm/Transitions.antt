-- ===== src/Alarm/Transitions.antt =====
-- alarm-system/src/state/taskTransitions.ts: the state machine of a task.
pub mod Agreement
mod Tests
use Prim.Native.String.{String}
use task_manger_project.Common.{Bool, true, false, Option, none, some, if◌then◌else◌}

pub data DisplayStatus : Type 0 where
  idle active paused overdue completed : DisplayStatus

pub data TimerStatus : Type 0 where
  t_idle t_running t_paused t_overtime t_completed : TimerStatus

pub data Action : Type 0 where
  start pause resume finish : Action

-- The column `status` of a task.
pub data BusinessStatus : Type 0 where
  pending completed_task archived snoozed : BusinessStatus

unfoldable pub derive_display_status : BusinessStatus → TimerStatus → Bool → DisplayStatus
derive_display_status completed_task timer late = completed
derive_display_status business t_completed late = completed
derive_display_status business t_running late = active
derive_display_status business t_overtime late = active
derive_display_status business t_paused late = paused
derive_display_status business t_idle late = if late then overdue else idle

-- `completes` is the business status COMPLETED of an outcome.
pub record Outcome : Type 0 where
  pub timer_status : TimerStatus
  pub completes : Bool

abbrev runs : Option Outcome
runs = some (record { timer_status = t_running; completes = false })

abbrev ends : Option Outcome
ends = some (record { timer_status = t_completed; completes = true })

unfoldable pub table : Action → DisplayStatus → Option Outcome
table start idle = runs
table pause active = some (record { timer_status = t_paused; completes = false })
table resume paused = runs
table resume overdue = runs
table finish active = ends
table finish paused = ends
table finish overdue = ends
table _ _ = none

unfoldable pub message_for : DisplayStatus → Action → String
message_for completed action = "완료된 Task는 다시 시작할 수 없습니다."
message_for idle pause = "시작하지 않은 Task는 일시정지할 수 없습니다."
message_for idle start = "허용되지 않는 상태 전이입니다."
message_for current start = "이미 시작된 Task는 다시 시작할 수 없습니다."
message_for current resume = "이어서 시작할 수 있는 상태가 아닙니다."
message_for current action = "허용되지 않는 상태 전이입니다."

-- The result is valid with an outcome, or not valid with a message.
pub data TransitionResult : Type 0 where
  valid : Outcome → TransitionResult
  invalid : String → TransitionResult

abbrev result_of : Option Outcome → String → TransitionResult
result_of none message = invalid message
result_of (some outcome) message = valid outcome

unfoldable pub transition : DisplayStatus → Action → TransitionResult
unfolding table message_for
transition current action = result_of (table action current) (message_for current action)
