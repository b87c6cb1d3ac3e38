-- ===== src/Alarm/Transitions/Agreement.antt =====
-- taskTransitions.ts against the tables of the front end, frontend/src/lib/taskStoreCore.js.
use task_manger_project.Common.{false, some, arith, ◌≡◌, ◌≢◌, if◌then◌else◌}
use task_manger_project.Tasks
use task_manger_project.Tasks.{can_transition, optimistic_status_for}
use task_manger_project.Alarm.Transitions.{
  DisplayStatus, idle, active, paused, overdue, completed, Action, start, pause, resume, finish,
  BusinessStatus, completed_task, Outcome, valid, invalid, transition, derive_display_status,
}

abbrev pub client_status : DisplayStatus → Tasks.Status
client_status idle = Tasks.idle
client_status active = Tasks.active
client_status paused = Tasks.paused
client_status overdue = Tasks.overdue
client_status completed = Tasks.completed

abbrev pub client_action : Action → Tasks.Action
client_action start = Tasks.start
client_action pause = Tasks.pause
client_action resume = Tasks.resume
client_action finish = Tasks.finish

-- What the server shows of a task after an outcome.
abbrev pub shown_after : BusinessStatus → Outcome → DisplayStatus
shown_after b o =
    derive_display_status (if o.completes then completed_task else b) o.timer_status false

-- The server allows an action in a status exactly if the front end does; and then, for a task that is
-- not completed, the status that the server shows from then on is the one that the front end
-- has already shown.
pub transition-optimistic :
    (s : DisplayStatus) (a : Action) (b : BusinessStatus)
    → b ≢ completed_task
    → ((o : Outcome)
        → transition s a ≡ valid o
        → optimistic_status_for (some (client_status s)) (client_action a)
          ≡ some (client_status (shown_after b o)))
      × ((m : _)
          → transition s a ≡ invalid m
          → can_transition (some (client_status s)) (client_action a) ≡ false)
unfolding transition optimistic_status_for can_transition derive_display_status
transition-optimistic s a b h = (λ o e. ground arith, λ m e. ground arith)
