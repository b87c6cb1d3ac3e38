-- ===== src/Alarm/Transitions/Tests.antt =====
-- Runs of taskTransitions.ts on concrete input.
use Prim.Native.String.{String}
use task_manger_project.Common.{refl, true, false, some, ◌≡◌}
use task_manger_project.Tasks.{can_transition, optimistic_status_for}
use task_manger_project.Alarm.Transitions.{
  overdue, t_idle, resume, snoozed, pending, Outcome, valid, invalid, derive_display_status,
  transition,
}
use task_manger_project.Alarm.Transitions.Agreement.{
  client_status, client_action, shown_after, transition-optimistic,
}

late : derive_display_status snoozed t_idle true ≡ overdue
unfolding derive_display_status
late = refl

transition-optimistic_example :
    ((o : Outcome)
      → transition overdue resume ≡ valid o
      → optimistic_status_for (some (client_status overdue)) (client_action resume)
        ≡ some (client_status (shown_after pending o)))
    × ((m : String)
        → transition overdue resume ≡ invalid m
        → can_transition (some (client_status overdue)) (client_action resume) ≡ false)
transition-optimistic_example = transition-optimistic overdue resume pending (λ e. cc)
