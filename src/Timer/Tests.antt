-- ===== src/Timer/Tests.antt =====
-- timerEngine.js at concrete inputs.
use task_manger_project.Common.{refl, none, some, List, [], pos, ◌≡◌, ◌∷◌, ◌+ℤ◌}
use task_manger_project.Timer.{Timer, running, create_timer, complete, refund_for_completion}
use task_manger_project.Timer.Balance.{
  starts, ticks, pauses, resumes, hides, apply, apply_all, balance, Call,
}
use task_manger_project.Timer.Machine.{◌⟶◌, apply-⟶}

-- A task of one minute: started, paused, resumed, hidden, and run into overtime.
abbrev session : List Call
session =
    starts 1000
    ∷ ticks 2000
    ∷ pauses 31000
    ∷ resumes 90000
    ∷ hides (pos 10000) (some 100000)
    ∷ ticks 130000
    ∷ []

abbrev one_minute : Timer
one_minute = create_timer 1 60000

balance_example :
    pos (apply_all session one_minute).elapsed +ℤ (apply_all session one_minute).remaining
    ≡ pos 60000
balance_example = balance 1 60000 session

abbrev started : Timer
started = record {
  task_id = 1;
  estimated = 60000;
  remaining = pos 60000;
  elapsed = 0;
  status = running;
  started_at = some 1000;
  paused_at = none;
  last_tick_at = 1000;
}

apply-⟶_example : running ⟶ (apply (ticks 64000) started).status
apply-⟶_example = apply-⟶ (ticks 64000) started

forty_eight : refund_for_completion (complete started 13345) ≡ 48
unfolding complete refund_for_completion
forty_eight = refl
