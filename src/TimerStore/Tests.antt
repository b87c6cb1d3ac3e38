-- ===== src/TimerStore/Tests.antt =====
-- TimerContext.jsx and timerStore.js at concrete inputs.
use task_manger_project.Common.{
  refl, true, none, some, List, [], arith, get, put, pos, ◌+◌, ◌-◌, ◌≡◌, ◌∷◌, ◌-ℤ◌,
}
use task_manger_project.Timer.{Timer, Status, running, is_ticking, create_timer, start}
use task_manger_project.TimerStore.{State, Action, initial, reducer, rejected, Page}
use task_manger_project.TimerStore.Exclusive.{run, one_runs}
use task_manger_project.TimerStore.Hidden.{away, page, hidden_counted_twice}
use task_manger_project.TimerStore.Zustand.{
  Call, call, call_all, Store, empty_store, any_ticking, starts, completes, resumes, settles,
}
use task_manger_project.TimerStore.Interval.{ticking_served}

abbrev second : Timer
second = record {
  task_id = 2;
  estimated = 60000;
  remaining = pos 60000;
  elapsed = 0;
  status = running;
  started_at = some 5000;
  paused_at = none;
  last_tick_at = 5000;
}

-- Task 2 starts while task 1 runs.
abbrev two_starts : List Action
two_starts = Action.starts 1 60000 1000 ∷ Action.starts 2 60000 5000 ∷ []

abbrev after_two : State
after_two = record {
  active = some 2;
  timers =
      (
        1,
        record {
          task_id = 1;
          estimated = 60000;
          remaining = pos 56000;
          elapsed = 4000;
          status = Status.paused;
          started_at = some 1000;
          paused_at = some 5000;
          last_tick_at = 5000;
        },
      )
      ∷ (2, second)
      ∷ [];
}

one_runs_example : after_two.active ≡ some 2
unfolding run reducer put get initial task_manger_project.Timer.pause start create_timer ◌-ℤ◌
one_runs_example =
    one_runs two_starts after_two 2 second (omega arith, (omega arith, tt)) refl refl refl

hidden_counted_twice_example :
    (p : Page) × (u : Timer) × (away (page 2 ((2, second) ∷ [])) 10000 (11000 ∷ 40000 ∷ []) 45000
      ≡ some p)
    × (get 2 p.state.timers ≡ some u)
    × (u.elapsed ≡ 0 + (45000 - 5000) + (40000 - 10000))
hidden_counted_twice_example =
    hidden_counted_twice ((2, second) ∷ []) 2 second 10000 11000 (40000 ∷ []) 45000 (omega arith)
      (unfold get in refl) refl (omega arith) (omega arith, (omega arith, tt)) (omega arith)

-- Two tasks are started, and the server refuses the completion of the second.
abbrev calls : List Call
calls =
    starts 1 60000 1000 1000
    ∷ starts 2 60000 5000 5001
    ∷ completes 2 9000
    ∷ resumes 1 9500 9500
    ∷ settles 52 rejected
    ∷ []

abbrev resumed_store : Store
resumed_store = record {
  state = record {
    active = some 1;
    timers =
        (
          1,
          record {
            task_id = 1;
            estimated = 60000;
            remaining = pos 56000;
            elapsed = 4000;
            status = running;
            started_at = some 1000;
            paused_at = none;
            last_tick_at = 9500;
          },
        )
        ∷ (
          2,
          record second {
            elapsed = 3999;
            remaining = pos 56001;
            status = Status.completed;
            started_at = some 5001;
            last_tick_at = 9000;
          },
        )
        ∷ [];
  };
  interval = true;
}

ticking_served_example : resumed_store.interval ≡ true
unfolding call_all any_ticking call get put empty_store task_manger_project.Timer.resume
    task_manger_project.Timer.complete task_manger_project.Timer.pause start create_timer ◌-ℤ◌
ticking_served_example = ticking_served calls resumed_store refl refl
