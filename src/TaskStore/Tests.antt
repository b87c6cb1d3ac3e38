-- ===== src/TaskStore/Tests.antt =====
-- TaskContext.jsx at concrete inputs.

use task_manger_project.TaskStore.Zustand
use task_manger_project.TaskStore.Zustand.{
  optimistic_update_status, rollback_status, sync, select_is_empty, select_has_priority_task,
  select_priority_task, fetch_start, fetch_done, create_done, update_start, update_done,
  store-provider,
}
use task_manger_project.Common.{
  refl, true, false, none, some, List, [], arith, filter, ◌≡◌, ◌∷◌, ◌==◌,
}
use task_manger_project.Tasks.{
  Task, active, paused, idle, completed, start, pause, finish, get_status, optimistic_status_for,
  CreateError,
}
use task_manger_project.TaskStore.{
  reducer, optimistic, rollback, clear_error, sync_tasks, is_empty, has_priority_task,
  priority_task, State, Update, accepted, rejected, update_begin, update_end, fetch_begin,
  fetch_end, failed, create_end, refused,
}
use task_manger_project.TaskStore.Updates.{refused_restores, stale_rollback}
use task_manger_project.TaskStore.Schedule.{
  System, Step, click, answer, run, cell_run, view, view-run, task_of,
}

abbrev report : Task
report = record {
  id = 1;
  title = "report";
  category = "work";
  status = active;
  is_priority = true;
  estimated_duration = 5400;
  elapsed_time = 0;
  due_date = none;
  overdue_days = 0;
  created_at = none;
}

abbrev review : Task
review = record report { id = 2; title = "review"; status = idle; is_priority = false }

abbrev store : State
store = record { tasks = report ∷ review ∷ []; is_loading = false; error = none }

abbrev paused_store : State
paused_store = record store { tasks = record report { status = paused } ∷ review ∷ [] }

abbrev pause_update : Update
pause_update = record { task_id = 1; previous = active; hoped = paused }

refused_restores_example :
    (some paused ≡ some paused)
    × ((update_end paused_store pause_update rejected).state.tasks ≡ store.tasks)
    × (some (update_end paused_store pause_update rejected).returned ≡ some active)
    × ((update_end paused_store pause_update rejected).on_error ≡ true)
    × ((update_end paused_store pause_update rejected).events ≡ [])
unfolding update_begin get_status optimistic_status_for
refused_restores_example =
    refused_restores store paused_store 1 pause pause_update ((omega arith, tt), (tt, tt)) refl

-- An error without a code, as of a network that is down.
abbrev no_answer : CreateError
no_answer = record {
  code = none;
  body_error = none;
  body_code = none;
  status = none;
  response_status = none;
}

abbrev finished_store : State
finished_store = record store { tasks = record report { status = completed } ∷ review ∷ [] }

abbrev finish_update : Update
finish_update = record { task_id = 1; previous = paused; hoped = completed }

-- Paused and finished at once; the server accepts the finish and then refuses the pause.
stale_rollback_example :
    (get_status (update_end finished_store finish_update (accepted none)).state.tasks 1
      ≡ some completed)
    × (get_status
          (update_end
            (update_end finished_store finish_update (accepted none)).state
            pause_update
            rejected).state.tasks
          1
        ≡ some active)
unfolding update_begin get_status optimistic_status_for
stale_rollback_example =
    stale_rollback store paused_store finished_store 1 pause finish pause_update finish_update none
      refl refl

abbrev steps : List Step
steps =
    click 1 pause
    ∷ click 2 start
    ∷ click 1 start
    ∷ answer 1 1 (accepted none)
    ∷ answer 2 0 rejected
    ∷ answer 1 0 (accepted none)
    ∷ []

abbrev system : System
system = record { store = store; waiting = [] }

view-run_example :
    view 1 (run steps system) ≡ cell_run (filter (λ x. task_of x == 1) steps) (view 1 system)
view-run_example = view-run 1 steps system

store-provider_example :
    let c = refused no_answer none in
    (fetch_start store ≡ fetch_begin store)
    × (fetch_done store (failed none) ≡ fetch_end store (failed none))
    × (create_done store c ≡ ((create_end store c).state, (create_end store c).outcome))
    × (update_start store 1 pause ≡ update_begin store 1 pause)
    × ((update_done store pause_update rejected).state
        ≡ (update_end store pause_update rejected).state)
    × ((update_done store pause_update rejected).returned
        ≡ (update_end store pause_update rejected).returned)
    × ((update_done store pause_update rejected).on_error
        ≡ (update_end store pause_update rejected).on_error)
    × (optimistic_update_status store 1 paused ≡ reducer store (optimistic 1 paused))
    × (rollback_status store 1 paused ≡ reducer store (rollback 1 paused))
    × (sync store none ≡ sync_tasks store none)
    × (Zustand.clear_error store ≡ reducer store clear_error)
    × (select_is_empty store ≡ is_empty store)
    × (select_has_priority_task store ≡ has_priority_task store)
    × (select_priority_task store ≡ priority_task store)
store-provider_example =
    store-provider store 1 pause paused pause_update (failed none) (refused no_answer none) rejected
      none refl
