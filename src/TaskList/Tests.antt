-- ===== src/TaskList/Tests.antt =====
-- useTasks.js at concrete inputs.

use task_manger_project.Common.{false, none, some, [], arith, ◌≡◌, ◌∷◌}
use task_manger_project.Backend.{Task, Input, pending, medium}
use task_manger_project.TaskList.{State, add_begin, add_end, created, not_created}
use task_manger_project.TaskList.Rollback.{add_settles}

abbrev review : Task
review = record {
  task_id = 2;
  title = "review";
  description = "";
  estimated_minutes = 60;
  estimated_duration = none;
  deadline = some 500;
  required_energy = medium;
  importance = 3;
  status = pending;
  delay_count = 0;
  is_priority = false;
  created_at = some 100;
  category = "design";
}

abbrev cleanup : Task
cleanup = record review { task_id = 3; title = "cleanup" }

abbrev list : State
list = record { tasks = review ∷ cleanup ∷ []; is_loading = false; error = none }

abbrev partial : Input
partial = record {
  title = "report";
  description = none;
  estimated_minutes = none;
  deadline = none;
  required_energy = none;
  importance = none;
  category = none;
  is_priority = false;
  estimated_duration = 1800;
}

add_settles_example :
    ((add_end (add_begin list partial 99) 99 (created (record review { task_id = 7 }))).tasks
      ≡ record review { task_id = 7 } ∷ review ∷ cleanup ∷ [])
    × ((add_end (add_begin list partial 99) 99 (not_created none)).tasks ≡ list.tasks)
add_settles_example =
    add_settles list partial 99 (record review { task_id = 7 }) none
      (omega arith, (omega arith, tt))
