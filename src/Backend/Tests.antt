-- ===== src/Backend/Tests.antt =====
-- mock.js at concrete inputs.

use task_manger_project.Common.{
  ℕ, refl, true, false, none, some, List, [], arith, take, pos, ◌≡◌, ◌∷◌, ◌++◌,
}
use task_manger_project.Backend.{
  Server, Task, Notice, Input, pending, completed, medium, no_action, est_seconds_of, delete_task,
  recreate_task, allocated_seconds, pending_tasks, sum, archives,
}
use task_manger_project.Backend.Budget.{
  Op, budgets_op, updates_op, completes_op, sets_op, IsBudgeted, apply_all, apply_all-IsBudgeted,
}
use task_manger_project.Backend.Notices.{get_notifications, listed, Listing}
use task_manger_project.Backend.Pages.{pages-append}

abbrev review : Task
review = record {
  task_id = 2;
  title = "review";
  description = "";
  estimated_minutes = 60;
  estimated_duration = none;
  deadline = some 500;
  required_energy = medium;
  importance = 3;
  status = pending;
  delay_count = 0;
  is_priority = false;
  created_at = some 100;
  category = "design";
}

abbrev cleanup : Task
cleanup = record review { task_id = 3; title = "cleanup"; estimated_duration = some 900 }

abbrev notice : ℕ → ℕ → Notice
notice id time = record {
  id = id;
  task_id = 2;
  is_read = false;
  is_dismissed = false;
  action_taken = no_action;
  created_at = time;
}

abbrev server : Server
server = record {
  tasks = review ∷ cleanup ∷ [];
  notices = notice 1 100 ∷ notice 2 300 ∷ notice 3 200 ∷ [];
  next_id = 1000;
  available = pos 7200;
  refunds = [];
}

abbrev input : Input
input = record {
  title = "report";
  description = none;
  estimated_minutes = none;
  deadline = none;
  required_energy = none;
  importance = none;
  category = none;
  is_priority = true;
  estimated_duration = 1800;
}

abbrev ops : List Op
ops =
    budgets_op input 600 900
    ∷ updates_op 3 archives
    ∷ budgets_op input 700 900
    ∷ completes_op 2 1200
    ∷ sets_op (pos 3600)
    ∷ []

server-IsBudgeted : IsBudgeted server
unfolding IsBudgeted allocated_seconds sum est_seconds_of
server-IsBudgeted = omega arith

apply_all-IsBudgeted_example : IsBudgeted (apply_all ops server)
apply_all-IsBudgeted_example =
    apply_all-IsBudgeted ops server (tt, (tt, (tt, (tt, (tt, tt))))) server-IsBudgeted

abbrev first_page : Listing
first_page = record {
  notifications = notice 2 300 ∷ notice 3 200 ∷ [];
  unread_count = 3;
  next_cursor = some 200;
}

abbrev second_page : Listing
second_page = record { notifications = notice 1 100 ∷ []; unread_count = 3; next_cursor = none }

pages-append_example :
    first_page.notifications ++ second_page.notifications ≡ take 7 (listed server true)
unfolding get_notifications listed task_manger_project.Backend.Notices.latest_first
    task_manger_project.Backend.Notices.insert_latest task_manger_project.Backend.Notices.last_time
pages-append_example =
    pages-append server true 2 5 200 first_page second_page
      ((omega arith, (omega arith, tt)), ((omega arith, tt), (tt, tt))) refl refl refl
