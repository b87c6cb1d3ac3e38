-- ===== src/TaskList.antt =====
-- frontend/src/hooks/useTasks.js: the list of tasks with optimistic changes, each action split where
-- it waits for the server. `rendered` is the list that the callback closed over when the component
-- was last rendered. The delayed fetch after a change of energy or time is left out.
pub mod Rollback
mod Tests
use Prim.Native.String.{String}
use task_manger_project.Common.{
  ℕ, Bool, true, false, not, Option, none, some, List, [], filter, find, any, ◌+◌, ◌∷◌, ◌++◌, ◌==◌,
  ◌or◌, if◌then◌else◌,
}
use task_manger_project.Backend.{Task, Energy, Input, medium, pending, change}
use task_manger_project.TaskStore.{message_or}

pub record State : Type 0 where
  pub tasks : List Task
  pub is_loading : Bool
  pub error : Option String

unfoldable pub initial : State
initial = record { tasks = []; is_loading = true; error = none }

unfoldable pub fetch_begin : State → State
fetch_begin s = record s { error = none }

pub data Fetched : Type 0 where
  got : List Task → Fetched
  failed : Option String → Fetched

unfoldable pub fetch_end : State → Fetched → State
fetch_end s (got tasks) = record s { tasks = tasks; is_loading = false }
fetch_end s (failed message) = record s {
  error = some (message_or message "작업을 불러오지 못했어요.");
  is_loading = false;
}

-- The server's answer to a change.
pub data Answer : Type 0 where
  accepted : Answer
  refused : Option String → Answer

-- `mutate` up to its call, with the snapshot that it keeps.
unfoldable pub mutate_begin : State → List Task → (List Task → List Task) → State × List Task
mutate_begin s rendered optimistic = (record s { tasks = optimistic rendered }, rendered)

unfoldable pub mutate_end : State → List Task → Answer → State
mutate_end s snapshot accepted = s
mutate_end s snapshot (refused message) = record s {
  tasks = snapshot;
  error = some (message_or message "변경에 실패했어요. 다시 시도해 주세요.");
}

abbrev pub without : ℕ → List Task → List Task
without id ts = filter (λ t. not (t.task_id == id)) ts

unfoldable pub complete_task : State → List Task → ℕ → State × List Task
unfolding mutate_begin
complete_task s rendered id = mutate_begin s rendered (without id)

unfoldable pub snooze_task : State → List Task → ℕ → State × List Task
unfolding mutate_begin
snooze_task s rendered id =
    mutate_begin s rendered (change id (λ t. record t { delay_count = t.delay_count + 1 }))

-- The task that `onArchived` is given, so that the caller can offer the undo, and the change.
unfoldable pub archive_task : State → List Task → ℕ → Option Task × (State × List Task)
unfolding mutate_begin
archive_task s rendered id =
    (find (λ t. t.task_id == id) rendered, mutate_begin s rendered (without id))

-- The call of the server that follows is not waited for.
unfoldable pub restore_task : State → Option Task → State
restore_task s none = s
restore_task s (some task) = record s {
  tasks =
      if any (λ t. t.task_id == task.task_id) s.tasks
      then s.tasks
      else s.tasks ++ (record task { status = pending }) ∷ [];
}

-- `tmp` stands for the text made of the time.
unfoldable pub optimistic_task : Input → ℕ → Task
optimistic_task partial tmp = record {
  task_id = tmp;
  title = partial.title;
  description = partial.description or "";
  estimated_minutes = partial.estimated_minutes or 30;
  estimated_duration = none;
  deadline = partial.deadline;
  required_energy = partial.required_energy or medium;
  importance = partial.importance or 3;
  status = pending;
  delay_count = 0;
  is_priority = false;
  created_at = none;
  category = partial.category or "업무";
}

unfoldable pub add_begin : State → Input → ℕ → State
unfolding optimistic_task
add_begin s partial tmp = record s { tasks = optimistic_task partial tmp ∷ s.tasks }

pub data Created : Type 0 where
  created : Task → Created
  not_created : Option String → Created

unfoldable pub add_end : State → ℕ → Created → State
add_end s tmp (created task) = record s { tasks = change tmp (λ _. task) s.tasks }
add_end s tmp (not_created message) = record s {
  tasks = without tmp s.tasks;
  error = some (message_or message "작업 추가에 실패했어요.");
}
