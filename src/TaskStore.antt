-- ===== src/TaskStore.antt =====
-- frontend/src/context/TaskContext.jsx: the reducer over the list of tasks, and the asynchronous
-- actions, each split where it waits for the server. TaskStore/Zustand has stores/taskStore.js.
pub mod Updates
pub mod Schedule
pub mod Zustand
mod Tests
use Prim.Native.String.{String}
use task_manger_project.Common.{ℕ, Bool, true, false, Option, none, some, List, [], ◌∷◌}
use task_manger_project.Tasks.{
  Task, Raw, RawStatus, display, Status, Action, CreateResult, success, CreateError, normalize_task,
  normalize_list, classify_create_error, get_status, optimistic_status_for, apply_optimistic_status,
  apply_rollback_status, upsert_task, derive_is_empty, derive_has_priority_task,
  derive_priority_task,
}

pub record State : Type 0 where
  pub tasks : List Task
  pub is_loading : Bool
  pub error : Option String

unfoldable pub initial : State
initial = record { tasks = []; is_loading = true; error = none }

pub data Dispatch : Type 0 where
  loading clear_error : Dispatch
  set_tasks : Option (List Raw) → Dispatch
  fails : String → Dispatch
  upsert : Task → Dispatch
  optimistic rollback : ℕ → Status → Dispatch

unfoldable pub reducer : State → Dispatch → State
unfolding apply_rollback_status
reducer s loading = record s { is_loading = true; error = none }
reducer s (set_tasks raw) = record s { tasks = normalize_list raw; is_loading = false }
reducer s (fails message) = record s { is_loading = false; error = some message }
reducer s (upsert task) = record s { tasks = upsert_task s.tasks task }
reducer s (optimistic id status) = record s { tasks = apply_optimistic_status s.tasks id status }
reducer s (rollback id previous) = record s { tasks = apply_rollback_status s.tasks id previous }
reducer s clear_error = record s { error = none }

-- `message || fallback`
abbrev pub message_or : Option String → String → String
message_or none fallback = fallback
message_or (some String.[]) fallback = fallback
message_or (some (String.◌∷◌ c s)) fallback = String.◌∷◌ c s

-- What listeners are told, and with them the other tabs.
pub data Event : Type 0 where
  task_created : Task → Event
  task_status_changed : ℕ → Status → Event

-- `fetchTasks`: before the answer, and with the list or the error's message that it brings.
unfoldable pub fetch_begin : State → State
unfolding reducer
fetch_begin s = reducer s loading

pub data Fetched : Type 0 where
  got : Option (List Raw) → Fetched
  failed : Option String → Fetched

unfoldable pub fetch_end : State → Fetched → State
unfolding reducer
fetch_end s (got raw) = reducer s (set_tasks raw)
fetch_end s (failed message) = reducer s (fails (message_or message "작업을 불러오지 못했어요."))

-- `syncTasks`
unfoldable pub sync_tasks : State → Option (List Raw) → State
unfolding reducer
sync_tasks s raw = reducer s (set_tasks raw)

-- How `createTask` ends: with a result code, or by throwing the server's error on.
pub data Created : Type 0 where
  result : CreateResult → Created
  thrown : Created

pub data CreateAnswer : Type 0 where
  created : Raw → CreateAnswer
  refused : CreateError → Option String → CreateAnswer

pub record CreateEnd : Type 0 where
  pub state : State
  pub outcome : Created
  pub events : List Event

unfoldable pub refuse : State → Option CreateResult → Option String → CreateEnd
unfolding reducer
refuse s (some r) message = record { state = s; outcome = result r; events = [] }
refuse s none message = record {
  state = reducer s (fails (message_or message "작업 추가에 실패했어요."));
  outcome = thrown;
  events = [];
}

unfoldable pub create_end : State → CreateAnswer → CreateEnd
unfolding reducer refuse
create_end s (created raw) = record {
  state = reducer s (upsert (normalize_task raw));
  outcome = result success;
  events = task_created (normalize_task raw) ∷ [];
}
create_end s (refused e message) = refuse s (classify_create_error e) message

-- An update of a status that waits for the server.
pub record Update : Type 0 where
  pub task_id : ℕ
  pub previous : Status
  pub hoped : Status

unfoldable pub begin_with : State → ℕ → Option Status → Option Status → State × Option Update
unfolding reducer
begin_with s id (some prev) (some hoped) = (
  reducer s (optimistic id hoped),
  some (record { task_id = id; previous = prev; hoped = hoped }),
)
begin_with s id _ _ = (s, none)

-- `updateTaskStatus` up to its request; without an update, it returns at once.
unfoldable pub update_begin : State → ℕ → Action → State × Option Update
unfolding begin_with
update_begin s id action =
    let prev = get_status s.tasks id in begin_with s id prev (optimistic_status_for prev action)

-- The server's answer: a status, if it names one of STATUS, or a refusal.
pub data Answer : Type 0 where
  accepted : Option RawStatus → Answer
  rejected : Answer

abbrev pub final_status : Option RawStatus → Status → Status
final_status (some (display s)) hoped = s
final_status _ hoped = hoped

-- The state, the status that the call returns, the events, and whether `onError` is called.
pub record UpdateEnd : Type 0 where
  pub state : State
  pub returned : Status
  pub events : List Event
  pub on_error : Bool

unfoldable pub update_end : State → Update → Answer → UpdateEnd
unfolding reducer
update_end s u (accepted answer) =
    let next = final_status answer u.hoped in
    record {
      state = reducer s (optimistic u.task_id next);
      returned = next;
      events = task_status_changed u.task_id next ∷ [];
      on_error = false;
    }
update_end s u rejected = record {
  state = reducer (reducer s (rollback u.task_id u.previous)) (fails "상태 변경에 실패했습니다.");
  returned = u.previous;
  events = [];
  on_error = true;
}

-- The derived values that components read.
unfoldable pub is_empty : State → Bool
unfolding derive_is_empty
is_empty s = derive_is_empty s.tasks s.is_loading

unfoldable pub has_priority_task : State → Bool
unfolding derive_has_priority_task
has_priority_task s = derive_has_priority_task s.tasks

unfoldable pub priority_task : State → Option Task
unfolding derive_priority_task
priority_task s = derive_priority_task s.tasks
