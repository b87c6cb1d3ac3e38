-- ===== src/Tasks.antt =====
-- frontend/src/lib/taskStoreCore.js and lib/displayStatus.js: the display status of a task, the
-- transitions that its buttons ask for, and the pure operations on the list of tasks. An id is a
-- number that stands for its text; 0 stands for the text "undefined".
pub mod Buttons
pub mod Normalize
pub mod Mutators
use Prim.Native.String.{String}
use task_manger_project.Common.{
  ℕ, Bool, true, false, not, Option, none, some, List, [], map, length, filter, find, any,
  map_option, ◌*◌, ◌&&◌, ◌∷◌, ◌==◌, ◌or◌, if◌then◌else◌,
}
use task_manger_project.Dday.{is_overdue, overdue_days_from_dday}

-- STATUS and DISPLAY_STATUS, which have the same members.
pub data Status : Type 0 where
  idle active paused overdue completed : Status

pub data Action : Type 0 where
  start pause resume finish : Action

pub data CreateResult : Type 0 where
  success priority_exists insufficient_time : CreateResult

abbrev pub same_status : Status → Status → Bool
same_status idle idle = true
same_status active active = true
same_status paused paused = true
same_status overdue overdue = true
same_status completed completed = true
same_status _ _ = false

unfoldable pub allowed : Action → List Status
allowed start = idle ∷ []
allowed pause = active ∷ []
allowed resume = paused ∷ overdue ∷ []
allowed finish = active ∷ paused ∷ overdue ∷ []

unfoldable pub action_result : Action → Status
action_result start = active
action_result pause = paused
action_result resume = active
action_result finish = completed

-- `current` is null for a task that is not there.
unfoldable pub can_transition : Option Status → Action → Bool
unfolding allowed
can_transition none action = false
can_transition (some current) action = any (same_status current) (allowed action)

unfoldable pub optimistic_status_for : Option Status → Action → Option Status
unfolding can_transition action_result
optimistic_status_for current action =
    if can_transition current action then some (action_result action) else none

-- The status that a raw task may carry: a display status, which includes COMPLETED, or a business
-- status, or a text that is neither (the names of an object's own methods are left out).
pub data RawStatus : Type 0 where
  display : Status → RawStatus
  pending snoozed archived other : RawStatus

-- Any of the shapes that a task comes in; `none` is null or undefined.
pub record Raw : Type 0 where
  pub id : Option ℕ
  pub task_id : Option ℕ
  pub title : Option String
  pub category : Option String
  pub tag_labels : List String
  pub status : Option RawStatus
  pub dday : Option (List ℕ)
  pub is_priority : Option Bool
  pub is_priority_camel : Option Bool
  pub estimated_duration : Option ℕ
  pub estimated_minutes : Option ℕ
  pub elapsed_time : Option ℕ
  pub due_date : Option String
  pub deadline : Option String
  pub overdue_days : Option ℕ
  pub created_at : Option String
  pub created_at_camel : Option String

pub record Task : Type 0 where
  pub id : ℕ
  pub title : String
  pub category : String
  pub status : Status
  pub is_priority : Bool
  pub estimated_duration : ℕ
  pub elapsed_time : ℕ
  pub due_date : Option String
  pub overdue_days : ℕ
  pub created_at : Option String

abbrev pub undefined_id : ℕ
undefined_id = 0

unfoldable pub normalize_status : Option RawStatus → Option (List ℕ) → Status
normalize_status (some (display s)) dday = s
normalize_status _ dday = if is_overdue dday then overdue else idle

-- `a ?? b` where `b` may be null too.
abbrev pub or_else {ℓ} : {A : Type ℓ} → Option A → Option A → Option A
or_else none b = b
or_else (some a) b = some a

abbrev pub first_label : List String → Option String
first_label [] = none
first_label (l ∷ ls) = some l

unfoldable pub normalize_task : Raw → Task
unfolding normalize_status
normalize_task raw = record {
  id = or_else raw.id raw.task_id or undefined_id;
  title = raw.title or "";
  category = or_else raw.category (first_label raw.tag_labels) or "";
  status = normalize_status raw.status raw.dday;
  is_priority = or_else raw.is_priority raw.is_priority_camel or false;
  estimated_duration =
      or_else raw.estimated_duration (map_option (λ m. m * 60) raw.estimated_minutes) or 0;
  elapsed_time = raw.elapsed_time or 0;
  due_date = or_else raw.due_date raw.deadline;
  overdue_days = raw.overdue_days or overdue_days_from_dday raw.dday;
  created_at = or_else raw.created_at raw.created_at_camel;
}

-- `none` is a value that is no array.
unfoldable pub normalize_list : Option (List Raw) → List Task
unfolding normalize_task
normalize_list none = []
normalize_list (some raws) = map normalize_task raws

unfoldable pub derive_is_empty : List Task → Bool → Bool
derive_is_empty tasks is_loading = not is_loading && length tasks == 0

abbrev pub is_open_priority : Task → Bool
is_open_priority t = t.is_priority && not (same_status t.status completed)

unfoldable pub derive_has_priority_task : List Task → Bool
derive_has_priority_task tasks = any is_open_priority tasks

unfoldable pub derive_priority_task : List Task → Option Task
derive_priority_task tasks = find is_open_priority tasks

unfoldable pub get_status : List Task → ℕ → Option Status
get_status tasks task_id = map_option (λ t. t.status) (find (λ x. x.id == task_id) tasks)

unfoldable pub apply_optimistic_status : List Task → ℕ → Status → List Task
apply_optimistic_status [] task_id new_status = []
apply_optimistic_status (t ∷ ts) task_id new_status =
    (if t.id == task_id then record t { status = new_status } else t)
    ∷ apply_optimistic_status ts task_id new_status

unfoldable pub apply_rollback_status : List Task → ℕ → Status → List Task
unfolding apply_optimistic_status
apply_rollback_status tasks task_id previous = apply_optimistic_status tasks task_id previous

unfoldable pub upsert_task : List Task → Task → List Task
upsert_task tasks task =
    if any (λ t. t.id == task.id) tasks
    then map (λ t. if t.id == task.id then task else t) tasks
    else task ∷ tasks

unfoldable pub remove_task : List Task → ℕ → List Task
remove_task tasks task_id = filter (λ t. not (t.id == task_id)) tasks

-- The codes that the server or the client names an error by.
pub data ErrorCode : Type 0 where
  priority_task_exists priority_exists_code : ErrorCode
  insufficient_available_time insufficient_time_code available_below_allocated : ErrorCode
  other_code : ErrorCode

-- `err.code`, then the body's `error` and `code`; the status of the error or of its response.
pub record CreateError : Type 0 where
  pub code : Option ErrorCode
  pub body_error : Option ErrorCode
  pub body_code : Option ErrorCode
  pub status : Option ℕ
  pub response_status : Option ℕ

abbrev pub is_conflict : Option ℕ → Bool
is_conflict none = false
is_conflict (some n) = n == 409

unfoldable pub classify : Option ErrorCode → Bool → Option CreateResult
classify (some priority_task_exists) conflict = some priority_exists
classify (some priority_exists_code) conflict = some priority_exists
classify (some insufficient_available_time) conflict =
    if conflict then some priority_exists else some insufficient_time
classify (some insufficient_time_code) conflict =
    if conflict then some priority_exists else some insufficient_time
classify (some available_below_allocated) conflict =
    if conflict then some priority_exists else some insufficient_time
classify _ conflict = if conflict then some priority_exists else none

unfoldable pub classify_create_error : CreateError → Option CreateResult
unfolding classify
classify_create_error e =
    classify (or_else e.code (or_else e.body_error e.body_code))
      (is_conflict (or_else e.status e.response_status))

-- The buttons of a card.
pub data Button : Type 0 where
  start_button pause_button resume_button finish_button : Button

-- The run status that the timer gives.
pub data RunStatus : Type 0 where
  run_idle run_running run_paused run_overtime run_completed : RunStatus

unfoldable pub derive_display_status : Option RawStatus → Option (List ℕ) → RunStatus → Status
derive_display_status (some (display completed)) dday run = completed
derive_display_status _ dday run_running = active
derive_display_status _ dday run_overtime = active
derive_display_status _ dday run_paused = paused
derive_display_status _ dday _ = if is_overdue dday then overdue else idle

unfoldable pub task_action_button_set : Status → List Button
task_action_button_set completed = []
task_action_button_set active = pause_button ∷ finish_button ∷ []
task_action_button_set paused = resume_button ∷ finish_button ∷ []
task_action_button_set overdue = resume_button ∷ finish_button ∷ []
task_action_button_set idle = start_button ∷ []
