-- ===== src/Backend.antt =====
-- frontend/src/api/mock.js: the server that the front end simulates in memory, as a state and its
-- operations. The delays are left out. Instants are numbers; the readings of the clock and the
-- defaults taken from it are arguments. A refusal carries the code that the source throws.
pub mod Time
pub mod Budget
pub mod Release
pub mod Identity
pub mod Notices
pub mod Undo
pub mod Pages
mod Tests
use Prim.Native.String.{String}
use task_manger_project.Common.{
  ℕ, Bool, true, false, not, Option, none, some, List, [], map, leb, filter, any, ℤ, ◌+◌, ◌*◌, ◌&&◌,
  ◌∷◌, ◌++◌, ◌==◌, ◌or◌, if◌then◌else◌,
}

pub data Status : Type 0 where
  pending completed archived : Status

pub data Energy : Type 0 where
  low medium high : Energy

-- `isPriority` that is not there is `false`, which it counts as; a date that is null counts as 0.
pub record Task : Type 0 where
  pub task_id : ℕ
  pub title : String
  pub description : String
  pub estimated_minutes : ℕ
  pub estimated_duration : Option ℕ
  pub deadline : Option ℕ
  pub required_energy : Energy
  pub importance : ℕ
  pub status : Status
  pub delay_count : ℕ
  pub is_priority : Bool
  pub created_at : Option ℕ
  pub category : String

pub data Outcome : Type 0 where
  no_action was_completed was_deleted : Outcome

pub record Notice : Type 0 where
  pub id : ℕ
  pub task_id : ℕ
  pub is_read : Bool
  pub is_dismissed : Bool
  pub action_taken : Outcome
  pub created_at : ℕ

-- The variables of the module; what only the seeds carry (`scheduledTime`, `delayedFrom`) is left out.
pub record Server : Type 0 where
  pub tasks : List Task
  pub notices : List Notice
  pub next_id : ℕ
  pub available : ℤ
  pub refunds : List ℕ

abbrev pub is_pending : Status → Bool
is_pending pending = true
is_pending _ = false

abbrev pub is_archived : Status → Bool
is_archived archived = true
is_archived _ = false

abbrev pub energy_rank : Energy → ℕ
energy_rank low = 1
energy_rank medium = 2
energy_rank high = 3

-- `reduce((a, b) => a + b, 0)`
unfoldable pub sum : List ℕ → ℕ
sum [] = 0
sum (n ∷ ns) = n + sum ns

unfoldable pub est_seconds_of : Task → ℕ
est_seconds_of t = t.estimated_duration or t.estimated_minutes * 60

abbrev pub pending_tasks : List Task → List Task
pending_tasks ts = filter (λ t. is_pending t.status) ts

unfoldable pub allocated_seconds : List Task → ℕ
allocated_seconds ts = sum (map est_seconds_of (pending_tasks ts))

-- A stable sort: an entry goes before the first that comes after it.
unfoldable pub insert_by : (Task → ℕ) → Task → List Task → List Task
insert_by f t [] = t ∷ []
insert_by f t (u ∷ us) = if leb (f t) (f u) then t ∷ u ∷ us else u ∷ insert_by f t us

unfoldable pub sort_by : (Task → ℕ) → List Task → List Task
unfolding insert_by
sort_by f [] = []
sort_by f (t ∷ ts) = insert_by f t (sort_by f ts)

abbrev pub cap_of : Option Energy → ℕ
cap_of none = 3
cap_of (some e) = energy_rank e

unfoldable pub get_tasks : Server → Option Energy → ℕ → List Task
unfolding sort_by
get_tasks s energy minutes =
    sort_by (λ t. t.deadline or 0)
      (filter
        (λ t.
          is_pending t.status
          && leb (energy_rank t.required_energy) (cap_of energy)
          && leb t.estimated_minutes minutes)
        s.tasks)

unfoldable pub get_all_pending : Server → List Task
get_all_pending s = pending_tasks s.tasks

-- What a caller gives for a new task, and for one with a budget.
pub record Input : Type 0 where
  pub title : String
  pub description : Option String
  pub estimated_minutes : Option ℕ
  pub deadline : Option ℕ
  pub required_energy : Option Energy
  pub importance : Option ℕ
  pub category : Option String
  pub is_priority : Bool
  pub estimated_duration : ℕ

-- `later` is `inDays(3)`.
unfoldable pub create_task : Server → Input → ℕ → ℕ → Server × Task
create_task s input now later =
    let created : Task = record {
      task_id = s.next_id + 1;
      title = input.title;
      description = input.description or "";
      estimated_minutes = input.estimated_minutes or 30;
      estimated_duration = none;
      deadline = some (input.deadline or later);
      required_energy = input.required_energy or medium;
      importance = input.importance or 3;
      status = pending;
      delay_count = 0;
      is_priority = false;
      created_at = some now;
      category = input.category or "업무";
    } in
    (record s { tasks = s.tasks ++ created ∷ []; next_id = s.next_id + 1 }, created)

pub data Action : Type 0 where
  starts pauses resumes finishes completes archives restores snoozes : Action

unfoldable pub act : Action → Task → Task
act completes t = record t { status = completed }
act finishes t = record t { status = completed }
act archives t = record t { status = archived }
act restores t = record t { status = pending }
act snoozes t = record t { delay_count = t.delay_count + 1 }
act _ t = t

-- `TASKS.map`, with a change of the tasks of one id.
unfoldable pub change : ℕ → (Task → Task) → List Task → List Task
change id f [] = []
change id f (t ∷ ts) = (if t.task_id == id then f t else t) ∷ change id f ts

unfoldable pub update_task_status : Server → ℕ → Action → Server
update_task_status s id action = record s { tasks = change id (act action) s.tasks }

unfoldable pub get_zombie_tasks : Server → List Task
get_zombie_tasks s = filter (λ t. is_pending t.status && leb 5 t.delay_count) s.tasks

unfoldable pub get_archived_tasks : Server → List Task
get_archived_tasks s = filter (λ t. is_archived t.status) s.tasks

unfoldable pub delete_task : Server → ℕ → Server
delete_task s id = record s { tasks = filter (λ t. not (t.task_id == id)) s.tasks }

unfoldable pub recreate_task : Server → Task → Server
recreate_task s task =
    if not (any (λ t. t.task_id == task.task_id) s.tasks)
    then record s { tasks = s.tasks ++ task ∷ [] }
    else s
