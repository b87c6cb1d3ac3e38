-- ===== src/Alarm/Requests.antt =====
-- alarm-system/src/routes/taskTimeRoutes.ts and priorityRoutes.ts: the requests on tasks, for the user
-- of the token, over the database and the cache; and the deletion of routes/notificationRoutes.ts.
pub mod Atomic
pub mod Open
pub mod Steps
pub mod Estimates
mod Tests
pub mod Single
pub mod Isolated
pub mod Funded
pub mod Told
pub mod Coherent
pub mod Numbered
use task_manger_project.Common.{
  ℕ, Bool, true, false, not, Option, none, some, List, [], length, filter, find, any, map_option, ℤ,
  pos, ◌&&◌, ◌∷◌, ◌==◌, if◌then◌else◌,
}
use task_manger_project.Alarm.Transitions.{Action, archived}
use task_manger_project.Alarm.Errors.{internal, forbidden, validation, task_not_found}
use task_manger_project.Alarm.Database.{Task, Db, is_completed, is_archived, of_day}
use task_manger_project.Alarm.Database.Query.{Result, ok, err, Query}
use task_manger_project.Alarm.AvailableTime.{
  Amount, whole, not_whole, Snapshot, order_by_id, get_availability, reserve_and_create_task,
  complete_task, set_available_time,
}
use task_manger_project.Alarm.TaskStatus.{Receipt, apply_action}
use task_manger_project.Alarm.Priority.{
  Redis, Cache, is_some, get_active_priority, has_priority_task, invalidate, release_priority,
}
use task_manger_project.Alarm.Sanitize.{trim}

pub record World : Type 0 where
  pub db : Db
  pub cache : Cache
  pub redis : Redis

-- A field of a body: `Number` makes NaN of one that is missing, and 0 of null.
pub data Field : Type 0 where
  missing null_value : Field
  number : Amount → Field

abbrev pub to_number : Field → Amount
to_number missing = not_whole
to_number null_value = whole (pos 0)
to_number (number a) = a

-- A handler answers with a value or with the error that `send` puts into a response.
abbrev pub Handler : Type 0 → Type 0
Handler A = World → Result A × World

-- After a call that goes through, the user's entry is dropped if the flag says so. The requests run
-- one after the other: none comes between the commit and the DEL.
abbrev pub then_invalidate : {A : Type 0} → ℕ → Bool → World → Result A × Db → Result A × World
then_invalidate user false w (ok a, db) = (ok a, record w { db = db })
then_invalidate user true w (ok a, db) =
    (ok a, record w { db = db; cache = invalidate w.redis user w.cache })
then_invalidate user drops w (err e, db) = (err e, record w { db = db })

-- POST /tasks; a title that is no text is `none`.
unfoldable pub post_task : ℕ → Option (List ℕ) → Field → Bool → ℕ → ℕ → Handler Task
unfolding trim reserve_and_create_task invalidate
post_task user none duration is_priority date now w = (err (validation "title 은 필수입니다."), w)
post_task user (some title) duration is_priority date now w =
    if length (trim title) == 0
    then (err (validation "title 은 필수입니다."), w)
    else then_invalidate user is_priority w (
        reserve_and_create_task user (trim title) (some (to_number duration)) is_priority date now
          w.db)

-- PATCH /tasks/:id/complete; an id that is no number is `none`.
unfoldable pub patch_complete : ℕ → Option ℕ → Field → ℕ → ℕ → Handler ℕ
unfolding complete_task invalidate
patch_complete user none elapsed completed_at now w = (err (validation "taskId 가 올바르지 않습니다."), w)
patch_complete user (some id) elapsed completed_at now w =
    then_invalidate user true w (complete_task user id (to_number elapsed) completed_at now w.db)

-- `requireSelf` and `assertSelf`: the user that is asked for is the one of the token.
abbrev pub is_self : ℕ → Option ℕ → Bool
is_self user none = false
is_self user (some id) = id == user

-- A query without `userId` asks for the user of the token.
abbrev pub asked_user : ℕ → Option (Option ℕ) → Option ℕ
asked_user user none = some user
asked_user user (some id) = id

unfoldable pub get_available_time : (ℕ → ℕ) → ℕ → Option ℕ → ℕ → Handler Snapshot
unfolding get_availability
get_available_time day_of user id date w =
    if is_self user id then (ok (get_availability day_of user date w.db), w) else (err forbidden, w)

unfoldable pub put_available_time : ℕ → Option ℕ → Field → ℕ → Handler ℕ
unfolding set_available_time
put_available_time user id seconds date w =
    if is_self user id
    then then_invalidate user false w (set_available_time user (to_number seconds) date w.db)
    else (err forbidden, w)

-- PATCH /tasks/:id/status; an action that is none of the four is `none`. `applyAction` invalidates.
unfoldable pub patch_status : ℕ → Option ℕ → Option Action → Option ℤ → ℕ → Handler Receipt
unfolding apply_action invalidate
patch_status user none action elapsed now w = (err (validation "taskId 가 올바르지 않습니다."), w)
patch_status user (some id) none elapsed now w =
    (err (validation "action 은 START|PAUSE|RESUME|FINISH 여야 합니다."), w)
patch_status user (some id) (some action) elapsed now w =
    then_invalidate user true w (apply_action user id action elapsed now w.db)

pub record PriorityAnswer : Type 0 where
  pub has_priority_task : Bool
  pub task : Option Task

abbrev pub priority_answer : Option Bool → Option Task → Result PriorityAnswer
priority_answer none task = err internal
priority_answer (some has) task =
    ok (record { has_priority_task = has; task = if has then task else none })

-- GET /tasks/priority
unfoldable pub get_priority : ℕ → Option (Option ℕ) → ℕ → Handler PriorityAnswer
unfolding has_priority_task get_active_priority
get_priority user asked date w =
    let (has, cache) = has_priority_task w.redis user date w.db w.cache in
    if is_self user (asked_user user asked)
    then (priority_answer has (get_active_priority user date w.db), record w { cache = cache })
    else (err forbidden, w)

pub record TaskList : Type 0 where
  pub tasks : List Task
  pub is_empty : Bool
  pub priority_task_id : Option ℕ

abbrev pub is_open : Task → Bool
is_open t = t.is_priority && not (is_completed t.status)

-- GET /tasks
unfoldable pub get_tasks : ℕ → Option (Option ℕ) → ℕ → Handler TaskList
unfolding order_by_id
get_tasks user asked date w =
    let rows =
      order_by_id (filter (λ t. of_day user date t && not (is_archived t.status)) w.db.tasks) in
    if is_self user (asked_user user asked)
    then (
      ok (record {
        tasks = rows;
        is_empty = length rows == 0;
        priority_task_id = map_option (λ t. t.task_id) (find is_open rows);
      }),
      w,
    )
    else (err forbidden, w)

abbrev pub is_false : Option Bool → Bool
is_false (some false) = true
is_false _ = false

-- PATCH /tasks/:id/priority
unfoldable pub patch_priority : ℕ → Option ℕ → Option Bool → Handler (Unit {0})
unfolding release_priority invalidate
patch_priority user none is_priority w = (err (validation "taskId 가 올바르지 않습니다."), w)
patch_priority user (some id) is_priority w =
    if is_false is_priority
    then then_invalidate user true w (release_priority user id w.db)
    else (err (validation "is_priority 는 false(해제)만 지원합니다."), w)

abbrev pub is_kept : ℕ → ℕ → Task → Bool
is_kept user id t = t.task_id == id && (t.user_id == user && not (is_archived t.status))

-- UPDATE tasks SET status = 'ARCHIVED' WHERE id = $1 AND user_id = $2 AND status <> 'ARCHIVED'
unfoldable pub archive_rows : ℕ → ℕ → List Task → List Task
archive_rows user id [] = []
archive_rows user id (t ∷ ts) =
    (if is_kept user id t then record t { status = archived } else t) ∷ archive_rows user id ts

-- DELETE /tasks/:taskId, as to the tasks. It leaves the cache as it is.
unfoldable pub delete_task : ℕ → Option ℕ → Handler (Unit {0})
unfolding archive_rows
delete_task user none w = (err (validation "taskId 가 올바르지 않습니다."), w)
delete_task user (some id) w =
    if any (is_kept user id) w.db.tasks
    then (ok tt, record w { db = record w.db { tasks = archive_rows user id w.db.tasks } })
    else (err task_not_found, w)

-- The requests that change something.
pub data Op : Type 0 where
  posts : ℕ → Option (List ℕ) → Field → Bool → ℕ → ℕ → Op
  completes : ℕ → Option ℕ → Field → ℕ → ℕ → Op
  puts : ℕ → Option ℕ → Field → ℕ → Op
  acts : ℕ → Option ℕ → Option Action → Option ℤ → ℕ → Op
  asks : ℕ → Option (Option ℕ) → ℕ → Op
  releases : ℕ → Option ℕ → Option Bool → Op
  deletes : ℕ → Option ℕ → Op

unfoldable pub handle : Op → World → World
unfolding post_task patch_complete put_available_time patch_status get_priority patch_priority
    delete_task
handle (posts user title duration is_priority date now) w =
    (post_task user title duration is_priority date now w).1
handle (completes user id elapsed completed_at now) w =
    (patch_complete user id elapsed completed_at now w).1
handle (puts user id seconds date) w = (put_available_time user id seconds date w).1
handle (acts user id action elapsed now) w = (patch_status user id action elapsed now w).1
handle (asks user asked date) w = (get_priority user asked date w).1
handle (releases user id is_priority) w = (patch_priority user id is_priority w).1
handle (deletes user id) w = (delete_task user id w).1

unfoldable pub handle_all : List Op → World → World
unfolding handle
handle_all [] w = w
handle_all (op ∷ ops) w = handle_all ops (handle op w)
