-- ===== src/Alarm/Priority.antt =====
-- alarm-system/src/services/priorityTaskService.ts: the one task of the day with priority, and the
-- cache of whether there is one. The cache is what Redis has under the user's key; an entry that
-- runs out after its 300 seconds is an entry that is dropped.
use task_manger_project.Common.{
  ℕ, Bool, true, false, Option, none, some, List, [], find, any, ◌&&◌, ◌∷◌, ◌==◌, if◌then◌else◌,
}
use task_manger_project.Alarm.Errors.{task_not_found}
use task_manger_project.Alarm.Database.{Task, Db}
use task_manger_project.Alarm.Database.Query.{ok, err, Query}
use task_manger_project.Alarm.AvailableTime.{is_open_priority, refuse_second}

unfoldable pub get_active_priority : ℕ → ℕ → Db → Option Task
get_active_priority user date db = find (is_open_priority user date) db.tasks

-- Whether the calls of Redis go through while a request is served.
pub record Redis : Type 0 where
  pub gets : Bool
  pub sets : Bool
  pub dels : Bool

abbrev pub Cache : Type 0
Cache = ℕ → Option Bool

abbrev pub is_some : Option Task → Bool
is_some none = false
is_some (some t) = true

abbrev pub store : ℕ → Option Bool → Cache → Cache
store user entry cache u = if u == user then entry else cache u

-- The answer from the user's entry, or from the database, which is stored; `none` is an exception.
abbrev pub read_through : Redis → ℕ → Option Bool → Bool → Cache → Option Bool × Cache
read_through redis user (some b) exists cache = (some b, cache)
read_through redis user none exists cache =
    if redis.sets then (some exists, store user (some exists) cache) else (none, cache)

unfoldable pub has_priority_task : Redis → ℕ → ℕ → Db → Cache → Option Bool × Cache
unfolding get_active_priority
has_priority_task redis user date db cache =
    if redis.gets
    then read_through redis user (cache user) (is_some (get_active_priority user date db)) cache
    else (none, cache)

-- A DEL that fails is caught, and the entry stays.
unfoldable pub invalidate : Redis → ℕ → Cache → Cache
invalidate redis user cache = if redis.dels then store user none cache else cache

-- For use in a transaction.
unfoldable pub assert_no_active_priority : ℕ → ℕ → Query (Unit {0})
unfolding get_active_priority
assert_no_active_priority user date db = refuse_second (get_active_priority user date db) db

abbrev pub is_own_priority : ℕ → ℕ → Task → Bool
is_own_priority user id t = t.task_id == id && (t.user_id == user && t.is_priority)

-- UPDATE tasks SET is_priority = FALSE WHERE task_id = $1 AND user_id = $2 AND is_priority = TRUE
unfoldable pub demote : ℕ → ℕ → List Task → List Task
demote user id [] = []
demote user id (t ∷ ts) =
    (if is_own_priority user id t then record t { is_priority = false } else t) ∷ demote user id ts

-- The answer of the database is the count of rows, and whether it is 0 is asked.
unfoldable pub release_priority : ℕ → ℕ → Query (Unit {0})
unfolding demote
release_priority user id db =
    if any (is_own_priority user id) db.tasks
    then (ok tt, record db { tasks = demote user id db.tasks })
    else (err task_not_found, db)
