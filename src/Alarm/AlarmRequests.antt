-- ===== src/Alarm/AlarmRequests.antt =====
-- alarm-system/src/routes/alarmRoutes.ts: today's tasks in the order of their urgency, the panel of the
-- alarms, and the request that marks them as read.
pub mod Today
use task_manger_project.Common.{
  ℕ, Bool, true, false, not, Option, none, some, List, [], ltb, leb, length, filter, ◌+◌, ◌&&◌, ◌∷◌,
  ◌==◌, ◌or◌, if◌then◌else◌,
}
use task_manger_project.Alarm.Transitions.{BusinessStatus, pending}
use task_manger_project.Alarm.Database.{Task}
use task_manger_project.Alarm.Order.{order_by}
use task_manger_project.Alarm.Sockets.{Alarm, Service, is_unread, emit_unread_count}

abbrev pub day_ms : ℕ
day_ms = 86_400_000

abbrev pub is_waiting : BusinessStatus → Bool
is_waiting pending = true
is_waiting _ = false

-- is_deferred = TRUE AND deferred_count > 0
abbrev pub is_put_off : Task → Bool
is_put_off t = t.is_deferred && ltb 0 t.deferred_count

-- deadline >= NOW() AND deadline <= NOW() + INTERVAL '24 hours'
abbrev pub within_day : ℕ → Option ℕ → Bool
within_day now none = false
within_day now (some d) = leb now d && leb d (now + day_ms)

abbrev pub is_soon : ℕ → Task → Bool
is_soon now t = within_day now t.deadline

abbrev pub rank : ℕ → Task → ℕ
rank now t = if is_put_off t then 1 else if is_soon now t then 2 else 3

-- CASE WHEN ... THEN deferred_count END DESC; both rows have the same rank here, and NULL none.
abbrev pub put_off_key : Task → ℕ
put_off_key t = if is_put_off t then t.deferred_count else 0

-- CASE WHEN ... THEN deadline END ASC, where NULL comes last.
abbrev pub soon_key : ℕ → Task → Option ℕ
soon_key now t = if is_soon now t then t.deadline else none

abbrev pub less_key : Option ℕ → Option ℕ → Bool
less_key none b = false
less_key (some a) none = true
less_key (some a) (some b) = ltb a b

-- The comparison of two rows by a rank, a key that descends, one that ascends, and a time.
unfoldable pub by_keys : ℕ → ℕ → ℕ → ℕ → Option ℕ → Option ℕ → ℕ → ℕ → Bool
by_keys ra rb ka kb sa sb ca cb =
    if not (ra == rb)
    then ltb ra rb
    else if not (ka == kb)
    then ltb kb ka
    else if less_key sa sb
    then true
    else if less_key sb sa
    then false
    else leb cb ca

-- ORDER BY the rank, then the two keys, then created_at DESC.
unfoldable pub goes_before : ℕ → Task → Task → Bool
unfolding by_keys
goes_before now a b =
    by_keys (rank now a) (rank now b) (put_off_key a) (put_off_key b) (soon_key now a)
      (soon_key now b) a.created_at b.created_at

-- GET /tasks/today
unfoldable pub get_today : ℕ → ℕ → List Task → List Task
unfolding order_by goes_before
get_today user now tasks =
    order_by (goes_before now) (filter (λ t. t.user_id == user && is_waiting t.status) tasks)

abbrev pub read_alarm : ℕ → Alarm → Alarm
read_alarm now a = record a { read_at = some now }

-- UPDATE alarms SET read_at = NOW() WHERE user_id = $1 AND read_at IS NULL
unfoldable pub read_all : ℕ → ℕ → List Alarm → List Alarm
read_all user now [] = []
read_all user now (a ∷ xs) =
    (if is_unread user a then read_alarm now a else a) ∷ read_all user now xs

-- PATCH /alarms/mark-read
unfoldable pub mark_read : Bool → ℕ → ℕ → Service → Service
unfolding read_all emit_unread_count
mark_read counts user now s =
    emit_unread_count counts user (record s { alarms = read_all user now s.alarms })

abbrev pub max_time : ℕ → ℕ → ℕ
max_time a b = if leb a b then b else a

-- COALESCE(MAX(a.triggered_at), t.created_at) over the alarms of the task
unfoldable pub last_trigger : ℕ → List Alarm → Option ℕ
last_trigger task [] = none
last_trigger task (a ∷ xs) =
    let rest = last_trigger task xs in
    if a.task_id == task then some (max_time a.triggered_at (rest or 0)) else rest

abbrev pub triggered_of : List Alarm → Task → ℕ
triggered_of alarms t = last_trigger t.task_id alarms or t.created_at

-- ORDER BY t.deferred_count DESC, triggered_at DESC
abbrev pub more_deferred : List Alarm → Task → Task → Bool
more_deferred alarms a b =
    if a.deferred_count == b.deferred_count
    then leb (triggered_of alarms b) (triggered_of alarms a)
    else ltb b.deferred_count a.deferred_count

pub record History : Type 0 where
  pub section_a : List Task
  pub section_b : List Alarm
  pub unread_count : ℕ

-- GET /alarms
unfoldable pub get_history : ℕ → List Task → List Alarm → History
unfolding order_by last_trigger
get_history user tasks alarms = record {
  section_a =
      order_by (more_deferred alarms)
        (filter (λ t. t.user_id == user && (t.is_deferred && is_waiting t.status)) tasks);
  section_b =
      order_by (λ a b. leb b.triggered_at a.triggered_at)
        (filter (λ a. a.user_id == user && not a.is_deferred) alarms);
  unread_count = length (filter (is_unread user) alarms);
}
