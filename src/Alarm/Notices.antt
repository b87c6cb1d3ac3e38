-- ===== src/Alarm/Notices.antt =====
-- alarm-system/src: the table of notices, realtime/notificationDispatcher.ts, notifications/queries.ts
-- and the requests of routes/notificationRoutes.ts.
use task_manger_project.Common.{
  ℕ, Bool, true, false, not, Option, some, List, length, filter, ℤ, ◌&&◌, ◌∷◌, ◌==◌, if◌then◌else◌,
}
use task_manger_project.Alarm.Messages.{NotificationType}

pub record Notice : Type 0 where
  pub id : ℕ
  pub task_id : ℕ
  pub user_id : ℕ
  pub type : NotificationType
  pub overdue_days : ℤ
  pub message : List ℕ
  pub service_date : ℕ
  pub is_read : Bool
  pub is_dismissed : Bool
  pub was_deleted : Bool
  pub created_at : ℕ
  pub read_at : Option ℕ
  pub dismissed_at : Option ℕ

-- What is emitted to the room of a user.
pub data Event : Type 0 where
  notification_new : Notice → Event
  unread_count : ℕ → Event

-- The notices, the badges that Redis has, and what was emitted, the latest first.
pub record Live : Type 0 where
  pub notices : List Notice
  pub badge : ℕ → Option ℕ
  pub sent : List (ℕ × Event)

abbrev pub is_unread_of : ℕ → Notice → Bool
is_unread_of user n = n.user_id == user && (not n.is_read && not n.is_dismissed)

unfoldable pub count_unread : ℕ → List Notice → ℕ
count_unread user notices = length (filter (is_unread_of user) notices)

abbrev pub set_badge : ℕ → Option ℕ → (ℕ → Option ℕ) → ℕ → Option ℕ
set_badge user entry badge u = if u == user then entry else badge u

-- What of the calls outside works: the query, the write to Redis, and the emission.
pub record Outside : Type 0 where
  pub counts : Bool
  pub caches : Bool
  pub emits : Bool

-- `emitUnreadCount`, which catches what it throws.
unfoldable pub emit_unread_count : Outside → ℕ → Live → Live
unfolding count_unread
emit_unread_count o user live =
    let count = count_unread user live.notices in
    let cached = record live { badge = set_badge user (some count) live.badge } in
    if o.counts && o.caches
    then if o.emits then record cached { sent = (user, unread_count count) ∷ live.sent } else cached
    else live

-- The flag says that nothing was thrown.
unfoldable pub dispatch : Outside → ℕ → Notice → Live → Bool × Live
unfolding emit_unread_count
dispatch o user n live =
    if o.emits
    then (
      true,
      emit_unread_count o user (record live { sent = (user, notification_new n) ∷ live.sent }),
    )
    else (false, live)
