-- ===== src/Alarm/NoticeRequests.antt =====
-- alarm-system/src/routes/notificationRoutes.ts with notifications/queries.ts: the list of notices, the
-- badge, and the requests to read, to dismiss, and to delete the task of a notice.
pub mod Badge
mod Tests
use task_manger_project.Common.{
  ℕ, Bool, true, false, not, Option, none, some, List, [], ltb, leb, length, take, filter, any, ℤ,
  pos, negsuc, ◌&&◌, ◌∷◌, ◌==◌, if◌then◌else◌,
}
use task_manger_project.Alarm.Order.{order_by}
use task_manger_project.Alarm.BadgeCache.{World, Redis, get_or_compute}
use task_manger_project.Alarm.Notices.{
  set_badge, Notice, Live, Outside, count_unread, emit_unread_count,
}

abbrev pub default_limit : ℕ
default_limit = 50

abbrev pub max_limit : ℕ
max_limit = 100

abbrev pub clamped : ℤ → ℕ
clamped (negsuc n) = 1
clamped (pos n) = if n == 0 then default_limit else if ltb max_limit n then max_limit else n

-- `Math.min(Math.max(Number(limit) || DEFAULT_LIMIT, 1), MAX_LIMIT)`; `none` is no number.
unfoldable pub clamp_limit : Option ℤ → ℕ
clamp_limit none = default_limit
clamp_limit (some n) = clamped n

abbrev pub before_cursor : Option ℕ → Notice → Bool
before_cursor none n = true
before_cursor (some c) n = ltb n.created_at c

abbrev pub is_listed : ℕ → Bool → Option ℕ → Notice → Bool
is_listed user unread_only cursor n =
    n.user_id == user
    && not n.is_dismissed
    && not (unread_only && n.is_read)
    && before_cursor cursor n

abbrev pub later : Notice → Notice → Bool
later a b = leb b.created_at a.created_at

-- The query that `buildNotificationsListQuery` writes.
unfoldable pub listed : ℕ → Bool → Option ℕ → ℕ → List Notice → List Notice
unfolding order_by
listed user unread_only cursor limit notices =
    take limit (order_by later (filter (is_listed user unread_only cursor) notices))

abbrev pub last_time : List Notice → Option ℕ
last_time [] = none
last_time (n ∷ []) = some n.created_at
last_time (n ∷ m ∷ ns) = last_time (m ∷ ns)

unfoldable pub next_cursor_of : List Notice → ℕ → Option ℕ
next_cursor_of rows limit = if ltb (length rows) limit then none else last_time rows

pub record Listing : Type 0 where
  pub notifications : List Notice
  pub unread_count : ℕ
  pub next_cursor : Option ℕ

pub data Answer (A : Type 0) : Type 0 where
  sends : A → Answer A
  refuses : ℕ → Answer A

abbrev pub is_self : ℕ → Option (Option ℕ) → Bool
is_self user none = true
is_self user (some none) = false
is_self user (some (some id)) = id == user

-- GET /notifications; the query's user is an option of a number that may be NaN.
unfoldable pub get_notifications :
    ℕ → Option (Option ℕ) → Bool → Option ℕ → Option ℤ → Live → Answer Listing
unfolding clamp_limit listed next_cursor_of count_unread
get_notifications user asked unread_only cursor limit live =
    let lim = clamp_limit limit in
    let rows = listed user unread_only cursor lim live.notices in
    if is_self user asked
    then sends (record {
      notifications = rows;
      unread_count = count_unread user live.notices;
      next_cursor = next_cursor_of rows lim;
    })
    else refuses 403

abbrev pub answered : Option ℕ → Answer ℕ
answered none = refuses 500
answered (some n) = sends n

-- GET /notifications/badge, with the lock of the user's key and what is in Redis meanwhile.
unfoldable pub get_badge : Outside → ℕ → ℕ → World → Option ℕ → Live → Answer ℕ × Live
unfolding get_or_compute count_unread
get_badge o token user w lock live =
    let count = if o.counts then some (count_unread user live.notices) else none in
    let redis : Redis = record { badge = live.badge user; lock = lock } in
    let done = get_or_compute token count w redis in
    (answered done.answer, record live { badge = set_badge user done.redis.badge live.badge })

abbrev pub is_own : ℕ → ℕ → Notice → Bool
is_own id user n = n.id == id && n.user_id == user

abbrev pub first_time : ℕ → Option ℕ → Option ℕ
first_time now none = some now
first_time now (some at) = some at

abbrev pub read_notice : ℕ → Notice → Notice
read_notice now n = record n { is_read = true; read_at = first_time now n.read_at }

abbrev pub dismiss_notice : ℕ → Notice → Notice
dismiss_notice now n = record n { is_dismissed = true; dismissed_at = some now }

-- UPDATE notifications SET ... WHERE p
unfoldable pub update_notices : (Notice → Bool) → (Notice → Notice) → List Notice → List Notice
update_notices p f [] = []
update_notices p f (n ∷ ns) = (if p n then f n else n) ∷ update_notices p f ns

-- An update of the user's own rows; none is 404. The unread count is sent afterwards.
unfoldable pub change_notices :
    Outside → ℕ → (Notice → Bool) → (Notice → Notice) → Live → Answer (Unit {0}) × Live
unfolding update_notices emit_unread_count
change_notices o user p f live =
    if any p live.notices
    then (
      sends tt,
      emit_unread_count o user (record live { notices = update_notices p f live.notices }),
    )
    else (refuses 404, live)

-- POST /notifications/:id/read
unfoldable pub post_read : Outside → ℕ → ℕ → ℕ → Live → Answer (Unit {0}) × Live
unfolding change_notices
post_read o user id now live = change_notices o user (is_own id user) (read_notice now) live

-- POST /notifications/:id/dismiss
unfoldable pub post_dismiss : Outside → ℕ → ℕ → ℕ → Live → Answer (Unit {0}) × Live
unfolding change_notices
post_dismiss o user id now live =
    change_notices o user (λ n. is_own id user n && not n.is_dismissed) (dismiss_notice now) live

abbrev pub is_about : ℕ → ℕ → Notice → Bool
is_about task user n = n.task_id == task && (n.user_id == user && not n.is_dismissed)

-- DELETE /tasks/:taskId, as to the notices, after the task has been archived.
unfoldable pub dismiss_deleted : Outside → ℕ → ℕ → ℕ → Live → Live
unfolding update_notices emit_unread_count
dismiss_deleted o user task now live = emit_unread_count o user (record live {
  notices =
      update_notices (is_about task user)
        (λ n. record (dismiss_notice now n) { was_deleted = true }) live.notices;
})
