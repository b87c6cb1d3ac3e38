-- ===== src/Alarm/Scan.antt =====
-- alarm-system/src/queue/overdueNotificationScheduler.ts: the scan of every midnight, which makes a
-- notice of each late task.
pub mod Pages
pub mod Ends
pub mod Once
mod Tests
use task_manger_project.Common.{
  ℕ, zero, suc, Bool, true, false, not, Option, none, some, List, [], ltb, length, take, filter,
  any, ℤ, ◌+◌, ◌&&◌, ◌∷◌, ◌==◌, if◌then◌else◌,
}
use task_manger_project.Alarm.Database.{Task, is_active}
use task_manger_project.Alarm.AvailableTime.{order_by_id}
use task_manger_project.Alarm.Messages.{
  Calendar, BuiltNotification, compute_overdue_days, build_overdue_notification, to_service_date,
}
use task_manger_project.Alarm.Notices.{Notice, Live, Outside, dispatch}

abbrev pub batch_size : ℕ
batch_size = 500

abbrev pub before : ℕ → Option ℕ → Bool
before now none = false
before now (some deadline) = ltb deadline now

-- status NOT IN (...) AND deadline IS NOT NULL AND deadline < $1
abbrev pub is_late : ℕ → Task → Bool
is_late now t = is_active t.status && before now t.deadline

-- ... AND task_id > $2 ORDER BY task_id ASC LIMIT $3
unfoldable pub page : ℕ → ℕ → ℕ → List Task → List Task
unfolding order_by_id
page size now cursor tasks =
    take size (order_by_id (filter (λ t. is_late now t && ltb cursor t.task_id) tasks))

-- What a scan runs with: the calendar and the time zone, its time, whether the SELECT of the page
-- behind a cursor goes through, and for each task whether the upsert goes through and what of the
-- delivery does. `clock` is the database's time.
pub record Run : Type 0 where
  pub calendar : Calendar
  pub time_zone : ℕ
  pub now : ℕ
  pub clock : ℕ
  pub selects : ℕ → Bool
  pub upserts : ℕ → Bool
  pub outside : ℕ → Outside

pub record Scan : Type 0 where
  pub cursor : ℕ
  pub scanned : ℕ
  pub created : ℕ
  pub skipped : ℕ
  pub failed : ℕ
  pub live : Live
  pub threw : Bool

unfoldable pub service_date : Run → ℕ
unfolding to_service_date
service_date run = to_service_date run.calendar run.now (some run.time_zone)

abbrev pub is_of : ℕ → ℕ → Notice → Bool
is_of task date n = n.task_id == task && n.service_date == date

abbrev pub fresh_notice : ℕ → Task → ℤ → BuiltNotification → ℕ → ℕ → Notice
fresh_notice id t days b date clock = record {
  id = id;
  task_id = t.task_id;
  user_id = t.user_id;
  type = b.type;
  overdue_days = days;
  message = b.message;
  service_date = date;
  is_read = false;
  is_dismissed = false;
  was_deleted = false;
  created_at = clock;
  read_at = none;
  dismissed_at = none;
}

-- ON CONFLICT (task_id, service_date) DO UPDATE
unfoldable pub refresh : ℕ → ℕ → ℤ → BuiltNotification → List Notice → List Notice
refresh task date days b [] = []
refresh task date days b (n ∷ ns) =
    (if is_of task date n
      then record n { type = b.type; overdue_days = days; message = b.message }
      else n)
    ∷ refresh task date days b ns

-- A new row is pushed to its user; `created` has counted it before that may fail.
unfoldable pub insert_notice : Run → Task → Notice → Scan → Scan
unfolding dispatch
insert_notice run t n s =
    let live = record s.live { notices = n ∷ s.live.notices } in
    let (delivered, live') = dispatch (run.outside t.task_id) t.user_id n live in
    record s {
      created = s.created + 1;
      failed = if delivered then s.failed else s.failed + 1;
      live = live';
    }

unfoldable pub upsert_notice : Run → Task → ℤ → BuiltNotification → Scan → Scan
unfolding insert_notice refresh service_date
upsert_notice run t days b s =
    let date = service_date run in
    let kept = refresh t.task_id date days b s.live.notices in
    if not (run.upserts t.task_id)
    then record s { failed = s.failed + 1 }
    else if any (is_of t.task_id date) s.live.notices
    then record s { skipped = s.skipped + 1; live = record s.live { notices = kept } }
    else insert_notice run t (fresh_notice (length s.live.notices) t days b date run.clock) s

abbrev pub deadline_of : Option ℕ → ℕ
deadline_of none = 0
deadline_of (some d) = d

abbrev pub upsert_built : Run → Task → ℤ → Option BuiltNotification → Scan → Scan
upsert_built run t days none s = record s { skipped = s.skipped + 1 }
upsert_built run t days (some b) s = upsert_notice run t days b s

abbrev pub days_late : Run → Task → ℤ
days_late run t =
    compute_overdue_days run.calendar (deadline_of t.deadline) run.now (some run.time_zone)

-- The body of the inner loop.
unfoldable pub visit : Run → Scan → Task → Scan
unfolding upsert_notice build_overdue_notification compute_overdue_days
visit run s t =
    upsert_built run t (days_late run t) (build_overdue_notification t.title (days_late run t))
      (record s { cursor = t.task_id; scanned = s.scanned + 1 })

unfoldable pub visit_all : Run → Scan → List Task → Scan
visit_all run s [] = s
visit_all run s (t ∷ ts) = visit_all run (visit run s t) ts

-- The outer loop, with a bound on its rounds; `none` is a scan that has not ended within it. A SELECT
-- that is rejected ends the scan with its exception.
unfoldable pub scan_loop : ℕ → Run → List Task → ℕ → Scan → Option Scan
unfolding page visit_all
scan_loop size run tasks zero s = none
scan_loop size run tasks (suc rounds) s =
    let rows = page size run.now s.cursor tasks in
    let s' = visit_all run s rows in
    let rest = scan_loop size run tasks rounds s' in
    if not (run.selects s.cursor)
    then some (record s { threw = true })
    else if length rows == 0
    then some s
    else if ltb (length rows) size
    then some s'
    else rest

abbrev pub start_scan : Live → Scan
start_scan live = record {
  cursor = 0;
  scanned = 0;
  created = 0;
  skipped = 0;
  failed = 0;
  live = live;
  threw = false;
}

unfoldable pub run_daily_scan : Run → List Task → ℕ → Live → Option Scan
unfolding scan_loop
run_daily_scan run tasks rounds live = scan_loop batch_size run tasks rounds (start_scan live)
