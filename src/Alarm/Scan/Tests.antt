-- ===== src/Alarm/Scan/Tests.antt =====
-- Runs of overdueNotificationScheduler.ts on concrete input.
use task_manger_project.Common.{
  ℕ, refl, true, false, none, some, List, [], arith, length, filter, codes, codes, ◌+◌, ◌*◌, ◌/◌,
  ◌≡◌, ◌∷◌,
}
use task_manger_project.Alarm.Database.{Task}
use task_manger_project.Alarm.AvailableTime.{new_task, order_by_id}
use task_manger_project.Alarm.Messages.{Calendar}
use task_manger_project.Alarm.Notices.{Live, Outside}
use task_manger_project.Alarm.Scan.{Scan, Run, is_late, start_scan, visit_all, run_daily_scan}
use task_manger_project.Alarm.Scan.Ends.{scan_ends}
use task_manger_project.Alarm.Scan.Once.{rescan_silent}

abbrev calendar : Calendar
calendar = record {
  date_key_in_tz = λ tz ms. 20260101 + ms / 86_400_000;
  utc = λ y m d. d * 86_400_000;
  local_midnight_ms = λ ms. ms / 86_400_000 * 86_400_000;
  local_key = λ ms. 20260101 + ms / 86_400_000;
}

abbrev works : Outside
works = record { counts = true; caches = true; emits = true }

abbrev run_at : ℕ → Run
run_at now = record {
  calendar = calendar;
  time_zone = 0;
  now = now;
  clock = now;
  selects = λ cursor. true;
  upserts = λ id. true;
  outside = λ id. works;
}

abbrev late_task : ℕ → ℕ → Task
late_task id due = record (new_task id 7 (codes "late") 600 false 20260101 0) {
  deadline = some due;
}

abbrev tasks : List Task
tasks = late_task 4 90_000_000 ∷ late_task 2 10 ∷ late_task 3 500_000_000 ∷ []

abbrev live : Live
live = record { notices = []; badge = λ u. none; sent = [] }

scan_ends_example :
    ((end : Scan) × (run_daily_scan (run_at 180_000_000) tasks 3 live ≡ some end))
    × (((c : ℕ) → true ≡ true)
        → run_daily_scan (run_at 180_000_000) tasks 3 live
          ≡ some (
              visit_all
                (run_at 180_000_000)
                (start_scan live)
                (order_by_id (filter (is_late 180_000_000) tasks))))
scan_ends_example =
    scan_ends (run_at 180_000_000) tasks live 3
      ((omega arith, (omega arith, tt)), ((omega arith, tt), (tt, tt)))
      (omega arith, (omega arith, (omega arith, tt))) (omega arith)

rescan_silent_example :
    let done = (visit_all (run_at 180_000_000) (start_scan live) tasks).live in
    let again = visit_all (run_at 180_000_600) (start_scan done) tasks in
    (again.created ≡ 0)
    × (again.live.sent ≡ done.sent)
    × (length again.live.notices ≡ length done.notices)
unfolding task_manger_project.Alarm.Scan.service_date
rescan_silent_example =
    rescan_silent (run_at 180_000_000) (run_at 180_000_600) (start_scan live) tasks
      (refl, refl, refl) (λ id. refl)
