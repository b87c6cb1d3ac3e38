-- ===== src/Alarm/NoticeRequests/Tests.antt =====
-- Runs of notificationRoutes.ts on concrete input.
use task_manger_project.Common.{
  ℕ, refl, true, false, none, some, [], arith, ltb, pos, codes, codes, ◌≡◌, ◌∷◌, if◌then◌else◌,
}
use task_manger_project.Alarm.BadgeCache.{World}
use task_manger_project.Alarm.BadgeCache.Flight.{Up}
use task_manger_project.Alarm.Messages.{overdue_1day}
use task_manger_project.Alarm.Notices.{count_unread, Notice, Live, Outside, dispatch}
use task_manger_project.Alarm.NoticeRequests.{
  get_badge, sends, post_read, post_dismiss, dismiss_deleted,
}
use task_manger_project.Alarm.NoticeRequests.Badge.{get_badge_lem, IsFresh, requests-IsFresh}

abbrev notice : Notice
notice = record {
  id = 1;
  task_id = 4;
  user_id = 7;
  type = overdue_1day;
  overdue_days = pos 1;
  message = codes "late";
  service_date = 20260115;
  is_read = false;
  is_dismissed = false;
  was_deleted = false;
  created_at = 100;
  read_at = none;
  dismissed_at = none;
}

abbrev live : Live
live = record { notices = notice ∷ []; badge = λ u. none; sent = [] }

abbrev works : Outside
works = record { counts = true; caches = true; emits = true }

live-IsFresh : IsFresh live
unfolding IsFresh
live-IsFresh u n e = absurd (cc)

requests-IsFresh_example :
    IsFresh (post_read works 7 1 200 live).1
    × IsFresh (post_dismiss works 7 1 200 live).1
    × IsFresh (dismiss_deleted works 7 1 200 live)
    × ((n : Notice)
        → works.emits ≡ true
        → n.user_id ≡ 7
        → IsFresh (dispatch works 7 n (record live { notices = n ∷ live.notices })).1)
requests-IsFresh_example = requests-IsFresh works 7 1 200 live (refl, refl) live-IsFresh

-- The lock is another's, who stores the badge before the second look.
abbrev meanwhile : World
meanwhile = record {
  poll = λ i. if ltb i 1 then none else some 1;
  lock_later = none;
  reads = true;
  locks = true;
  stores = true;
  checks = true;
  drops = true;
  polls = λ i. true;
}

meanwhile-seen : (i n : ℕ) → meanwhile.poll i ≡ some n → n ≡ count_unread 7 live.notices
unfolding count_unread
meanwhile-seen i n e = ground (arith, e)

get_badge_lem_example :
    let (answer, live') = get_badge works 9 7 meanwhile (some 8) live in
    (Up meanwhile → answer ≡ sends (count_unread 7 live.notices)) × IsFresh live'
get_badge_lem_example =
    get_badge_lem works 9 7 meanwhile (some 8) live refl meanwhile-seen live-IsFresh
