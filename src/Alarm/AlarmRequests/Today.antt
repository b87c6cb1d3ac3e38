-- ===== src/Alarm/AlarmRequests/Today.antt =====
-- alarmRoutes.ts: the order of today's tasks, and what is unread after a request.
use task_manger_project.Common.{
  ℕ, refl, inl, inr, Bool, true, false, Option, none, some, List, [], arith, Bool-cases, filter,
  any, ◌≡◌, ◌≢◌, ◌&&◌, ◌∷◌, ◌==◌,
}
use task_manger_project.Alarm.Database.{Task}
use task_manger_project.Alarm.Order.{Ordered, order_by-Ordered, any-order_by}
use task_manger_project.Alarm.Sockets.{Alarm, Service, is_unread, emit_unread_count}
use task_manger_project.Alarm.AlarmRequests.{
  is_waiting, goes_before, get_today, read_all, mark_read, rank, by_keys, put_off_key, soon_key,
}

by_keys-total :
    (ra rb ka kb : ℕ) (sa sb : Option ℕ) (ca cb : ℕ)
    → by_keys ra rb ka kb sa sb ca cb ≡ false
    → by_keys rb ra kb ka sb sa cb ca ≡ true
unfolding by_keys
by_keys-total ra rb ka kb none none ca cb h = ground (arith, h)
by_keys-total ra rb ka kb none (some t) ca cb h = ground (arith, h)
by_keys-total ra rb ka kb (some s) none ca cb h = ground (arith, h)
by_keys-total ra rb ka kb (some s) (some t) ca cb h = ground (arith, h)

before-total : (now : ℕ) (a b : Task) → goes_before now a b ≡ false → goes_before now b a ≡ true
unfolding goes_before
before-total now a b h =
    by_keys-total (rank now a) (rank now b) (put_off_key a) (put_off_key b) (soon_key now a)
      (soon_key now b) a.created_at b.created_at h

-- Each row of today's tasks may stand before the one behind it: those that were put off first, then
-- those whose deadline is within 24 hours, then the others; and a task is listed exactly if it
-- is one of the user's that waits.
pub get_today-Ordered :
    (user now : ℕ) (tasks : List Task)
    → Ordered (goes_before now) (get_today user now tasks)
      × ((p : Task → Bool)
          → any p (get_today user now tasks)
            ≡ any p (filter (λ t. t.user_id == user && is_waiting t.status) tasks))
unfolding get_today
get_today-Ordered user now tasks =
    let rows = filter (λ t. t.user_id == user && is_waiting t.status) tasks in
    (
      order_by-Ordered (goes_before now) (before-total now) rows,
      λ p. any-order_by (goes_before now) p rows,
    )

none_unread : (user now : ℕ) (xs : List Alarm) → filter (is_unread user) (read_all user now xs) ≡ []
unfolding read_all
none_unread user now [] = refl
none_unread user now (a ∷ xs) = elim (Bool-cases (is_unread user a)) [
  | inl yes' ↦ rw yes' (ground (arith, none_unread user now xs))
  | inr no' ↦ rw (no', no') (none_unread user now xs)
]

others_unread :
    (u user now : ℕ) (xs : List Alarm)
    → u ≢ user
    → filter (is_unread u) (read_all user now xs) ≡ filter (is_unread u) xs
unfolding read_all
others_unread u user now [] h = refl
others_unread u user now (a ∷ xs) h = ground (arith, others_unread u user now xs h, h)

-- After the request to mark all as read, whether or not the new count can be sent, the user has no
-- unread alarm, and the unread alarms of every other user are what they were.
pub mark_read_lem :
    (counts : Bool) (user now : ℕ) (s : Service)
    → (filter (is_unread user) (mark_read counts user now s).alarms ≡ [])
      × ((u : ℕ)
          → u ≢ user
          → filter (is_unread u) (mark_read counts user now s).alarms
            ≡ filter (is_unread u) s.alarms)
unfolding mark_read emit_unread_count
mark_read_lem true user now s =
    (none_unread user now s.alarms, λ u h. others_unread u user now s.alarms h)
mark_read_lem false user now s =
    (none_unread user now s.alarms, λ u h. others_unread u user now s.alarms h)
