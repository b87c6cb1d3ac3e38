-- ===== src/Alarm/BadgeCache/Tests.antt =====
-- Runs of notificationBadgeCache.ts on concrete input.
use task_manger_project.Common.{ℕ, refl, true, false, none, some, ltb, ◌≤◌, ◌≡◌, ◌≢◌, if◌then◌else◌}
use task_manger_project.Alarm.BadgeCache.{compute_locked, Redis, World, get_or_compute}
use task_manger_project.Alarm.BadgeCache.Flight.{Up, get_or_compute_lem}

abbrev held : Redis
held = record { badge = none; lock = some 8 }

-- The holder of the lock has computed before the third look.
abbrev world : World
world = record {
  poll = λ i. if ltb i 2 then none else some 3;
  lock_later = none;
  reads = true;
  locks = true;
  stores = true;
  checks = true;
  drops = true;
  polls = λ i. true;
}

third_look : (get_or_compute 9 (some 4) world held).answer ≡ some 3
unfolding get_or_compute
third_look = refl

-- The lock is free, the badge cannot be stored, and the lock is released all the same.
unstored :
    (get_or_compute 9
      (some 4)
      (record world { stores = false; lock_later = some 9 })
      (record held { lock = none })).redis.lock
    ≡ none
unfolding get_or_compute compute_locked
unstored = refl

get_or_compute_lem_example :
    let done = get_or_compute 9 (some 4) world held in
    (done.computed ≤ 1)
    × (done.waited ≤ 5)
    × (Up world → done.answer ≢ none)
    × ((n : ℕ) → true ≡ true → held.badge ≡ some n → (done.answer ≡ some n) × (done.computed ≡ 0))
    × ((other : ℕ) → held.lock ≡ some other → done.redis ≡ held)
    × (true ≡ true
        → true ≡ true
        → held.badge ≡ none
        → held.lock ≡ none
        → true ≡ true
        → true ≡ true
        → (done.redis.lock ≢ some 9)
          × (true ≡ true → (done.answer ≡ some 4) × (done.redis.badge ≡ some 4)))
get_or_compute_lem_example = get_or_compute_lem 9 4 world held
