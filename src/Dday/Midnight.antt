-- ===== src/Dday/Midnight.antt =====
-- api/tasks.js: the label counts calendar days, also across a change of the clocks.
use task_manger_project.Common.{
  ℕ, ap, some, arith, ℤ, pos, negsuc, pos_part, neg_part, ◌+◌, ◌*◌, ◌≤◌, ◌<◌, ◌≡◌, ◌-ℤ◌,
}
use task_manger_project.Dday.{round_div, day_ms, half_day_ms, label_of_days, dday_label}

-- The milliseconds `ms` are `days` whole days, give or take less than half a day (half a day less
-- is allowed, half a day more is not).
pub record IsAbout (ms days : ℤ) : Type 0 where
  pub lower :
      pos_part days * day_ms + neg_part ms ≤ pos_part ms + neg_part days * day_ms + half_day_ms
  pub upper :
      pos_part ms + neg_part days * day_ms < pos_part days * day_ms + neg_part ms + half_day_ms

round-days : (ms days : ℤ) → IsAbout ms days → round_div ms day_ms half_day_ms ≡ days
unfolding round_div
round-days (pos m) (pos d) h = ap pos (omega arith)
round-days (pos m) (negsuc d) h = absurd (omega arith)
round-days (negsuc m) (pos d) h = ground arith
round-days (negsuc m) (negsuc d) h = ground arith

-- If the midnights of the deadline and of today are a number of days apart, give or take the hours
-- that changes of the clocks add or take away, the label is that of the number of days.
pub dday_label_days :
    (midnight : ℕ → ℤ) (deadline now : ℕ) (days : ℤ)
    → IsAbout (midnight deadline -ℤ midnight now) days
    → dday_label midnight (some deadline) now ≡ some (label_of_days days)
unfolding dday_label
dday_label_days midnight deadline now days h =
    ap (λ d. some (label_of_days d)) (round-days (midnight deadline -ℤ midnight now) days h)
