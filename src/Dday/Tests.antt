-- ===== src/Dday/Tests.antt =====
-- The D-day label at concrete inputs.
use task_manger_project.Common.{some, negsuc, ◌≡◌}
use task_manger_project.Dday.{dday_num, label_of_days}
use task_manger_project.Dday.RoundTrip.{dday_num-label}

-- `D+12`
dday_num-label_example : dday_num (some (label_of_days (negsuc 11))) ≡ negsuc 11
dday_num-label_example = dday_num-label (negsuc 11)
