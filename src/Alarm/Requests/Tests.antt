-- ===== src/Alarm/Requests/Tests.antt =====
-- Runs of the requests on tasks and of their services on concrete input.
use task_manger_project.Common.{
  ℕ, refl, true, false, none, some, List, [], arith, pos, codes, codes, ◌-◌, ◌≤◌, ◌≡◌, ◌∷◌, ◌+ℤ◌,
  ◌-ℤ◌, ◌≤ℤ◌,
}
use task_manger_project.Alarm.Transitions.{start}
use task_manger_project.Alarm.Database.{Task, DayTime, Db, find_task, update_task, sum}
use task_manger_project.Alarm.AvailableTime.{
  whole, new_task, complete_row, remaining, reserve_and_create_task, complete_task, sum_allocated,
  total_of,
}
use task_manger_project.Alarm.AvailableTime.Budget.{reserve_charges}
use task_manger_project.Alarm.AvailableTime.Returned.{complete_returns}
use task_manger_project.Alarm.Requests.{
  World, Op, asks, posts, completes, acts, number, handle, handle_all,
}
use task_manger_project.Alarm.Requests.Open.{IsSingle}
use task_manger_project.Alarm.Requests.Single.{handle_all-IsSingle}
use task_manger_project.Alarm.Requests.Isolated.{Isolated, handle-Isolated}
use task_manger_project.Alarm.Requests.Estimates.{IsFunded}
use task_manger_project.Alarm.Priority.{has_priority_task, get_active_priority}
use task_manger_project.Alarm.Requests.Numbered.{IsNumbered}
use task_manger_project.Alarm.Requests.Coherent.{all_up, IsCoherent, handle_all-IsCoherent}
use task_manger_project.Alarm.Requests.Funded.{IsSound, handle_all-IsFunded}

abbrev day : ℕ
day = 20260115

abbrev essay : Task
essay = new_task 1 7 (codes "essay") 600 true day 0

abbrev other_task : Task
other_task = new_task 2 8 (codes "other") 300 false day 0

abbrev hour_of : ℕ → DayTime
hour_of user = record { user_id = user; service_date = day; available_seconds = 3600 }

abbrev db : Db
db = record {
  tasks = essay ∷ other_task ∷ [];
  times = hour_of 7 ∷ hour_of 8 ∷ [];
  refunds = [];
  next_id = 3;
}

abbrev world : World
world = record { db = db; cache = λ u. none; redis = all_up }

abbrev ops : List Op
ops =
    posts 7 (some (codes "more")) (number (whole (pos 900))) true day 5
    ∷ acts 7 (some 1) (some start) none 6
    ∷ completes 7 (some 1) (number (whole (pos 100))) 7 7
    ∷ posts 7 (some (codes "more")) (number (whole (pos 900))) true day 8
    ∷ []

db-IsSingle : IsSingle db
unfolding IsSingle
db-IsSingle u d = ground arith

handle_all-IsSingle_example : IsSingle (handle_all ops world).db
handle_all-IsSingle_example = handle_all-IsSingle ops world db-IsSingle

handle-Isolated_example :
    Isolated 7 db (handle (completes 7 (some 1) (number (whole (pos 100))) 7 7) world).db
handle-Isolated_example =
    handle-Isolated (completes 7 (some 1) (number (whole (pos 100))) 7 7) world
      ((omega arith, tt), (tt, tt))

db-IsFunded : IsFunded db
unfolding IsFunded sum_allocated total_of sum
db-IsFunded u d = ground arith

handle_all-IsFunded_example : IsSound (handle_all ops world).db
handle_all-IsFunded_example =
    handle_all-IsFunded ops world (tt, (omega arith, (tt, (tt, tt))))
      (db-IsFunded, (omega arith, (omega arith, tt)))

abbrev walk : Task
walk = new_task 3 8 (codes "walk") 1200 false day 5

abbrev with_walk : Db
with_walk = record db { tasks = walk ∷ db.tasks; next_id = 4 }

reserve_charges_example :
    (dur : ℕ) × (walk.estimated_duration ≡ some dur)
    × (60 ≤ dur)
    × (dur ≤ 86340)
    × (remaining 8 day db ≡ remaining 8 day with_walk +ℤ pos dur)
    × (pos 0 ≤ℤ remaining 8 day with_walk)
    × ((u d : ℕ) → ¬ ((u ≡ 8) × (d ≡ day)) → remaining u d with_walk ≡ remaining u d db)
unfolding reserve_and_create_task ◌-ℤ◌ task_manger_project.Alarm.Database.sum
    task_manger_project.Alarm.Database.sum_ℤ ◌+ℤ◌
reserve_charges_example =
    reserve_charges 8 (codes "walk") (some (whole (pos 1200))) false day 5 db with_walk walk refl

abbrev essay_done : Db
essay_done = record db {
  tasks = complete_row 100 7 essay ∷ other_task ∷ [];
  refunds = record { user_id = 7; task_id = 1; refunded_seconds = 500; created_at = 9 } ∷ [];
}

complete_returns_example :
    (remaining 7 day essay_done ≡ remaining 7 day db +ℤ pos 500)
    × ((spent : ℕ) → whole (pos 100) ≡ whole (pos spent) → 500 ≡ 600 - spent)
    × ((u d : ℕ) → ¬ ((u ≡ 7) × (d ≡ day)) → remaining u d essay_done ≡ remaining u d db)
unfolding complete_task find_task update_task
complete_returns_example =
    complete_returns 7 1 (whole (pos 100)) 7 9 db essay_done 500 essay 600
      ((omega arith, tt), (tt, tt)) refl refl refl refl

-- Two users ask, and one of them starts the task with priority and completes it.
abbrev questions : List Op
questions =
    asks 7 none day
    ∷ asks 8 none day
    ∷ acts 7 (some 1) (some start) none 6
    ∷ asks 7 none day
    ∷ completes 7 (some 1) (number (whole (pos 100))) 7 7
    ∷ asks 7 none day
    ∷ []

world-IsCoherent : IsCoherent day world
unfolding IsCoherent has_priority_task get_active_priority
world-IsCoherent u = refl

world-IsNumbered : IsNumbered db
world-IsNumbered = record {
  distinct = ((omega arith, tt), (tt, tt));
  bounded = (omega arith, (omega arith, tt));
}

handle_all-IsCoherent_example : IsCoherent day (handle_all questions world)
handle_all-IsCoherent_example =
    handle_all-IsCoherent day questions world (refl, (refl, (refl, (refl, (refl, (refl, tt))))))
      refl world-IsNumbered world-IsCoherent
