-- ===== src/Alarm/Access/Tests.antt =====
-- Runs of rateLimit.ts on concrete input.
use task_manger_project.Common.{ℕ, refl, true, none, some, List, [], ◌-◌, ◌≡◌, ◌∷◌}
use task_manger_project.Alarm.Access.{Limits, Request, Key, of_user, count_of, passes_of}
use task_manger_project.Alarm.Access.Limit.{asked, passes_lem, min}

abbrev limits : Limits
limits = record { window_sec = 1; max = 2 }

abbrev request : ℕ → Request
request now = record { user_id = some 7; ip = none; route = 1; now = now; redis = true }

abbrev key : Key
key = record { route = 1; subject = of_user 7; window = 5 }

abbrev requests : List Request
requests = request 5000 ∷ request 5100 ∷ request 5200 ∷ request 6000 ∷ []

passes_lem_example :
    passes_of limits key requests []
    ≡ min (asked limits key requests) (limits.max - count_of key [])
passes_lem_example = passes_lem limits key requests [] (refl, (refl, (refl, (refl, tt))))
