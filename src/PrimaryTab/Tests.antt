-- ===== src/PrimaryTab/Tests.antt =====
-- primaryTab.js at concrete inputs.
use task_manger_project.Common.{ℕ, refl, false, some, [], All, get, put, ◌≤◌, ◌≡◌, ◌∷◌}
use task_manger_project.PrimaryTab.{Tab, is_expired}
use task_manger_project.PrimaryTab.Election.{hears, step, elected-least, elected-live}

-- The tab 5 has taken itself for primary and now hears of the tab 3; of the tab 1 it heard long ago.
abbrev tab : Tab
tab = record { id = 5; peers = (5, 9000) ∷ (1, 4000) ∷ []; primary = 5 }

elected-least_example : (step tab (hears 3 9100)).primary ≤ 3
elected-least_example = elected-least tab (hears 3 9100) 3 9100 (unfold get put in refl) refl

elected-live_example :
    ((ts : ℕ) × (get (step tab (hears 3 9100)).primary (step tab (hears 3 9100)).peers ≡ some ts))
    × All (λ p. is_expired 5 9100 p.0 p.1 ≡ false) (step tab (hears 3 9100)).peers
elected-live_example = elected-live tab (hears 3 9100)
