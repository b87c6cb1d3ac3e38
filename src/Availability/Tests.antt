-- ===== src/Availability/Tests.antt =====
-- availability.js at concrete inputs.
use task_manger_project.Common.{refl, List, [], pos, ◌≡◌, ◌∷◌, ◌+ℤ◌, ◌-ℤ◌}
use task_manger_project.Availability.{
  Event, creates, deletes, refunds, run, initial_availability, compute_remaining,
}
use task_manger_project.Availability.Ledger.{
  Ledger, sum, post_all, fresh, remaining-ledger, post, remove,
}

-- Two tasks are created, the first is deleted, the second is completed early.
abbrev day : List Event
day = creates (pos 3600) ∷ creates (pos 1800) ∷ deletes (pos 3600) ∷ refunds (pos 600) ∷ []

abbrev books : Ledger
books = record { total = pos 7200; tasks = 1800 ∷ []; refunded = 600 ∷ [] }

remaining-ledger_example :
    compute_remaining (run day (initial_availability (pos 7200)))
    ≡ pos 7200 -ℤ pos (sum (1800 ∷ [])) +ℤ pos (sum (600 ∷ []))
unfolding post_all post remove fresh
remaining-ledger_example = remaining-ledger day (pos 7200) books refl
