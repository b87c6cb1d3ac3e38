-- ===== src/Availability/Warnings.antt =====
-- availability.js: the warning level follows the remaining time.
use task_manger_project.Common.{
  ℕ, suc, true, false, arith, ℤ, pos, pos_part, +ℤ_parts, -ℤ_parts, ◌+◌, ◌≤◌, ◌≡◌, ◌≢◌, ◌-ℤ◌, ◌≤ℤ◌,
}
use task_manger_project.Availability.{
  Availability, Level, ok, warning, critical, insufficiency_level, is_insufficient,
  derive_availability, compute_remaining, on_early_completion, on_create_task, reducer, refunds,
  creates,
}

pub severity : Level → ℕ
severity ok = 0
severity warning = 1
severity critical = 2

level_mono :
    (r r' total : ℤ)
    → r ≤ℤ r'
    → severity (insufficiency_level r' total) ≤ severity (insufficiency_level r total)
unfolding insufficiency_level severity
level_mono r r' total h = ground arith

refund_grows :
    (s : Availability) (n : ℤ) → compute_remaining s ≤ℤ compute_remaining (on_early_completion s n)
unfolding compute_remaining on_early_completion
refund_grows s n = omega (
  arith,
  +ℤ_parts (s.total -ℤ pos s.allocated) (pos s.refunded),
  +ℤ_parts (s.total -ℤ pos s.allocated) (pos (s.refunded + pos_part n)),
)

create_shrinks :
    (s : Availability) (n : ℤ) → compute_remaining (on_create_task s n) ≤ℤ compute_remaining s
unfolding compute_remaining on_create_task
create_shrinks s n = omega (
  arith,
  +ℤ_parts (s.total -ℤ pos s.allocated) (pos s.refunded),
  +ℤ_parts (s.total -ℤ pos (s.allocated + pos_part n)) (pos s.refunded),
  -ℤ_parts s.total (pos s.allocated),
  -ℤ_parts s.total (pos (s.allocated + pos_part n)),
)

-- A refund never makes the level of the snapshot worse, and a new task never makes it better.
pub level_follows :
    (s : Availability) (n : ℤ)
    → (severity (derive_availability (reducer s (refunds n))).level
        ≤ severity (derive_availability s).level)
      × (severity (derive_availability s).level
          ≤ severity (derive_availability (reducer s (creates n))).level)
unfolding derive_availability reducer
level_follows s n = (
  level_mono (compute_remaining s) (compute_remaining (on_early_completion s n)) s.total
      (refund_grows s n),
  level_mono (compute_remaining (on_create_task s n)) (compute_remaining s) s.total
      (create_shrinks s n),
)

-- At the critical level no task of positive length fits, and at any other a task of length 1 does.
pub critical-insufficient :
    (s : Availability)
    → ((derive_availability s).level ≡ critical
        → (n : ℕ) → (derive_availability s).insufficient (pos (suc n)) ≡ true)
      × ((derive_availability s).level ≢ critical
          → (derive_availability s).insufficient (pos 1) ≡ false)
unfolding derive_availability insufficiency_level is_insufficient
critical-insufficient s = (λ h n. ground arith, λ h. ground arith)
