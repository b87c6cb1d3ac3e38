-- ===== src/Availability.antt =====
-- frontend/src/lib/availability.js with the reducer of context/AvailableTimeContext.jsx: the budget
-- of available time, in whole seconds. The amounts that the source clamps at 0 are natural numbers;
-- the total may be negative, since the midnight reset does not clamp it.
pub mod Ledger
pub mod Warnings
mod Tests
use task_manger_project.Common.{
  ℕ, Bool, List, [], ltb, ℤ, pos, pos_part, neg_part, ltb_ℤ, leb_ℤ, ◌+◌, ◌-◌, ◌*◌, ◌&&◌, ◌∷◌,
  if◌then◌else◌, ◌+ℤ◌, ◌-ℤ◌,
}

pub record Availability : Type 0 where
  pub total : ℤ
  pub allocated : ℕ
  pub refunded : ℕ

unfoldable pub initial_availability : ℤ → Availability
initial_availability total = record { total = total; allocated = 0; refunded = 0 }

unfoldable pub on_set_available : Availability → ℤ → Availability
on_set_available s total = record s { total = pos (pos_part total) }

unfoldable pub on_create_task : Availability → ℤ → Availability
on_create_task s est = record s { allocated = s.allocated + pos_part est }

-- `Math.max(0, allocated - Math.max(0, est))` is the subtraction of ℕ.
unfoldable pub on_delete_task : Availability → ℤ → Availability
on_delete_task s est = record s { allocated = s.allocated - pos_part est }

unfoldable pub on_early_completion : Availability → ℤ → Availability
on_early_completion s refund = record s { refunded = s.refunded + pos_part refund }

unfoldable pub on_midnight_reset : ℤ → Availability
unfolding initial_availability
on_midnight_reset total = initial_availability total

unfoldable pub compute_remaining : Availability → ℤ
compute_remaining s = s.total -ℤ pos s.allocated +ℤ pos s.refunded

unfoldable pub is_insufficient : ℤ → ℤ → Bool
is_insufficient remaining duration = ltb_ℤ remaining duration

pub data Level : Type 0 where
  ok warning critical : Level

-- `remaining < total * 0.2`, with both sides taken five times.
abbrev pub below_fifth : ℤ → ℤ → Bool
below_fifth remaining total =
    ltb (5 * pos_part remaining + neg_part total) (pos_part total + 5 * neg_part remaining)

unfoldable pub insufficiency_level : ℤ → ℤ → Level
insufficiency_level remaining total =
    if leb_ℤ remaining (pos 0)
    then critical
    else if ltb_ℤ (pos 0) total && below_fifth remaining total
    then warning
    else ok

-- The snapshot that components subscribe to.
pub record Snapshot : Type 0 where
  pub state : Availability
  pub remaining : ℤ
  pub level : Level
  pub insufficient : ℤ → Bool

unfoldable pub derive_availability : Availability → Snapshot
unfolding compute_remaining insufficiency_level is_insufficient
derive_availability s =
    let rest = compute_remaining s in
    record {
      state = s;
      remaining = rest;
      level = insufficiency_level rest s.total;
      insufficient = is_insufficient rest;
    }

pub data Event : Type 0 where
  sets creates deletes refunds resets : ℤ → Event

unfoldable pub reducer : Availability → Event → Availability
unfolding on_set_available on_create_task on_delete_task on_early_completion on_midnight_reset
reducer s (sets seconds) = on_set_available s seconds
reducer s (creates est) = on_create_task s est
reducer s (deletes est) = on_delete_task s est
reducer s (refunds refund) = on_early_completion s refund
reducer s (resets total) = on_midnight_reset total

unfoldable pub run : List Event → Availability → Availability
run [] s = s
run (e ∷ es) s = run es (reducer s e)
