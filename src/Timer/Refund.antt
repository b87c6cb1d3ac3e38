-- ===== src/Timer/Refund.antt =====
-- timerEngine.js: the refund for a task that is completed early.
use task_manger_project.Common.{
  ℕ, refl, ap, inl, inr, true, arith, ℤ, pos, negsuc, pos_part, neg_part, +ℤ_parts, ◌+◌, ◌-◌, ◌*◌,
  ◌/◌, ◌≤◌, ◌<◌, ◌≡◌, ◌⊎◌,
}
use task_manger_project.Timer.Balance.{IsBalanced}
use task_manger_project.Timer.{Timer, is_ticking, complete, refund_for_completion}

-- Completing a ticking timer at time `now` counts the time since its
-- last tick, and refunds the rest of the estimate, rounded to the nearest second: the refund is
-- within half a second of the unused time, and 0 where the estimate is used up.
pub refund-complete :
    (t : Timer) (now : ℕ)
    → is_ticking t ≡ true
    → let unused = t.estimated - (t.elapsed + (now - t.last_tick_at)) in
      let refund = refund_for_completion (complete t now) in
      (refund * 1000 ≤ unused + 500) × (unused < refund * 1000 + 500)
unfolding complete refund_for_completion
refund-complete t now h = ground arith

parts_apart : (a : ℤ) → (pos_part a ≡ 0) ⊎ (neg_part a ≡ 0)
parts_apart (pos n) = inr refl
parts_apart (negsuc n) = inl refl

-- In a timer whose counters are balanced the refund is the remaining time, rounded to the nearest
-- second, or 0 in overtime.
pub refund-remaining :
    (t : Timer) → IsBalanced t → refund_for_completion t ≡ (pos_part t.remaining + 500) / 1000
unfolding refund_for_completion
refund-remaining t h = omega (
  arith,
  ap pos_part h,
  ap neg_part h,
  +ℤ_parts (pos t.elapsed) t.remaining,
  parts_apart t.remaining,
)
