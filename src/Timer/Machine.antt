-- ===== src/Timer/Machine.antt =====
-- timerEngine.js: the diagram of the timer's status, and the meaning of overtime.
use task_manger_project.Common.{
  ℕ, Bool, true, false, List, [], arith, All, ℤ, pos, pos_part, -ℤ_parts, ◌<◌, ◌≡◌, ◌≢◌, ◌⊎◌, ◌∷◌,
  ◌-ℤ◌, ◌≤ℤ◌, ◌<ℤ◌,
}
use task_manger_project.Timer.{
  Timer, Status, running, paused, overtime, completed, tick, correct_drift, create_timer,
}
use task_manger_project.Timer.Balance.{
  Call, apply, apply_all, starts, ticks, pauses, resumes, completes, hides, corrects,
}

-- The edges of the diagram; a call may also leave the status alone.
infix 40 ◌⟶◌
pub data ◌⟶◌ : Status → Status → Type 0 where
  stay : {s : Status} → s ⟶ s
  begin : {s : Status} → s ≢ completed → s ⟶ running
  run_out : running ⟶ overtime
  halt : {s : Status} → (s ≡ running) ⊎ (s ≡ overtime) → s ⟶ paused
  finish : {s : Status} → s ⟶ completed

-- Every call of the engine moves the status along an edge of the diagram: `running` is entered from
-- any status but `completed`, `overtime` from `running`, `paused` from a ticking timer, and
-- `completed` is never left.
pub apply-⟶ : (c : Call) (t : Timer) → t.status ⟶ (apply c t).status
unfolding apply
apply-⟶ (starts now) t = grind (arith, stay, begin)
apply-⟶ (ticks now) t = grind (arith, stay, begin, run_out)
apply-⟶ (pauses now) t = grind (arith, stay, halt)
apply-⟶ (resumes now) t = grind (arith, stay, begin)
apply-⟶ (completes now) t = finish
apply-⟶ (hides hidden now) t = grind (arith, stay, run_out)
apply-⟶ (corrects actual) t = grind (arith, stay, run_out)

abbrev pub is_correction : Call → Bool
is_correction (corrects _) = true
is_correction _ = false

abbrev pub Uncorrected : List Call → Type 0
Uncorrected cs = All (λ c. is_correction c ≡ false) cs

abbrev pub IsSettled : Timer → ℕ → ℤ → Type 0
IsSettled t elapsed remaining =
    (t.status ≡ completed) × (t.elapsed ≡ elapsed) × (t.remaining ≡ remaining)

apply-IsSettled :
    (c : Call) (t : Timer) (e : ℕ) (r : ℤ)
    → is_correction c ≡ false
    → IsSettled t e r
    → IsSettled (apply c t) e r
unfolding apply
apply-IsSettled (corrects _) t e r n h = cc
apply-IsSettled _ t e r n h = ground arith

-- Once a timer is completed, no calls but `correct_drift` change its status or its two counters.
pub apply_all-IsSettled :
    (cs : List Call) (t : Timer) (elapsed : ℕ) (remaining : ℤ)
    → Uncorrected cs
    → IsSettled t elapsed remaining
    → IsSettled (apply_all cs t) elapsed remaining
unfolding apply_all
apply_all-IsSettled [] t e r n h = h
apply_all-IsSettled (c ∷ cs) t e r n h =
    apply_all-IsSettled cs (apply c t) e r n.1 (apply-IsSettled c t e r n.0 h)

-- Overtime is shown only when no time remains.
abbrev pub OverIsSpent : Timer → Type 0
OverIsSpent t = t.status ≡ overtime → t.remaining ≤ℤ pos 0

apply-OverIsSpent :
    (c : Call) (t : Timer) → is_correction c ≡ false → OverIsSpent t → OverIsSpent (apply c t)
unfolding apply
apply-OverIsSpent (corrects _) t n h = λ e. cc
apply-OverIsSpent (hides hidden now) t n h =
    λ e. ground (arith, h, -ℤ_parts t.remaining (pos (pos_part hidden)))
apply-OverIsSpent _ t n h = λ e. ground (arith, h)

apply_all-OverIsSpent :
    (cs : List Call) (t : Timer) → Uncorrected cs → OverIsSpent t → OverIsSpent (apply_all cs t)
unfolding apply_all
apply_all-OverIsSpent [] t n h = h
apply_all-OverIsSpent (c ∷ cs) t n h =
    apply_all-OverIsSpent cs (apply c t) n.1 (apply-OverIsSpent c t n.0 h)

-- A new timer that has seen any calls but `correct_drift` is in overtime only if its remaining time
-- is at most 0.
pub overtime_spent :
    (task estimated : ℕ) (cs : List Call)
    → Uncorrected cs
    → (apply_all cs (create_timer task estimated)).status ≡ overtime
    → (apply_all cs (create_timer task estimated)).remaining ≤ℤ pos 0
unfolding create_timer
overtime_spent task estimated cs n =
    apply_all-OverIsSpent cs (create_timer task estimated) n (λ e. cc)

-- `correct_drift` leaves a timer in overtime as it is, also where the corrected time is below the
-- estimate, so that time remains; the next tick at the time of the last one makes it run again.
pub overtime_stale :
    (t : Timer) (actual : ℤ)
    → t.status ≡ overtime
    → pos_part actual < t.estimated
    → let c = correct_drift t actual in
      (c.status ≡ overtime) × (pos 0 <ℤ c.remaining) × ((tick c c.last_tick_at).status ≡ running)
unfolding correct_drift tick
overtime_stale t actual h lt = ground (
  arith,
  -ℤ_parts (pos t.estimated) (pos (pos_part actual)),
  -ℤ_parts (pos t.estimated -ℤ pos (pos_part actual)) (pos 0),
)
