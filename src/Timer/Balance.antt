-- ===== src/Timer/Balance.antt =====
-- timerEngine.js: what every operation of the timer keeps, over any sequence of operations.
use task_manger_project.Common.{
  ℕ, refl, ap, Option, List, [], arith, ℤ, pos, pos_part, neg_part, +ℤ_parts, -ℤ_parts, eq_of_parts,
  ◌+◌, ◌-◌, ◌≡◌, ◌∙◌, ◌∷◌, ◌+ℤ◌, ◌-ℤ◌,
}
use task_manger_project.Timer.{
  Timer, create_timer, start, tick, pause, resume, apply_hidden_gap, correct_drift, complete,
}

-- One call of an exported function of the engine.
pub data Call : Type 0 where
  starts ticks pauses resumes completes : ℕ → Call
  hides : ℤ → Option ℕ → Call
  corrects : ℤ → Call

unfoldable pub apply : Call → Timer → Timer
unfolding start tick pause resume apply_hidden_gap correct_drift complete
apply (starts now) t = start t now
apply (ticks now) t = tick t now
apply (pauses now) t = pause t now
apply (resumes now) t = resume t now
apply (completes now) t = complete t now
apply (hides hidden now) t = apply_hidden_gap t hidden now
apply (corrects actual) t = correct_drift t actual

unfoldable pub apply_all : List Call → Timer → Timer
apply_all [] t = t
apply_all (c ∷ cs) t = apply_all cs (apply c t)

-- Nothing is lost between the two counters of a timer.
abbrev pub IsBalanced : Timer → Type 0
IsBalanced t = pos t.elapsed +ℤ t.remaining ≡ pos t.estimated

balance_parts :
    (e : ℕ) (r : ℤ) → pos_part (pos e +ℤ r) + neg_part r ≡ neg_part (pos e +ℤ r) + e + pos_part r
balance_parts e r = omega (arith, +ℤ_parts (pos e) r)

shift_balance : (e a n : ℕ) (r : ℤ) → pos e +ℤ r ≡ pos n → pos (e + a) +ℤ (r -ℤ pos a) ≡ pos n
shift_balance e a n r h = eq_of_parts _ _ (
    omega (
      arith,
      ap pos_part h,
      ap neg_part h,
      balance_parts e r,
      balance_parts (e + a) (r -ℤ pos a),
      -ℤ_parts r (pos a),
    ))

reset_balance : (e n : ℕ) → pos e +ℤ (pos n -ℤ pos e) ≡ pos n
reset_balance e n =
    eq_of_parts _ _ (omega (arith, balance_parts e (pos n -ℤ pos e), -ℤ_parts (pos n) (pos e)))

tick-IsBalanced : (t : Timer) (now : ℕ) → IsBalanced t → IsBalanced (tick t now)
unfolding tick
tick-IsBalanced t now h =
    ground (arith, shift_balance t.elapsed (now - t.last_tick_at) t.estimated t.remaining)

pub apply-IsBalanced : (c : Call) (t : Timer) → IsBalanced t → IsBalanced (apply c t)
unfolding apply
apply-IsBalanced (starts now) t h = ground arith
apply-IsBalanced (ticks now) t h = tick-IsBalanced t now h
apply-IsBalanced (pauses now) t h =
    ground (arith, shift_balance t.elapsed (now - t.last_tick_at) t.estimated t.remaining)
apply-IsBalanced (resumes now) t h = ground arith
apply-IsBalanced (completes now) t h =
    ground (arith, shift_balance t.elapsed (now - t.last_tick_at) t.estimated t.remaining)
apply-IsBalanced (hides hidden now) t h =
    ground (arith, shift_balance t.elapsed (pos_part hidden) t.estimated t.remaining)
apply-IsBalanced (corrects actual) t h = ground (arith, reset_balance (pos_part actual) t.estimated)

apply_all-IsBalanced : (cs : List Call) (t : Timer) → IsBalanced t → IsBalanced (apply_all cs t)
unfolding apply_all
apply_all-IsBalanced [] t h = h
apply_all-IsBalanced (c ∷ cs) t h = apply_all-IsBalanced cs (apply c t) (apply-IsBalanced c t h)

apply-estimated : (c : Call) (t : Timer) → (apply c t).estimated ≡ t.estimated
unfolding apply
apply-estimated (starts now) t = ground arith
apply-estimated c t = ground arith

apply_all-estimated : (cs : List Call) (t : Timer) → (apply_all cs t).estimated ≡ t.estimated
unfolding apply_all
apply_all-estimated [] t = refl
apply_all-estimated (c ∷ cs) t = apply_all-estimated cs (apply c t) ∙ apply-estimated c t

new_balance : (task estimated : ℕ) → IsBalanced (create_timer task estimated)
unfolding create_timer ◌+ℤ◌
new_balance task estimated = ground arith

create-estimated : (task estimated : ℕ) → (create_timer task estimated).estimated ≡ estimated
unfolding create_timer
create-estimated task estimated = refl

-- After any calls of the engine on a new timer, with any clock readings, the elapsed and the
-- remaining time add up to the estimate that the timer was created with.
pub balance :
    (task estimated : ℕ) (cs : List Call)
    → let t = apply_all cs (create_timer task estimated) in
      pos t.elapsed +ℤ t.remaining ≡ pos estimated
balance task estimated cs =
    apply_all-IsBalanced cs (create_timer task estimated) (new_balance task estimated)
    ∙ ap pos
        (apply_all-estimated cs (create_timer task estimated) ∙ create-estimated task estimated)
