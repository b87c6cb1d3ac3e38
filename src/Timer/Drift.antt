-- ===== src/Timer/Drift.antt =====
-- timerEngine.js: the time that ticks, pauses and resumes account for.
use task_manger_project.Common.{
  ℕ, refl, true, List, [], arith, ℤ, pos, -ℤ_parts, eq_of_parts, ◌+◌, ◌-◌, ◌≤◌, ◌≡◌, ◌∙◌, ◌∷◌, ◌-ℤ◌,
}
use task_manger_project.Timer.{Timer, paused, is_ticking, tick, pause, resume}

unfoldable pub tick_all : Timer → List ℕ → Timer
tick_all t [] = t
tick_all t (n ∷ ns) = tick_all (tick t n) ns

-- Clock readings that do not go back.
abbrev pub Ascending : ℕ → List ℕ → Type 0
Ascending last [] = Unit
Ascending last (n ∷ ns) = (last ≤ n) × Ascending n ns

abbrev pub last_of : ℕ → List ℕ → ℕ
last_of n [] = n
last_of n (m ∷ ms) = last_of m ms

sub_twice : (r : ℤ) (a b : ℕ) → r -ℤ pos a -ℤ pos b ≡ r -ℤ pos (a + b)
sub_twice r a b =
    eq_of_parts _ _
      (omega (arith, -ℤ_parts (r -ℤ pos a) (pos b), -ℤ_parts r (pos a), -ℤ_parts r (pos (a + b))))

tick-tick :
    (t : Timer) (a b : ℕ)
    → is_ticking t ≡ true
    → t.last_tick_at ≤ a
    → a ≤ b
    → tick (tick t a) b ≡ tick t b
unfolding tick
tick-tick t a b h p q = ground (arith, sub_twice t.remaining (a - t.last_tick_at) (b - a))

tick-is_ticking : (t : Timer) (n : ℕ) → is_ticking t ≡ true → is_ticking (tick t n) ≡ true
unfolding tick
tick-is_ticking t n h = ground arith

tick-last_tick_at : (t : Timer) (n : ℕ) → is_ticking t ≡ true → (tick t n).last_tick_at ≡ n
unfolding tick
tick-last_tick_at t n h = ground arith

pub last_of-ge : (n : ℕ) (ns : List ℕ) → Ascending n ns → n ≤ last_of n ns
last_of-ge n [] up = omega arith
last_of-ge n (m ∷ ms) up = omega (arith, last_of-ge m ms up.1)

-- In exact milliseconds, however late and irregular the ticks of a ticking timer come, one tick at
-- the time of the last of them gives the same timer.
pub tick_all-tick :
    (t : Timer) (n : ℕ) (ns : List ℕ)
    → is_ticking t ≡ true
    → Ascending t.last_tick_at (n ∷ ns)
    → tick_all t (n ∷ ns) ≡ tick t (last_of n ns)
unfolding tick_all
tick_all-tick t n [] h up = refl
tick_all-tick t n (m ∷ ms) h (p, (q, up)) =
    tick_all-tick (tick t n) m ms (tick-is_ticking t n h) (rw (tick-last_tick_at t n h) (q, up))
    ∙ tick-tick t n (last_of m ms) h p (omega (arith, last_of-ge m ms up))

-- A stretch of work: resumed at the first time and paused at the second.
unfoldable pub work : Timer → List (ℕ × ℕ) → Timer
work t [] = t
work t ((from, to) ∷ rest) = work (pause (resume t from) to) rest

-- The time of the stretches alone.
unfoldable pub worked : List (ℕ × ℕ) → ℕ
worked [] = 0
worked ((from, to) ∷ rest) = (to - from) + worked rest

stretch :
    (t : Timer) (from to : ℕ)
    → t.status ≡ paused
    → ((pause (resume t from) to).status ≡ paused)
      × ((pause (resume t from) to).elapsed ≡ t.elapsed + (to - from))
unfolding pause resume
stretch t from to h = ground arith

-- A paused timer that is resumed and paused any number of times has gained the length of the
-- stretches between, and nothing for the pauses, and is paused.
pub elapsed-work :
    (t : Timer) (stretches : List (ℕ × ℕ))
    → t.status ≡ paused
    → ((work t stretches).status ≡ paused)
      × ((work t stretches).elapsed ≡ t.elapsed + worked stretches)
unfolding work worked
elapsed-work t [] h = (h, omega arith)
elapsed-work t ((from, to) ∷ rest) h =
    let (still, gained) = stretch t from to h in
    let (last, total) = elapsed-work (pause (resume t from) to) rest still in (last, omega arith)
