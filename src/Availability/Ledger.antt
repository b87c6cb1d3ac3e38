-- ===== src/Availability/Ledger.antt =====
-- availability.js: the budget against a ledger of the tasks that it stands for.
use task_manger_project.Common.{
  ℕ, refl, inl, inr, Option, none, some, List, [], arith, leb, Option-cases, map_option, ℤ, pos,
  pos_part, sub_ℕ, +ℤ_parts, -ℤ_parts, eq_of_parts, some_path, >>=-eq-some, ◌>>=◌, ◌+◌, ◌-◌, ◌≡◌,
  ◌∷◌, ◌==◌, if◌then◌else◌, ◌+ℤ◌, ◌-ℤ◌,
}
use mathlib.Core.Path.{subst}
use task_manger_project.Availability.{
  Availability, Event, sets, creates, deletes, refunds, resets, reducer, run, compute_remaining,
  initial_availability, on_create_task, on_early_completion,
}

-- What the budget stands for: the estimates of the tasks that exist, and what was refunded.
pub record Ledger : Type 0 where
  pub total : ℤ
  pub tasks : List ℕ
  pub refunded : List ℕ

pub sum : List ℕ → ℕ
sum [] = 0
sum (n ∷ ns) = n + sum ns

-- The list without the first entry that equals `n`; `none` if there is none.
unfoldable pub remove : ℕ → List ℕ → Option (List ℕ)
remove n [] = none
remove n (m ∷ ms) = if n == m then some ms else map_option (λ rest. m ∷ rest) (remove n ms)

-- The ledger's own account of an event. A task that is not there cannot be deleted.
unfoldable pub post : Ledger → Event → Option Ledger
post l (sets seconds) = some (record l { total = pos (pos_part seconds) })
post l (creates est) = some (record l { tasks = pos_part est ∷ l.tasks })
post l (deletes est) =
    map_option (λ rest. record l { tasks = rest }) (remove (pos_part est) l.tasks)
post l (refunds refund) = some (record l { refunded = pos_part refund ∷ l.refunded })
post l (resets total) = some (record { total = total; tasks = []; refunded = [] })

unfoldable pub post_all : List Event → Ledger → Option Ledger
post_all [] l = some l
post_all (e ∷ es) l = do l' ← post l e; post_all es l'

pub record Represents (s : Availability) (l : Ledger) : Type 0 where
  pub same_total : s.total ≡ l.total
  pub same_tasks : s.allocated ≡ sum l.tasks
  pub same_refunds : s.refunded ≡ sum l.refunded

sum-remove : (n : ℕ) (ms rest : List ℕ) → remove n ms ≡ some rest → sum ms ≡ n + sum rest
unfolding sum remove
sum-remove n [] rest e = cc
sum-remove n (m ∷ ms) rest e = elim (Option-cases (remove n ms)) [
  | inl missing ↦ ground (arith, missing)
  | inr (r, found) ↦ ground (arith, found, sum-remove n ms r found)
]

deletes-Represents :
    (s : Availability) (l l' : Ledger) (n : ℕ)
    → Represents s l
    → (o : Option (List ℕ)) → remove n l.tasks ≡ o
    → map_option (λ rest. record l { tasks = rest }) o ≡ some l'
    → Represents (record s { allocated = s.allocated - n }) l'
deletes-Represents s l l' n v none e r = cc
deletes-Represents s l l' n v (some rest) e r = subst (Represents _) (some_path r) (record {
  same_total = v.same_total;
  same_tasks = omega (arith, v.same_tasks, sum-remove n l.tasks rest e);
  same_refunds = v.same_refunds;
})

reducer-Represents :
    (e : Event) (s : Availability) (l l' : Ledger)
    → Represents s l
    → post l e ≡ some l'
    → Represents (reducer s e) l'
unfolding reducer post sum
reducer-Represents (deletes est) s l l' v r =
    deletes-Represents s l l' (pos_part est) v (remove (pos_part est) l.tasks) refl r
reducer-Represents (sets seconds) s l l' v r = ground arith
reducer-Represents (creates est) s l l' v r = ground arith
reducer-Represents (refunds refund) s l l' v r = ground arith
reducer-Represents (resets total) s l l' v r = ground arith

run-Represents :
    (es : List Event) (s : Availability) (l l' : Ledger)
    → Represents s l
    → post_all es l ≡ some l'
    → Represents (run es s) l'
unfolding run post_all
run-Represents [] s l l' v r = subst (Represents s) (some_path r) v
run-Represents (e ∷ es) s l l' v r =
    let (m, first, rest) = >>=-eq-some (post l e) (post_all es) r in
    run-Represents es (reducer s e) m l' (reducer-Represents e s l m v first) rest

unfoldable pub fresh : ℤ → Ledger
fresh total = record { total = total; tasks = []; refunded = [] }

-- From a fresh budget, after events that delete only tasks that exist, the remaining time is the
-- total less the estimates of the tasks that exist, plus what was refunded: the clamp of a
-- deletion at 0 never shows.
pub remaining-ledger :
    (es : List Event) (total : ℤ) (l : Ledger)
    → post_all es (fresh total) ≡ some l
    → compute_remaining (run es (initial_availability total))
      ≡ l.total -ℤ pos (sum l.tasks) +ℤ pos (sum l.refunded)
unfolding compute_remaining initial_availability fresh sum
remaining-ledger es total l r =
    let v =
      run-Represents es (initial_availability total) (fresh total) l
        (record { same_total = refl; same_tasks = refl; same_refunds = refl }) r in
    rw (v.same_total, v.same_tasks, v.same_refunds)

-- A task that is created and completed within its estimate, with the rest refunded, costs the budget
-- the time that it took; one that ran over costs its estimate.
pub completion_cost :
    (s : Availability) (est elapsed : ℕ)
    → let after = on_early_completion (on_create_task s (pos est)) (sub_ℕ est elapsed) in
      compute_remaining after
      ≡ compute_remaining s -ℤ pos (if leb elapsed est then elapsed else est)
unfolding compute_remaining on_create_task on_early_completion
completion_cost s est elapsed = eq_of_parts _ _ (
    ground (
      arith,
      +ℤ_parts (s.total -ℤ pos (s.allocated + est))
          (pos (s.refunded + pos_part (sub_ℕ est elapsed))),
      -ℤ_parts s.total (pos (s.allocated + est)),
      -ℤ_parts (s.total -ℤ pos s.allocated +ℤ pos s.refunded)
          (pos (if leb elapsed est then elapsed else est)),
      +ℤ_parts (s.total -ℤ pos s.allocated) (pos s.refunded),
      -ℤ_parts s.total (pos s.allocated),
    ))
