-- ===== src/Backend/Release.antt =====
-- mock.js: what a completed task returns to the budget.
use mathlib.Core.Path.{subst}
use task_manger_project.Common.{
  ℕ, refl, sym, ap, inl, inr, some, List, [], arith, ==_iff, Bool-cases, find, All, pos, +ℤ_parts,
  -ℤ_parts, eq_of_parts, some_path, ◌+◌, ◌-◌, ◌≡◌, ◌∙◌, ◌≢◌, ◌∷◌, ◌==◌, ◌+ℤ◌, ◌-ℤ◌,
}
use task_manger_project.Backend.{
  Server, Task, pending, completed, est_seconds_of, allocated_seconds, change,
}
use task_manger_project.Backend.Time.{complete_task_with_refund, get_available_time, estimate_of}
use task_manger_project.Backend.Budget.{Unique, allocated-cons}

change-absent :
    (id : ℕ) (f : Task → Task) (ts : List Task) → All (λ u. u.task_id ≢ id) ts → change id f ts ≡ ts
unfolding change
change-absent id f [] h = refl
change-absent id f (t ∷ ts) h = ground (arith, change-absent id f ts h.1, h.0)

allocated-finish :
    (id : ℕ) (t : Task) (ts : List Task)
    → Unique ts
    → find (λ u. u.task_id == id) ts ≡ some t
    → t.status ≡ pending
    → allocated_seconds ts
      ≡ allocated_seconds (change id (λ u. record u { status = completed }) ts) + est_seconds_of t
unfolding change
allocated-finish id t [] u e p = cc
allocated-finish id t (v ∷ vs) u e p = elim (Bool-cases (v.task_id == id)) [
  | inl same ↦
      let finish : Task → Task = λ w. record w { status = completed } in
      let others = subst (λ k. All (λ w. w.task_id ≢ k) vs) ((==_iff v.task_id id).0 same) u.0 in
      let head : find (λ w. w.task_id == id) (v ∷ vs) ≡ some v = rw same refl in
      let found = some_path (sym head ∙ e) in
      rw (same, change-absent id finish vs others)
        (ground (
          arith,
          found,
          p,
          ap (λ w. w.status) found,
          ap est_seconds_of found,
          allocated-cons v vs,
          allocated-cons (finish v) vs,
        ))
  | inr other ↦
      let finish : Task → Task = λ w. record w { status = completed } in
      let tail : find (λ w. w.task_id == id) (v ∷ vs) ≡ find (λ w. w.task_id == id) vs =
        rw other refl in
      rw other (
        omega (
          arith,
          allocated-finish id t vs u.1 (sym tail ∙ e) p,
          allocated-cons v vs,
          allocated-cons v (change id finish vs),
        ))
]

-- In a list whose ids are distinct, completing a task that waits returns its whole estimate to the
-- remaining time of the server, however long it took; the refund is what the estimate had left.
pub completed_frees :
    (s : Server) (id elapsed : ℕ) (t : Task)
    → Unique s.tasks
    → find (λ u. u.task_id == id) s.tasks ≡ some t
    → t.status ≡ pending
    → let (s', refund) = complete_task_with_refund s id elapsed in
      ((get_available_time s').remaining
        ≡ (get_available_time s).remaining +ℤ pos (est_seconds_of t))
      × (refund ≡ est_seconds_of t - elapsed)
unfolding complete_task_with_refund get_available_time
completed_frees s id elapsed t u e p =
    let finish : Task → Task = λ w. record w { status = completed } in
    let before = pos (allocated_seconds s.tasks) in
    let after = pos (allocated_seconds (change id finish s.tasks)) in
    (
      eq_of_parts _ _ (
          omega (
            arith,
            allocated-finish id t s.tasks u e p,
            -ℤ_parts s.available before,
            -ℤ_parts s.available after,
            +ℤ_parts (s.available -ℤ before) (pos (est_seconds_of t)),
          )),
      ap (λ o. estimate_of o - elapsed) e,
    )
