-- ===== src/Alarm/Database/Rows.antt =====
-- The rows of the tasks' table under an update, and the sums over them.
use task_manger_project.Common.{
  ℕ, refl, inl, inr, some, List, [], arith, ==_iff, Bool-cases, All, ℤ, int_laws, ◌+◌, ◌≡◌, ◌≢◌,
  ◌∷◌, ◌==◌, ◌+ℤ◌,
}
use task_manger_project.Alarm.Database.{Task, update_task, find_task, sum, sum_ℤ}

-- The primary key: no two rows have the same id.
abbrev pub Unique : List Task → Type 0
Unique [] = Unit
Unique (t ∷ ts) = All (λ u. u.task_id ≢ t.task_id) ts × Unique ts

pub update-absent :
    (id j : ℕ) (f : Task → Task) (ts : List Task)
    → j ≡ id
    → All (λ u. u.task_id ≢ j) ts
    → update_task id f ts ≡ ts
unfolding update_task
update-absent id j f [] e h = refl
update-absent id j f (t ∷ ts) e h = ground (arith, h.0, update-absent id j f ts e h.1)

module _ (id : ℕ) (f : Task → Task) where
  -- A sum over the rows changes with the one row that an update changes.
  pub sum-update :
      (g : Task → ℕ) (ts : List Task) (t : Task)
      → Unique ts
      → find_task id ts ≡ some t
      → sum g (update_task id f ts) + g t ≡ sum g ts + g (f t)
  unfolding sum find_task update_task
  sum-update g [] t u e = absurd (cc)
  sum-update g (s ∷ ts) t u e = elim (Bool-cases (s.task_id == id)) [
    | inl here ↦
        let same : s ≡ t = ground (arith, here, e) in
        let rest = update-absent id s.task_id f ts ((==_iff s.task_id id).0 here) u.0 in
        rw (here, rest, same) (omega arith)
    | inr there ↦ ground (arith, there, sum-update g ts t u.1)
  ]

  pub sum_ℤ-update :
      (g : Task → ℤ) (ts : List Task) (t : Task)
      → Unique ts
      → find_task id ts ≡ some t
      → sum_ℤ g (update_task id f ts) +ℤ g t ≡ sum_ℤ g ts +ℤ g (f t)
  unfolding sum_ℤ find_task update_task
  sum_ℤ-update g [] t u e = absurd (cc)
  sum_ℤ-update g (s ∷ ts) t u e = elim (Bool-cases (s.task_id == id)) [
    | inl here ↦
        let same : s ≡ t = ground (arith, here, e) in
        let rest = update-absent id s.task_id f ts ((==_iff s.task_id id).0 here) u.0 in
        rw (here, rest, same) (grind int_laws)
    | inr there ↦
        let rest = sum_ℤ-update g ts t u.1 (ground (arith, there, e)) in
        rw there (grind (int_laws, rest))
  ]
