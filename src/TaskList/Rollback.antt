-- ===== src/TaskList/Rollback.antt =====
-- useTasks.js: what an answer of the server leaves of an optimistic change.
use task_manger_project.Common.{
  ℕ, refl, ap, true, Option, List, [], arith, All, ◌≡◌, ◌≢◌, ◌∷◌, ◌==◌,
}
use Prim.Native.String.{String}
use task_manger_project.Backend.{Task, Input, change}
use task_manger_project.TaskList.{
  State, without, optimistic_task, add_begin, add_end, created, not_created,
}

-- No task of the list has the id.
abbrev pub Absent : ℕ → List Task → Type 0
Absent id ts = All (λ t. t.task_id ≢ id) ts

without-Absent : (id : ℕ) (ts : List Task) → Absent id ts → without id ts ≡ ts
without-Absent id [] h = refl
without-Absent id (t ∷ ts) h = ground (arith, without-Absent id ts h.1, h.0)

change-Absent : (id : ℕ) (f : Task → Task) (ts : List Task) → Absent id ts → change id f ts ≡ ts
unfolding change
change-Absent id f [] h = refl
change-Absent id f (t ∷ ts) h = ground (arith, change-Absent id f ts h.1, h.0)

-- A task that is added under a new temporary id, while the list changes by nothing else: if the
-- server creates it, its answer stands in its place before the others; if not, the list is as before.
pub add_settles :
    (s : State) (partial : Input) (tmp : ℕ) (task : Task) (message : Option String)
    → Absent tmp s.tasks
    → ((add_end (add_begin s partial tmp) tmp (created task)).tasks ≡ task ∷ s.tasks)
      × ((add_end (add_begin s partial tmp) tmp (not_created message)).tasks ≡ s.tasks)
unfolding add_end add_begin optimistic_task change
add_settles s partial tmp task message h =
    let self : (tmp == tmp) ≡ true = ground arith in
    (
      rw self (ap (λ r. task ∷ r) (change-Absent tmp (λ _. task) s.tasks h)),
      rw self (without-Absent tmp s.tasks h),
    )
