-- ===== src/Backend/Undo.antt =====
-- mock.js: the undo of a deletion.
use task_manger_project.Common.{
  ℕ, refl, Bool, false, not, Option, none, some, List, [], arith, filter, find, any, ◌≡◌, ◌∷◌, ◌++◌,
  ◌==◌, if◌then◌else◌,
}
use task_manger_project.Backend.{Server, Task, delete_task, recreate_task}

abbrev pub by_id : ℕ → Task → Bool
by_id id t = t.task_id == id

abbrev others : ℕ → List Task → List Task
others id ts = filter (λ t. not (t.task_id == id)) ts

any-others : (id : ℕ) (ts : List Task) → any (by_id id) (others id ts) ≡ false
any-others id [] = refl
any-others id (t ∷ ts) = ground (arith, any-others id ts)

find-others :
    (id j : ℕ) (ts : List Task)
    → find (by_id j) (others id ts) ≡ (if id == j then none else find (by_id j) ts)
find-others id j [] = ground arith
find-others id j (t ∷ ts) = ground (arith, find-others id j ts)

abbrev first_of : Option Task → Option Task → Option Task
first_of none b = b
first_of (some a) b = some a

find-append :
    (j : ℕ) (ts : List Task) (t : Task)
    → find (by_id j) (ts ++ t ∷ [])
      ≡ first_of (find (by_id j) ts) (if t.task_id == j then some t else none)
find-append j [] t = refl
find-append j (u ∷ us) t = ground (arith, find-append j us t)

found-id : (id : ℕ) (ts : List Task) (t : Task) → find (by_id id) ts ≡ some t → t.task_id ≡ id
found-id id [] t e = cc
found-id id (u ∷ us) t e = ground (arith, found-id id us t)

-- A task that is deleted and put back is found under its id again, and under every other id there is
-- what there was before.
pub find-recreate :
    (s : Server) (t : Task) (j : ℕ)
    → find (by_id t.task_id) s.tasks ≡ some t
    → find (by_id j) (recreate_task (delete_task s t.task_id) t).tasks ≡ find (by_id j) s.tasks
unfolding recreate_task delete_task
find-recreate s t j e = ground (
  arith,
  any-others t.task_id s.tasks,
  find-others t.task_id j s.tasks,
  find-append j (others t.task_id s.tasks) t,
)
