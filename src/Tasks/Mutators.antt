-- ===== src/Tasks/Mutators.antt =====
-- taskStoreCore.js: the operations on the list of tasks.
use mathlib.Core.Path.{subst}
use task_manger_project.Common.{
  ℕ, refl, inl, inr, Bool, true, false, not, some, List, [], map, arith, ==_iff, Bool-cases, filter,
  find, any, All, map_option, ◌≡◌, ◌≢◌, ◌∷◌, ◌==◌, if◌then◌else◌,
}
use task_manger_project.Tasks.{
  Task, Status, get_status, apply_optimistic_status, apply_rollback_status, upsert_task,
  remove_task,
}

-- No two tasks of the list have the same id.
abbrev pub Unique : List Task → Type 0
Unique [] = Unit
Unique (t ∷ ts) = All (λ u. u.id ≢ t.id) ts × Unique ts

abbrev pub by_id : ℕ → Task → Bool
by_id id t = t.id == id

untouched :
    (ts : List Task) (id : ℕ) (s : Status)
    → All (λ u. u.id ≢ id) ts
    → apply_optimistic_status ts id s ≡ ts
unfolding apply_optimistic_status
untouched [] id s h = refl
untouched (t ∷ ts) id s h = ground (arith, untouched ts id s h.1, h.0)

apply-id :
    (ts : List Task) (id j : ℕ) (s : Status)
    → All (λ u. u.id ≢ j) ts
    → All (λ u. u.id ≢ j) (apply_optimistic_status ts id s)
unfolding apply_optimistic_status
apply-id [] id j s h = tt
apply-id (t ∷ ts) id j s h =
    (elim (Bool-cases (t.id == id)) [ inl e ↦ rw e h.0 | inr e ↦ rw e h.0 ], apply-id ts id j s h.1)

-- If the server refuses an optimistic change, putting back the status that `getStatus` gave before
-- restores the list of tasks exactly.
pub rollback-optimistic :
    (ts : List Task) (id : ℕ) (prev next : Status)
    → Unique ts
    → get_status ts id ≡ some prev
    → apply_rollback_status (apply_optimistic_status ts id next) id prev ≡ ts
unfolding apply_rollback_status get_status
rollback-optimistic [] id prev next u h = refl
rollback-optimistic (t ∷ ts) id prev next u h = elim (Bool-cases (t.id == id)) [
  | inl same ↦
      let others = subst (λ k. All (λ w. w.id ≢ k) ts) ((==_iff t.id id).0 same) u.0 in
      ground (arith, untouched ts id next others, untouched ts id prev others, same, h)
  | inr other ↦ ground (arith, rollback-optimistic ts id prev next u.1, other)
]

-- What `getStatus` gives after a change of one task's status.
pub get_status-apply :
    (ts : List Task) (id j : ℕ) (s : Status)
    → get_status (apply_optimistic_status ts id s) j
      ≡ (if id == j then map_option (λ _. s) (get_status ts j) else get_status ts j)
unfolding get_status apply_optimistic_status
get_status-apply [] id j s = ground arith
get_status-apply (t ∷ ts) id j s = ground (arith, get_status-apply ts id j s)

any-find : (ts : List Task) (id : ℕ) → any (by_id id) ts ≡ false → All (λ u. u.id ≢ id) ts
any-find [] id h = tt
any-find (t ∷ ts) id h = (λ e. ground arith, any-find ts id (ground arith))

abbrev replace : Task → Task → Task
replace task t = if t.id == task.id then task else t

find-replace :
    (ts : List Task) (task : Task) (j : ℕ)
    → find (by_id j) (map (replace task) ts)
      ≡ (if task.id == j then map_option (λ _. task) (find (by_id j) ts) else find (by_id j) ts)
find-replace [] task j = ground arith
find-replace (t ∷ ts) task j = ground (arith, find-replace ts task j)

find-any :
    (ts : List Task) (id : ℕ)
    → any (by_id id) ts ≡ true
    → (t : Task) × (find (by_id id) ts ≡ some t)
find-any [] id h = cc
find-any (t ∷ ts) id h = elim (Bool-cases (by_id id t)) [
  | inl same ↦ (t, rw same)
  | inr other ↦ let (u, e) = find-any ts id (ground arith) in (u, rw other e)
]

-- After `upsertTask` the list has the task under its id, and every other id has what it had.
pub find-upsert :
    (ts : List Task) (task : Task) (j : ℕ)
    → find (by_id j) (upsert_task ts task) ≡ (if task.id == j then some task else find (by_id j) ts)
unfolding upsert_task
find-upsert ts task j = elim (Bool-cases (any (by_id task.id) ts)) [
  | inl old ↦
      let (t, e) = find-any ts task.id old in rw old (ground (arith, find-replace ts task j, e))
  | inr new ↦ rw new (ground arith)
]

replace-id :
    (ts : List Task) (task : Task) (j : ℕ)
    → All (λ u. u.id ≢ j) ts
    → All (λ u. u.id ≢ j) (map (replace task) ts)
replace-id [] task j h = tt
replace-id (t ∷ ts) task j h = (ground (arith, h.0), replace-id ts task j h.1)

replace-Unique : (ts : List Task) (task : Task) → Unique ts → Unique (map (replace task) ts)
replace-Unique [] task u = tt
replace-Unique (t ∷ ts) task u = (
  elim (Bool-cases (t.id == task.id)) [
    | inl same ↦ rw same (
        subst (λ k. All (λ w. w.id ≢ k) (map (replace task) ts)) ((==_iff t.id task.id).0 same)
          (replace-id ts task t.id u.0))
    | inr other ↦ rw other (replace-id ts task t.id u.0)
  ],
  replace-Unique ts task u.1,
)

apply-Unique :
    (ts : List Task) (id : ℕ) (s : Status) → Unique ts → Unique (apply_optimistic_status ts id s)
unfolding apply_optimistic_status
apply-Unique [] id s u = tt
apply-Unique (t ∷ ts) id s u = (
  elim (Bool-cases (t.id == id)) [
    | inl e ↦ rw e (apply-id ts id t.id s u.0)
    | inr e ↦ rw e (apply-id ts id t.id s u.0)
  ],
  apply-Unique ts id s u.1,
)

remove-id :
    (ts : List Task) (id j : ℕ)
    → All (λ u. u.id ≢ j) ts
    → All (λ u. u.id ≢ j) (filter (λ t. not (by_id id t)) ts)
remove-id [] id j h = tt
remove-id (t ∷ ts) id j h = elim (Bool-cases (by_id id t)) [
  | inl e ↦ rw e (remove-id ts id j h.1)
  | inr e ↦ rw e (h.0, remove-id ts id j h.1)
]

remove-Unique : (ts : List Task) (id : ℕ) → Unique ts → Unique (filter (λ t. not (by_id id t)) ts)
remove-Unique [] id u = tt
remove-Unique (t ∷ ts) id u = elim (Bool-cases (by_id id t)) [
  | inl e ↦ rw e (remove-Unique ts id u.1)
  | inr e ↦ rw e (remove-id ts id t.id u.0, remove-Unique ts id u.1)
]

-- Every operation keeps the ids of the list distinct.
pub keeps-Unique :
    (ts : List Task) (task : Task) (id : ℕ) (s : Status)
    → Unique ts
    → Unique (upsert_task ts task)
      × Unique (apply_optimistic_status ts id s)
      × Unique (apply_rollback_status ts id s)
      × Unique (remove_task ts id)
unfolding upsert_task apply_rollback_status remove_task
keeps-Unique ts task id s u = (
  elim (Bool-cases (any (by_id task.id) ts)) [
    | inl old ↦ rw old (replace-Unique ts task u)
    | inr new ↦ rw new (any-find ts task.id new, u)
  ],
  apply-Unique ts id s u,
  apply-Unique ts id s u,
  remove-Unique ts id u,
)
