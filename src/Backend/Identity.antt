-- ===== src/Backend/Identity.antt =====
-- mock.js: the ids of the tasks, and the undo of a deletion.
use mathlib.Core.Path.{subst}
use task_manger_project.Common.{
  ℕ, refl, sym, inl, inr, Bool, true, false, not, List, [], arith, Bool-cases, filter, any, All, ℤ,
  pos, ltb_ℤ, ◌+◌, ◌≤◌, ◌≡◌, ◌≢◌, ◌&&◌, ◌∷◌, ◌++◌, ◌==◌, if◌then◌else◌, ◌-ℤ◌,
}
use task_manger_project.Backend.{
  Server, Task, Input, Action, archived, completed, act, change, create_task, update_task_status,
  delete_task, recreate_task, allocated_seconds,
}
use task_manger_project.Backend.Notices.{resolve_delete_confirm}
use task_manger_project.Backend.Time.{
  Reply, budgeted, create_task_with_budget, complete_task_with_refund, set_available_time,
  is_open_priority,
}
use task_manger_project.Backend.Budget.{
  Op, apply, apply_all, budgets_op, creates_op, updates_op, deletes_op, recreates_op, completes_op,
  resolves_op, sets_op, or_same, Unique,
}

-- Ids are distinct and none is above the counter, which is at least `n`.
pub record IsNumbered (n : ℕ) (s : Server) : Type 0 where
  pub distinct : Unique s.tasks
  pub bounded : All (λ t. t.task_id ≤ s.next_id) s.tasks
  pub at_least : n ≤ s.next_id

-- A task that is put back was once numbered: its id is at most `n`.
abbrev pub IsOld : ℕ → Op → Type 0
IsOld n (recreates_op t) = t.task_id ≤ n
IsOld n _ = Unit

abbrev Below : ℕ → List Task → Type 0
Below n ts = All (λ t. t.task_id ≤ n) ts

Below-ne : (n : ℕ) (ts : List Task) → Below n ts → All (λ t. t.task_id ≢ n + 1) ts
Below-ne n [] h = tt
Below-ne n (t ∷ ts) h = (λ e. omega (arith, h.0), Below-ne n ts h.1)

Below-next : (n : ℕ) (ts : List Task) → Below n ts → Below (n + 1) ts
Below-next n [] h = tt
Below-next n (t ∷ ts) h = (omega (arith, h.0), Below-next n ts h.1)

All-append : (P : Task → Type 0) (ts : List Task) (t : Task) → All P ts → P t → All P (ts ++ t ∷ [])
All-append P [] t h p = (p, tt)
All-append P (u ∷ us) t h p = (h.0, All-append P us t h.1 p)

Unique-append :
    (ts : List Task) (t : Task)
    → Unique ts
    → All (λ u. u.task_id ≢ t.task_id) ts
    → Unique (ts ++ t ∷ [])
Unique-append [] t u h = (tt, tt)
Unique-append (v ∷ vs) t u h = (
  All-append (λ w. w.task_id ≢ v.task_id) vs t u.0 (λ e. h.0 (sym e)),
  Unique-append vs t u.1 h.1,
)

-- The changes of the source keep the id.
All-change :
    (P : ℕ → Type 0) (id : ℕ) (f : Task → Task) (ts : List Task)
    → ((t : Task) → (f t).task_id ≡ t.task_id)
    → All (λ t. P t.task_id) ts
    → All (λ t. P t.task_id) (change id f ts)
unfolding change
All-change P id f [] k h = h
All-change P id f (t ∷ ts) k h = elim (Bool-cases (t.task_id == id)) [
  | inl same ↦ rw same (subst P (sym (k t)) h.0, All-change P id f ts k h.1)
  | inr other ↦ rw other (h.0, All-change P id f ts k h.1)
]

Unique-change :
    (id : ℕ) (f : Task → Task) (ts : List Task)
    → ((t : Task) → (f t).task_id ≡ t.task_id)
    → Unique ts
    → Unique (change id f ts)
unfolding change
Unique-change id f [] k u = u
Unique-change id f (t ∷ ts) k u =
    let rest = All-change (λ i. i ≢ t.task_id) id f ts k u.0 in
    elim (Bool-cases (t.task_id == id)) [
      | inl same ↦ rw same (
        subst (λ j. All (λ w. w.task_id ≢ j) (change id f ts)) (sym (k t)) rest,
        Unique-change id f ts k u.1,
      )
      | inr other ↦ rw other (rest, Unique-change id f ts k u.1)
    ]

All-filter : (P : Task → Type 0) (p : Task → Bool) (ts : List Task) → All P ts → All P (filter p ts)
All-filter P p [] h = h
All-filter P p (t ∷ ts) h = elim (Bool-cases (p t)) [
  | inl kept ↦ rw kept (h.0, All-filter P p ts h.1)
  | inr dropped ↦ rw dropped (All-filter P p ts h.1)
]

Unique-filter : (p : Task → Bool) (ts : List Task) → Unique ts → Unique (filter p ts)
Unique-filter p [] u = u
Unique-filter p (t ∷ ts) u = elim (Bool-cases (p t)) [
  | inl kept ↦ rw kept (All-filter (λ w. w.task_id ≢ t.task_id) p ts u.0, Unique-filter p ts u.1)
  | inr dropped ↦ rw dropped (Unique-filter p ts u.1)
]

absent-All :
    (id : ℕ) (ts : List Task) → any (λ t. t.task_id == id) ts ≡ false → All (λ t. t.task_id ≢ id) ts
absent-All id [] h = tt
absent-All id (t ∷ ts) h = (ground arith, absent-All id ts (ground arith))

act-id : (a : Action) (t : Task) → (act a t).task_id ≡ t.task_id
unfolding act
act-id a t = ground arith

-- A new task takes the next number, at either end of the list.
append-IsNumbered :
    (n : ℕ) (s : Server) (t : Task)
    → t.task_id ≡ s.next_id + 1
    → IsNumbered n s
    → IsNumbered n (record s { tasks = s.tasks ++ t ∷ []; next_id = s.next_id + 1 })
append-IsNumbered n s t e h = record {
  distinct = Unique-append s.tasks t h.distinct (
      subst (λ k. All (λ u. u.task_id ≢ k) s.tasks) (sym e) (Below-ne s.next_id s.tasks h.bounded));
  bounded =
      All-append (λ u. u.task_id ≤ s.next_id + 1) s.tasks t (Below-next s.next_id s.tasks h.bounded)
        (omega (arith, e));
  at_least = omega (arith, h.at_least);
}

cons-IsNumbered :
    (n : ℕ) (s : Server) (t : Task)
    → t.task_id ≡ s.next_id + 1
    → IsNumbered n s
    → IsNumbered n (record s { tasks = t ∷ s.tasks; next_id = s.next_id + 1 })
cons-IsNumbered n s t e h = record {
  distinct = (
    subst (λ k. All (λ u. u.task_id ≢ k) s.tasks) (sym e) (Below-ne s.next_id s.tasks h.bounded),
    h.distinct,
  );
  bounded = (omega (arith, e), Below-next s.next_id s.tasks h.bounded);
  at_least = omega (arith, h.at_least);
}

-- A refusal, or what comes of the acceptance.
either :
    (P : Server → Type 0) (s : Server) (b : Bool) (x y : Reply Server)
    → P (or_same s x)
    → P (or_same s y)
    → P (or_same s (if b then x else y))
either P s true x y p q = p
either P s false x y p q = q

budgets-IsNumbered :
    (n : ℕ) (s : Server) (input : Input) (now later : ℕ)
    → IsNumbered n s
    → IsNumbered n (or_same s (create_task_with_budget s input now later))
unfolding create_task_with_budget
budgets-IsNumbered n s input now later h =
    let new = budgeted s input now later in
    let numbered : new.task_id ≡ s.next_id + 1 = unfold budgeted in refl in
    let remaining = s.available -ℤ pos (allocated_seconds s.tasks) in
    either (IsNumbered n) s (ltb_ℤ remaining (pos input.estimated_duration)) _ _ h (
      either (IsNumbered n) s (input.is_priority && any is_open_priority s.tasks) _ _ h
        (cons-IsNumbered n s new numbered h))

recreate-IsNumbered :
    (n : ℕ) (s : Server) (t : Task)
    → t.task_id ≤ n
    → IsNumbered n s
    → IsNumbered n (recreate_task s t)
unfolding recreate_task
recreate-IsNumbered n s t o h = elim (Bool-cases (any (λ u. u.task_id == t.task_id) s.tasks)) [
  | inl there ↦ rw there h
  | inr absent ↦ rw absent (record {
    distinct = Unique-append s.tasks t h.distinct (absent-All t.task_id s.tasks absent);
    bounded =
        All-append (λ u. u.task_id ≤ s.next_id) s.tasks t h.bounded (omega (arith, o, h.at_least));
    at_least = h.at_least;
  })
]

sets-IsNumbered :
    (n : ℕ) (s : Server) (seconds : ℤ)
    → IsNumbered n s
    → IsNumbered n (or_same s (set_available_time s seconds))
unfolding set_available_time
sets-IsNumbered n s seconds h =
    either (IsNumbered n) s (ltb_ℤ seconds (pos (allocated_seconds s.tasks))) _ _ h
      (record { distinct = h.distinct; bounded = h.bounded; at_least = h.at_least })

apply-IsNumbered :
    (n : ℕ) (op : Op) (s : Server) → IsOld n op → IsNumbered n s → IsNumbered n (apply op s)
unfolding apply
apply-IsNumbered n (budgets_op input now later) s o h = budgets-IsNumbered n s input now later h
apply-IsNumbered n (creates_op input now later) s o h =
    unfold create_task in append-IsNumbered n s (create_task s input now later).1 refl h
apply-IsNumbered n (updates_op id action) s o h =
    unfold update_task_status in
    record {
      distinct = Unique-change id (act action) s.tasks (act-id action) h.distinct;
      bounded = All-change (λ i. i ≤ s.next_id) id (act action) s.tasks (act-id action) h.bounded;
      at_least = h.at_least;
    }
apply-IsNumbered n (deletes_op id) s o h =
    unfold delete_task in
    record {
      distinct = Unique-filter (λ t. not (t.task_id == id)) s.tasks h.distinct;
      bounded =
          All-filter (λ t. t.task_id ≤ s.next_id) (λ t. not (t.task_id == id)) s.tasks h.bounded;
      at_least = h.at_least;
    }
apply-IsNumbered n (resolves_op id complete) s o h =
    let f = λ (t : Task). record t { status = if complete then completed else archived } in
    unfold resolve_delete_confirm in
    record {
      distinct = Unique-change id f s.tasks (λ t. refl) h.distinct;
      bounded = All-change (λ i. i ≤ s.next_id) id f s.tasks (λ t. refl) h.bounded;
      at_least = h.at_least;
    }
apply-IsNumbered n (recreates_op t) s o h = recreate-IsNumbered n s t o h
apply-IsNumbered n (completes_op id elapsed) s o h =
    unfold complete_task_with_refund in
    record {
      distinct =
          Unique-change id (λ t. record t { status = completed }) s.tasks (λ t. refl) h.distinct;
      bounded =
          All-change (λ i. i ≤ s.next_id) id (λ t. record t { status = completed }) s.tasks
            (λ t. refl) h.bounded;
      at_least = h.at_least;
    }
apply-IsNumbered n (sets_op seconds) s o h = sets-IsNumbered n s seconds h

-- From a server whose tasks have distinct ids, none of them above the counter, any operations keep the
-- ids distinct, where a task that is put back has an id that was given out before.
pub apply_all-IsNumbered :
    (n : ℕ) (ops : List Op) (s : Server)
    → All (IsOld n) ops
    → IsNumbered n s
    → IsNumbered n (apply_all ops s)
unfolding apply_all
apply_all-IsNumbered n [] s o h = h
apply_all-IsNumbered n (op ∷ ops) s o h =
    apply_all-IsNumbered n ops (apply op s) o.1 (apply-IsNumbered n op s o.0 h)
