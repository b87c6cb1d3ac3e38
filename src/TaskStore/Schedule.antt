-- ===== src/TaskStore/Schedule.antt =====
-- TaskContext.jsx: clicks and answers of the server in any order, over any number of tasks.
use mathlib.Core.Path.{subst}
use task_manger_project.Tasks.Mutators.{get_status-apply}
use mathlib.Core.List.{append-nil}
use task_manger_project.Common.{
  ℕ, zero, suc, refl, ap, inl, inr, Bool, Option, none, some, List, [], arith, ==_iff, Bool-cases,
  filter, map_option, ◌≡◌, ◌∙◌, ◌≢◌, ◌⊎◌, ◌∷◌, ◌++◌, ◌==◌, if◌then◌else◌,
}
use task_manger_project.Tasks.{
  Status, Action, get_status, optimistic_status_for, apply_rollback_status, apply_optimistic_status,
}
use task_manger_project.TaskStore.{
  State, Update, Answer, accepted, rejected, final_status, update_begin, update_end, begin_with,
}

-- The store with the updates that wait for an answer, oldest first.
pub record System : Type 0 where
  pub store : State
  pub waiting : List Update

-- A click on a button of a task, or the answer to one of the task's requests that wait: to the one
-- that has the given number of older ones before it.
pub data Step : Type 0 where
  click : ℕ → Action → Step
  answer : ℕ → ℕ → Answer → Step

abbrev pub task_of : Step → ℕ
task_of (click id action) = id
task_of (answer id n a) = id

abbrev pub of_task : ℕ → Update → Bool
of_task id u = u.task_id == id

-- An update and the others, with one more in front of these.
abbrev pub behind : Update → Option (Update × List Update) → Option (Update × List Update)
behind u none = none
behind u (some (v, rest)) = some (v, u ∷ rest)

-- The update of a task before which there are `n` older ones of it, and all others.
pub take_at : ℕ → ℕ → List Update → Option (Update × List Update)
take_at id n [] = none
take_at id zero (u ∷ us) = if of_task id u then some (u, us) else behind u (take_at id zero us)
take_at id (suc n) (u ∷ us) = behind u (take_at id (if of_task id u then n else suc n) us)

abbrev pub queued : List Update → Option Update → List Update
queued us none = us
queued us (some u) = us ++ u ∷ []

abbrev pub settle : State → Answer → System → Option (Update × List Update) → System
settle store a s none = s
settle store a s (some (u, rest)) = record { store = (update_end store u a).state; waiting = rest }

unfoldable pub step : Step → System → System
unfolding take_at
step (click id action) s =
    let (store, update) = update_begin s.store id action in
    record { store = store; waiting = queued s.waiting update }
step (answer id n a) s = settle s.store a s (take_at id n s.waiting)

unfoldable pub run : List Step → System → System
run [] s = s
run (x ∷ xs) s = run xs (step x s)

-- What one task shows, and its own updates that wait.
pub record Cell : Type 0 where
  pub status : Option Status
  pub waiting : List Update

pub cell_press : ℕ → Cell → Option Status → Option Status → Cell
cell_press id c (some prev) (some hoped) = record {
  status = some hoped;
  waiting = c.waiting ++ (record { task_id = id; previous = prev; hoped = hoped }) ∷ [];
}
cell_press id c _ _ = c

abbrev pub outcome : Answer → Update → Status
outcome (accepted a) u = final_status a u.hoped
outcome rejected u = u.previous

-- The element at an index of the task's own queue, and the others.
pub take_nth : ℕ → List Update → Option (Update × List Update)
take_nth n [] = none
take_nth zero (u ∷ us) = some (u, us)
take_nth (suc n) (u ∷ us) = behind u (take_nth n us)

pub cell_settle : Answer → Cell → Option (Update × List Update) → Cell
cell_settle a c none = c
cell_settle a c (some (u, rest)) = record {
  status = map_option (λ _. outcome a u) c.status;
  waiting = rest;
}

-- A task on its own: clicks and answers change its status and its queue, and nothing else counts.
pub cell_step : Step → Cell → Cell
cell_step (click id action) c = cell_press id c c.status (optimistic_status_for c.status action)
cell_step (answer id n a) c = cell_settle a c (take_nth n c.waiting)

pub cell_run : List Step → Cell → Cell
cell_run [] c = c
cell_run (x ∷ xs) c = cell_run xs (cell_step x c)

pub view : ℕ → System → Cell
view id s = record { status = get_status s.store.tasks id; waiting = filter (of_task id) s.waiting }

filter-append :
    (id : ℕ) (us vs : List Update)
    → filter (of_task id) (us ++ vs) ≡ filter (of_task id) us ++ filter (of_task id) vs
filter-append id [] vs = refl
filter-append id (u ∷ us) vs = elim (Bool-cases (of_task id u)) [
  | inl mine ↦ rw mine (ap (λ r. u ∷ r) (filter-append id us vs))
  | inr other ↦ rw other (filter-append id us vs)
]

-- The update that is taken for a task is that of the task's own queue, and the other queues keep theirs.
abbrev Taken : ℕ → ℕ → List Update → Type 0
Taken id n us =
    ((take_at id n us ≡ none) × (take_nth n (filter (of_task id) us) ≡ none))
    ⊎ ((u : Update) × (rest : List Update) × (take_at id n us ≡ some (u, rest))
        × (u.task_id ≡ id)
        × (take_nth n (filter (of_task id) us) ≡ some (u, filter (of_task id) rest))
        × ((j : ℕ) → j ≢ id → filter (of_task j) rest ≡ filter (of_task j) us))

take_self : (id n : ℕ) (us : List Update) → Taken id n us
unfolding take_at take_nth
take_self id n [] = inl (refl, refl)
take_self id zero (u ∷ us) = elim (Bool-cases (of_task id u)) [
  | inl mine ↦
      inr (u, us, rw mine refl, (==_iff u.task_id id).0 mine, rw mine refl, λ j ne. ground arith)
  | inr other ↦ elim (take_self id zero us) [
    | inl (p, q) ↦ inl (rw (other, p) refl, rw other q)
    | inr (v, rest, p, e, q, r) ↦
        inr (v, u ∷ rest, rw (other, p) refl, e, rw (other, q) refl, λ j ne. ground (arith, r j ne))
  ]
]
take_self id (suc n) (u ∷ us) = elim (Bool-cases (of_task id u)) [
  | inl mine ↦ elim (take_self id n us) [
    | inl (p, q) ↦ inl (rw (mine, p) refl, rw (mine, q) refl)
    | inr (v, rest, p, e, q, r) ↦
        inr (v, u ∷ rest, rw (mine, p) refl, e, rw (mine, q) refl, λ j ne. ground (arith, r j ne))
  ]
  | inr other ↦ elim (take_self id (suc n) us) [
    | inl (p, q) ↦ inl (rw (other, p) refl, rw other q)
    | inr (v, rest, p, e, q, r) ↦
        inr (v, u ∷ rest, rw (other, p) refl, e, rw (other, q) refl, λ j ne. ground (arith, r j ne))
  ]
]

abbrev pressed : System → ℕ → Option Status → Option Status → System
pressed s id prev hoped =
    let (store, update) = begin_with s.store id prev hoped in
    record { store = store; waiting = queued s.waiting update }

cell_path : {c d : Cell} → c.status ≡ d.status → c.waiting ≡ d.waiting → c ≡ d
cell_path p q = λ i. record { status = p i; waiting = q i }

pressed_self :
    (s : System) (id : ℕ) (prev hoped : Option Status)
    → get_status s.store.tasks id ≡ prev
    → view id (pressed s id prev hoped) ≡ cell_press id (view id s) prev hoped
unfolding begin_with view cell_press
pressed_self s id none hoped e = refl
pressed_self s id (some prev) none e = refl
pressed_self s id (some prev) (some hoped) e =
    let u : Update = record { task_id = id; previous = prev; hoped = hoped } in
    cell_path (ground (arith, get_status-apply s.store.tasks id id hoped, e)) (
      filter-append id s.waiting (u ∷ [])
      ∙ ap (λ r. filter (of_task id) s.waiting ++ r) (ground arith))

pressed_other :
    (s : System) (id j : ℕ) (prev hoped : Option Status)
    → j ≢ id
    → view j (pressed s id prev hoped) ≡ view j s
unfolding begin_with view
pressed_other s id j none hoped ne = refl
pressed_other s id j (some prev) none ne = refl
pressed_other s id j (some prev) (some hoped) ne =
    let u : Update = record { task_id = id; previous = prev; hoped = hoped } in
    cell_path (ground (arith, get_status-apply s.store.tasks id j hoped)) (
      filter-append j s.waiting (u ∷ [])
      ∙ ground (arith, append-nil (filter (of_task j) s.waiting)))

settled_tasks :
    (s : State) (u : Update) (a : Answer)
    → (update_end s u a).state.tasks ≡ apply_optimistic_status s.tasks u.task_id (outcome a u)
unfolding update_end apply_rollback_status
settled_tasks s u (accepted a) = refl
settled_tasks s u rejected = refl

settled_self :
    (s : System) (u : Update) (rest : List Update) (a : Answer)
    → view u.task_id (settle s.store a s (some (u, rest))) ≡ record {
      status = map_option (λ _. outcome a u) (view u.task_id s).status;
      waiting = filter (of_task u.task_id) rest;
    }
unfolding view
settled_self s u rest a =
    cell_path
      (ap (λ ts. get_status ts u.task_id) (settled_tasks s.store u a)
        ∙ ground (arith, get_status-apply s.store.tasks u.task_id u.task_id (outcome a u)))
      refl

settled_other :
    (s : System) (u : Update) (rest : List Update) (a : Answer) (j : ℕ)
    → j ≢ u.task_id
    → filter (of_task j) rest ≡ filter (of_task j) s.waiting
    → view j (settle s.store a s (some (u, rest))) ≡ view j s
unfolding view
settled_other s u rest a j ne same =
    cell_path
      (ap (λ ts. get_status ts j) (settled_tasks s.store u a)
        ∙ ground (arith, get_status-apply s.store.tasks u.task_id j (outcome a u)))
      same

step-view_self :
    (x : Step) (s : System) → view (task_of x) (step x s) ≡ cell_step x (view (task_of x) s)
unfolding step cell_step update_begin view
step-view_self (click id action) s =
    pressed_self s id (get_status s.store.tasks id)
      (optimistic_status_for (get_status s.store.tasks id) action) refl
step-view_self (answer id n a) s = elim (take_self id n s.waiting) [
  | inl (p, q) ↦ rw (p, q) (unfold cell_settle in refl)
  | inr (u, rest, p, e, q, r) ↦ rw (p, q) (unfold cell_settle in rw (← e) (settled_self s u rest a))
]

step-view_other : (x : Step) (s : System) (j : ℕ) → j ≢ task_of x → view j (step x s) ≡ view j s
unfolding step update_begin
step-view_other (click id action) s j ne =
    pressed_other s id j (get_status s.store.tasks id)
      (optimistic_status_for (get_status s.store.tasks id) action) ne
step-view_other (answer id n a) s j ne = elim (take_self id n s.waiting) [
  | inl (p, q) ↦ rw p refl
  | inr (u, rest, p, e, q, r) ↦ rw p (settled_other s u rest a j (λ h. ne (h ∙ e)) (r j ne))
]

-- Whatever the order of clicks and answers, those to several requests of one task included, what a
-- task shows and which of its updates wait is what the task's own clicks and answers make of it,
-- in their order: updates of other tasks, accepted or refused, never show in it.
pub view-run :
    (id : ℕ) (steps : List Step) (s : System)
    → view id (run steps s) ≡ cell_run (filter (λ x. task_of x == id) steps) (view id s)
unfolding run cell_run
view-run id [] s = refl
view-run id (x ∷ xs) s = elim (Bool-cases (task_of x == id)) [
  | inl mine ↦ rw mine (
      view-run id xs (step x s)
      ∙ ap (cell_run (filter (λ y. task_of y == id) xs)) (
          subst (λ k. view k (step x s) ≡ cell_step x (view k s)) ((==_iff (task_of x) id).0 mine)
            (step-view_self x s)))
  | inr other ↦ rw other (
      view-run id xs (step x s)
      ∙ ap (cell_run (filter (λ y. task_of y == id) xs))
          (step-view_other x s id (λ e. ground arith)))
]
