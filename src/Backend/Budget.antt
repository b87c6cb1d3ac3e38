-- ===== src/Backend/Budget.antt =====
-- mock.js: the available time against the estimates of the tasks that wait.
use task_manger_project.Common.{
  ℕ, refl, ap, Bool, true, false, not, List, [], arith, filter, any, All, ℤ, pos, pos_part,
  neg_part, +ℤ_parts, -ℤ_parts, eq_of_parts, ◌+◌, ◌≤◌, ◌≡◌, ◌≢◌, ◌∷◌, ◌==◌, if◌then◌else◌, ◌+ℤ◌,
  ◌-ℤ◌, ◌≤ℤ◌,
}
use task_manger_project.Backend.{
  Server, Task, Input, Action, archived, completed, restores, is_pending, sum, est_seconds_of,
  allocated_seconds, act, change, create_task, update_task_status, delete_task, recreate_task,
}
use task_manger_project.Backend.Notices.{resolve_delete_confirm}
use task_manger_project.Backend.Time.{
  Reply, done, is_open_priority, budgeted, create_task_with_budget, complete_task_with_refund,
  set_available_time, get_available_time,
}

-- An operation that changes tasks or the time; one that the server refuses changes nothing. The
-- others leave both alone.
pub data Op : Type 0 where
  budgets_op creates_op : Input → ℕ → ℕ → Op
  updates_op : ℕ → Action → Op
  deletes_op : ℕ → Op
  recreates_op : Task → Op
  completes_op : ℕ → ℕ → Op
  sets_op : ℤ → Op
  resolves_op : ℕ → Bool → Op

abbrev pub or_same : Server → Reply Server → Server
or_same s (done s') = s'
or_same s _ = s

unfoldable pub apply : Op → Server → Server
unfolding create_task_with_budget create_task update_task_status delete_task recreate_task
    complete_task_with_refund set_available_time resolve_delete_confirm
apply (budgets_op input now later) s = or_same s (create_task_with_budget s input now later)
apply (creates_op input now later) s = (create_task s input now later).0
apply (updates_op id action) s = update_task_status s id action
apply (deletes_op id) s = delete_task s id
apply (recreates_op task) s = recreate_task s task
apply (completes_op id elapsed) s = (complete_task_with_refund s id elapsed).0
apply (sets_op seconds) s = or_same s (set_available_time s seconds)
apply (resolves_op id complete) s = resolve_delete_confirm s id complete

unfoldable pub apply_all : List Op → Server → Server
apply_all [] s = s
apply_all (op ∷ ops) s = apply_all ops (apply op s)

-- No two tasks have the same id.
abbrev pub Unique : List Task → Type 0
Unique [] = Unit
Unique (t ∷ ts) = All (λ u. u.task_id ≢ t.task_id) ts × Unique ts

-- The tasks that wait fit into the available time.
unfoldable pub IsBudgeted : Server → Type 0
IsBudgeted s = pos (allocated_seconds s.tasks) ≤ℤ s.available

-- The operations that do not put a task on the list, or look at the budget first.
abbrev pub IsChecked : Op → Type 0
IsChecked (creates_op _ _ _) = ⊥
IsChecked (recreates_op _) = ⊥
IsChecked (updates_op _ restores) = ⊥
IsChecked _ = Unit

abbrev pub waiting_seconds : Task → ℕ
waiting_seconds t = if is_pending t.status then est_seconds_of t else 0

pub allocated-cons :
    (t : Task) (ts : List Task)
    → allocated_seconds (t ∷ ts) ≡ waiting_seconds t + allocated_seconds ts
unfolding allocated_seconds sum
allocated-cons t ts = ground arith

-- A change that makes no task wait longer takes nothing from the budget.
allocated-change :
    (id : ℕ) (f : Task → Task) (ts : List Task)
    → ((t : Task) → waiting_seconds (f t) ≤ waiting_seconds t)
    → allocated_seconds (change id f ts) ≤ allocated_seconds ts
unfolding change
allocated-change id f [] le = omega arith
allocated-change id f (t ∷ ts) le = ground (
  arith,
  allocated-cons t ts,
  allocated-cons t (change id f ts),
  allocated-cons (f t) (change id f ts),
  allocated-change id f ts le,
  le t,
)

allocated-filter :
    (p : Task → Bool) (ts : List Task) → allocated_seconds (filter p ts) ≤ allocated_seconds ts
allocated-filter p [] = omega arith
allocated-filter p (t ∷ ts) =
    ground (arith, allocated-cons t ts, allocated-cons t (filter p ts), allocated-filter p ts)

act-waiting : (a : Action) (t : Task) → a ≢ restores → waiting_seconds (act a t) ≤ waiting_seconds t
unfolding act est_seconds_of
act-waiting restores t n = absurd (n refl)
act-waiting _ t n = ground arith

-- A task that is accepted with a budget takes its duration from the remaining time, which was long
-- enough for it; it stands first on the list; and if it has priority, no other open task had.
pub budgeted_charge :
    (s s' : Server) (input : Input) (now later : ℕ)
    → create_task_with_budget s input now later ≡ done s'
    → ((get_available_time s).remaining
        ≡ (get_available_time s').remaining +ℤ pos input.estimated_duration)
      × (pos input.estimated_duration ≤ℤ (get_available_time s).remaining)
      × (s'.tasks ≡ budgeted s input now later ∷ s.tasks)
      × (input.is_priority ≡ true → any is_open_priority s.tasks ≡ false)
unfolding create_task_with_budget get_available_time budgeted est_seconds_of
budgeted_charge s s' input now later e =
    let new = budgeted s input now later in
    let rest = s.available -ℤ pos (allocated_seconds s.tasks) in
    let rest' = s.available -ℤ pos (allocated_seconds (new ∷ s.tasks)) in
    let charged : rest ≡ rest' +ℤ pos input.estimated_duration = eq_of_parts _ _ (
      omega (
        arith,
        allocated-cons new s.tasks,
        -ℤ_parts s.available (pos (allocated_seconds s.tasks)),
        -ℤ_parts s.available (pos (allocated_seconds (new ∷ s.tasks))),
        +ℤ_parts rest' (pos input.estimated_duration),
      )) in
    ground (arith, charged)

budgets-IsBudgeted :
    (s : Server) (input : Input) (now later : ℕ) (r : Reply Server)
    → create_task_with_budget s input now later ≡ r
    → IsBudgeted s
    → IsBudgeted (or_same s r)
unfolding IsBudgeted
budgets-IsBudgeted s input now later (done s') e h =
    let charge = budgeted_charge s s' input now later e in
    let rest' = s'.available -ℤ pos (allocated_seconds s'.tasks) in
    unfold get_available_time in
    omega (
      arith,
      ap pos_part charge.0,
      ap neg_part charge.0,
      charge.1,
      -ℤ_parts s'.available (pos (allocated_seconds s'.tasks)),
      +ℤ_parts rest' (pos input.estimated_duration),
    )
budgets-IsBudgeted s input now later _ e h = h

closed-waiting :
    (complete : Bool) (t : Task)
    → waiting_seconds (record t { status = if complete then completed else archived })
      ≤ waiting_seconds t
closed-waiting complete t = ground arith

sets-IsBudgeted :
    (s : Server) (seconds : ℤ)
    → IsBudgeted s
    → IsBudgeted (or_same s (set_available_time s seconds))
unfolding IsBudgeted set_available_time
sets-IsBudgeted s seconds h = ground arith

checked-ne : (id : ℕ) (a : Action) → IsChecked (updates_op id a) → a ≢ restores
checked-ne id restores c = absurd c
checked-ne id _ c = λ h. ground arith

apply-IsBudgeted : (op : Op) (s : Server) → IsChecked op → IsBudgeted s → IsBudgeted (apply op s)
unfolding IsBudgeted apply
apply-IsBudgeted (budgets_op input now later) s c h =
    budgets-IsBudgeted s input now later (create_task_with_budget s input now later) refl h
apply-IsBudgeted (updates_op id action) s c h =
    unfold update_task_status in
    omega (
      arith,
      allocated-change id (act action) s.tasks (λ t. act-waiting action t (checked-ne id action c)),
    )
apply-IsBudgeted (deletes_op id) s c h =
    omega (arith, allocated-filter (λ t. not (t.task_id == id)) s.tasks)
apply-IsBudgeted (completes_op id elapsed) s c h =
    omega
      (arith, allocated-change id (λ t. record t { status = completed }) s.tasks (λ t. omega arith))
apply-IsBudgeted (sets_op seconds) s c h = sets-IsBudgeted s seconds h
apply-IsBudgeted (resolves_op id complete) s c h = omega (
  arith,
  allocated-change id (λ t. record t { status = if complete then completed else archived }) s.tasks
      (λ t. closed-waiting complete t),
)
apply-IsBudgeted (creates_op _ _ _) s c h = absurd c
apply-IsBudgeted (recreates_op _) s c h = absurd c

-- From a server whose tasks fit into the available time, no operations on tasks, on the time, or on a
-- notice make them exceed it, where a task comes onto the list only through the check of the budget
-- and with a duration that is a whole number of seconds and not negative.
pub apply_all-IsBudgeted :
    (ops : List Op) (s : Server) → All IsChecked ops → IsBudgeted s → IsBudgeted (apply_all ops s)
unfolding apply_all
apply_all-IsBudgeted [] s c h = h
apply_all-IsBudgeted (op ∷ ops) s c h =
    apply_all-IsBudgeted ops (apply op s) c.1 (apply-IsBudgeted op s c.0 h)
