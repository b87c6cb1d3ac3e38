-- ===== src/TaskStore/Updates.antt =====
-- TaskContext.jsx: one optimistic update of a status, from the click to the server's answer.
use task_manger_project.Common.{
  ℕ, refl, sym, ap, true, Option, none, some, List, [], arith, ◌≡◌, ◌∙◌, ◌≢◌, ◌∷◌,
}
use task_manger_project.Tasks.{
  Task, Status, Action, RawStatus, get_status, optimistic_status_for, apply_optimistic_status,
  apply_rollback_status,
}
use task_manger_project.Tasks.Mutators.{Unique, rollback-optimistic, get_status-apply}
use task_manger_project.TaskStore.{
  State, Update, accepted, rejected, final_status, update_begin, begin_with, update_end,
  task_status_changed,
}

-- What a call that sends a request has found and done.
begin_found :
    (s s' : State) (id : ℕ) (u : Update) (prev hoped : Option Status)
    → begin_with s id prev hoped ≡ (s', some u)
    → (prev ≡ some u.previous)
      × (hoped ≡ some u.hoped)
      × (u.task_id ≡ id)
      × (s'.tasks ≡ apply_optimistic_status s.tasks id u.hoped)
unfolding begin_with
begin_found s s' id u (some p) (some h) e = ground arith
begin_found s s' id u none _ e = absurd (cc)
begin_found s s' id u (some p) none e = absurd (cc)

update_begin_lem :
    (s s' : State) (id : ℕ) (action : Action) (u : Update)
    → update_begin s id action ≡ (s', some u)
    → (get_status s.tasks id ≡ some u.previous)
      × (optimistic_status_for (some u.previous) action ≡ some u.hoped)
      × (u.task_id ≡ id)
      × (s'.tasks ≡ apply_optimistic_status s.tasks id u.hoped)
unfolding update_begin
update_begin_lem s s' id action u e =
    let (prev, hoped, same, changed) =
      begin_found s s' id u (get_status s.tasks id)
        (optimistic_status_for (get_status s.tasks id) action) e in
    (prev, sym (ap (λ p. optimistic_status_for p action) prev) ∙ hoped, same, changed)

get_status_self :
    (ts : List Task) (id : ℕ) (prev next : Status)
    → get_status ts id ≡ some prev
    → get_status (apply_optimistic_status ts id next) id ≡ some next
get_status_self ts id prev next e = ground (arith, get_status-apply ts id id next, e)

get_status_ne :
    (ts : List Task) (id j : ℕ) (next : Status)
    → j ≢ id
    → get_status (apply_optimistic_status ts id next) j ≡ get_status ts j
get_status_ne ts id j next h = ground (arith, get_status-apply ts id j next)

-- In a list whose ids are distinct, a click shows the action's status at once. If the server
-- refuses, the list of tasks is again exactly what it was before the click, the call returns the
-- status from before, `onError` is called and nothing is announced to other tabs.
pub refused_restores :
    (s s' : State) (id : ℕ) (action : Action) (u : Update)
    → Unique s.tasks
    → update_begin s id action ≡ (s', some u)
    → let done = update_end s' u rejected in
      (get_status s'.tasks id ≡ optimistic_status_for (get_status s.tasks id) action)
      × (done.state.tasks ≡ s.tasks)
      × (some done.returned ≡ get_status s.tasks id)
      × (done.on_error ≡ true)
      × (done.events ≡ [])
unfolding update_end
refused_restores s s' id action u v e =
    let (prev, hoped, same, changed) = update_begin_lem s s' id action u e in
    (
      rw changed (get_status_self s.tasks id u.previous u.hoped prev)
          ∙ sym hoped
          ∙ ap (λ p. optimistic_status_for p action) (sym prev),
      rw (same, changed) (rollback-optimistic s.tasks id u.previous u.hoped v prev),
      sym prev,
      refl,
      refl,
    )

-- If the server accepts, the task has the status of the answer, or the action's own status where the
-- answer names none; every other task keeps its status; the call returns the new status and
-- announces it.
pub accepted_settles :
    (s s' : State) (id : ℕ) (action : Action) (u : Update) (answer : Option RawStatus)
    → update_begin s id action ≡ (s', some u)
    → let done = update_end s' u (accepted answer) in
      (get_status done.state.tasks id ≡ some (final_status answer u.hoped))
      × ((j : ℕ) → j ≢ id → get_status done.state.tasks j ≡ get_status s.tasks j)
      × (done.returned ≡ final_status answer u.hoped)
      × (done.events ≡ task_status_changed id (final_status answer u.hoped) ∷ [])
unfolding update_end
accepted_settles s s' id action u answer e =
    let (prev, hoped, same, changed) = update_begin_lem s s' id action u e in
    let next = final_status answer u.hoped in
    (
      rw (same, changed)
          (get_status_self (apply_optimistic_status s.tasks id u.hoped) id u.hoped next
            (get_status_self s.tasks id u.previous u.hoped prev)),
      λ j other.
          rw (same, changed)
            (get_status_ne (apply_optimistic_status s.tasks id u.hoped) id j next other
              ∙ get_status_ne s.tasks id j u.hoped other),
      refl,
      rw same,
    )

-- Two updates of one task overlap. The second is accepted, and then the first is refused: the task
-- is put back to the status from before the first click, over the one that the server confirmed.
pub stale_rollback :
    (s s' s'' : State) (id : ℕ) (first second : Action) (u w : Update) (answer : Option RawStatus)
    → update_begin s id first ≡ (s', some u)
    → update_begin s' id second ≡ (s'', some w)
    → let confirmed = (update_end s'' w (accepted answer)).state in
      let last = (update_end confirmed u rejected).state in
      (get_status confirmed.tasks id ≡ some (final_status answer w.hoped))
      × (get_status last.tasks id ≡ get_status s.tasks id)
unfolding update_end apply_rollback_status
stale_rollback s s' s'' id first second u w answer e f =
    let (prev, hoped, same, changed) = update_begin_lem s s' id first u e in
    let confirmed = accepted_settles s' s'' id second w answer f in
    let last_tasks = (update_end s'' w (accepted answer)).state.tasks in
    (
      confirmed.0,
      rw same (get_status_self last_tasks id (final_status answer w.hoped) u.previous confirmed.0)
          ∙ sym prev,
    )
