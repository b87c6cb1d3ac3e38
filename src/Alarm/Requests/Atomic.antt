-- ===== src/Alarm/Requests/Atomic.antt =====
-- The transactions of availableTimeService.ts and taskStatusService.ts: one that throws changes
-- nothing, and what a change of status has done when it goes through.
use mathlib.Core.Path.{subst}
use task_manger_project.Common.{
  ℕ, refl, sym, inl, inr, Bool, true, false, Option, some, List, arith, Option-cases, ℤ, ◌≡◌, ◌⊎◌,
}
use task_manger_project.Alarm.Transitions.{
  Action, TransitionResult, transition, valid, invalid, derive_display_status, TimerStatus,
}
use task_manger_project.Alarm.Database.{Task, Db, find_task, update_task}
use task_manger_project.Alarm.Database.Query.{
  Result, ok, err, Query, committed, with_tx, of_result, ◌>>=◌,
}
use task_manger_project.Alarm.AvailableTime.{
  Amount, own_task, check_duration, check_elapsed, check_available, reserve,
  reserve_and_create_task, complete, complete_task, set_time, set_available_time,
}
use task_manger_project.Alarm.TaskStatus.{
  Receipt, is_overdue, changed_row, change_status, apply_action,
}
use task_manger_project.Alarm.Requests.{then_invalidate, get_priority, World}

module _ {A : Type 0} where
  abbrev pub Atomic : Db → Result A × Db → Type 0
  Atomic db (ok a, db') = Unit
  Atomic db (err e, db') = db' ≡ db

  committed-Atomic : (db : Db) (r : Result A × Db) → Atomic db (committed db r)
  committed-Atomic db (ok a, db') = tt
  committed-Atomic db (err e, db') = refl

  pub checked-Atomic :
      {B : Type 0} (db : Db) (r : Result B) (body : B → Query A)
      → Atomic db ((of_result r >>= λ b. with_tx (body b)) db)
  checked-Atomic db (ok b) body = committed-Atomic db (body b db)
  checked-Atomic db (err e) body = refl

  -- What holds before an atomic call holds after it, if it holds after one that goes through.
  pub after :
      (P : Db → Type 0) (db : Db) (r : Result A × Db)
      → Atomic db r
      → P db
      → ((a : A) (db' : Db) → r ≡ (ok a, db') → P db')
      → P r.1
  after P db (ok a, db') h p k = k a db' refl
  after P db (err e, db') h p k = subst P (sym h) p

  -- The cache does not matter to the database.
  pub invalidated-db :
      (user : ℕ) (drops : Bool) (w : World) (r : Result A × Db)
      → (then_invalidate user drops w r).1.db ≡ r.1
  invalidated-db user false w (ok a, db) = refl
  invalidated-db user true w (ok a, db) = refl
  invalidated-db user drops w (err e, db) = refl

pub reserve-Atomic :
    (user : ℕ) (title : List ℕ) (duration : Option Amount) (prio : Bool) (date now : ℕ) (db : Db)
    → Atomic db (reserve_and_create_task user title duration prio date now db)
unfolding reserve_and_create_task
reserve-Atomic user title duration prio date now db =
    checked-Atomic db (check_duration duration) (λ dur. reserve user title dur prio date now)

pub complete-Atomic :
    (user id : ℕ) (elapsed : Amount) (completed_at now : ℕ) (db : Db)
    → Atomic db (complete_task user id elapsed completed_at now db)
unfolding complete_task
complete-Atomic user id elapsed completed_at now db =
    checked-Atomic db (check_elapsed elapsed) (λ n. complete user id n completed_at now)

pub set-Atomic :
    (user : ℕ) (seconds : Amount) (date : ℕ) (db : Db)
    → Atomic db (set_available_time user seconds date db)
unfolding set_available_time
set-Atomic user seconds date db =
    checked-Atomic db (check_available seconds) (λ n. set_time user n date)

pub act-Atomic :
    (user id : ℕ) (action : Action) (elapsed : Option ℤ) (now : ℕ) (db : Db)
    → Atomic db (apply_action user id action elapsed now db)
unfolding apply_action
act-Atomic user id action elapsed now db =
    committed-Atomic db (change_status user id action elapsed now db)

Valid-cases : (r : TransitionResult) → ((o : _) × (r ≡ valid o)) ⊎ ((m : _) × (r ≡ invalid m))
Valid-cases (valid o) = inl (o, refl)
Valid-cases (invalid m) = inr (m, refl)

-- The task is there and the user's own, and its row and nothing else changes.
pub act_lem :
    (user id : ℕ) (action : Action) (elapsed : Option ℤ) (now : ℕ) (db db' : Db) (r : Receipt)
    → apply_action user id action elapsed now db ≡ (ok r, db')
    → (t : Task) × (find_task id db.tasks ≡ some t)
      × (t.user_id ≡ user)
      × (timer : TimerStatus) × (db'
          ≡ record db { tasks = update_task id (changed_row action timer elapsed now) db.tasks })
unfolding apply_action change_status own_task
act_lem user id action elapsed now db db' r e = elim (Option-cases (find_task id db.tasks)) [
  | inl no' ↦ absurd (ground (arith, no', e))
  | inr (t, yes') ↦
      elim (Valid-cases
        (transition (derive_display_status t.status t.timer_status (is_overdue t now)) action)) [
          | inl (o, fine) ↦ (
            t,
            yes',
            ground (arith, yes', fine, e),
            o.timer_status,
            ground (arith, yes', fine, e),
          )
          | inr (m, wrong) ↦ absurd (ground (arith, yes', wrong, e))
        ]
]

-- A question about the priority leaves the database alone.
pub get_priority-db :
    (user : ℕ) (asked : Option (Option ℕ)) (date : ℕ) (w : World)
    → (get_priority user asked date w).1.db ≡ w.db
unfolding get_priority
get_priority-db user asked date w = ground arith
