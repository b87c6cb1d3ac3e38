-- ===== src/Alarm/Requests/Steps.antt =====
-- What every request does to the database, from what the four transactions and the two updates do.
use mathlib.Core.Path.{subst}
use task_manger_project.Common.{
  ℕ, sym, inl, inr, Bool, true, false, Option, none, some, List, arith, Bool-cases, length, any, ℤ,
  ◌≡◌, ◌==◌,
}
use task_manger_project.Alarm.Transitions.{Action}
use task_manger_project.Alarm.Database.{Task, Db}
use task_manger_project.Alarm.Database.Query.{Result, ok}
use task_manger_project.Alarm.AvailableTime.{
  Amount, reserve_and_create_task, complete_task, set_available_time,
}
use task_manger_project.Alarm.TaskStatus.{Receipt, apply_action}
use task_manger_project.Alarm.Priority.{demote, release_priority}
use task_manger_project.Alarm.Sanitize.{trim}
use task_manger_project.Alarm.Requests.{
  World, Field, Op, posts, completes, puts, acts, asks, releases, deletes, to_number, is_self,
  archive_rows, post_task, patch_complete, put_available_time, patch_status, patch_priority,
  delete_task, handle, then_invalidate, is_kept,
}
use task_manger_project.Alarm.Requests.Atomic.{
  Atomic, after, invalidated-db, get_priority-db, reserve-Atomic, complete-Atomic, set-Atomic,
  act-Atomic,
}

-- A relation between the database before and after a request of a user, where the elapsed time that
-- a change of status reports is `Fit`.
pub record Steps (Fit : Option ℤ → Type 0) (R : ℕ → Db → Db → Type 0) : Type 0 where
  pub stays : (user : ℕ) (db : Db) → R user db db
  pub reserves :
      (user : ℕ) (title : List ℕ) (duration : Option Amount) (prio : Bool) (date now : ℕ)
      (db db' : Db) (row : Task)
      → reserve_and_create_task user title duration prio date now db ≡ (ok row, db')
      → R user db db'
  pub completing :
      (user id : ℕ) (elapsed : Amount) (completed_at now : ℕ) (db db' : Db) (refund : ℕ)
      → complete_task user id elapsed completed_at now db ≡ (ok refund, db')
      → R user db db'
  pub setting :
      (user : ℕ) (seconds : Amount) (date : ℕ) (db db' : Db) (allocated : ℕ)
      → set_available_time user seconds date db ≡ (ok allocated, db')
      → R user db db'
  pub acting :
      (user id : ℕ) (action : Action) (elapsed : Option ℤ) (now : ℕ) (db db' : Db) (r : Receipt)
      → Fit elapsed
      → apply_action user id action elapsed now db ≡ (ok r, db')
      → R user db db'
  pub demoting : (user id : ℕ) (db : Db) → R user db (record db { tasks = demote user id db.tasks })
  pub archiving :
      (user id : ℕ) (db : Db) → R user db (record db { tasks = archive_rows user id db.tasks })

-- The user of the token of a request.
abbrev pub user_of : Op → ℕ
user_of (posts user _ _ _ _ _) = user
user_of (completes user _ _ _ _) = user
user_of (puts user _ _ _) = user
user_of (acts user _ _ _ _) = user
user_of (asks user _ _) = user
user_of (releases user _ _) = user
user_of (deletes user _) = user

abbrev pub IsFit : (Option ℤ → Type 0) → Op → Type 0
IsFit Fit (acts _ _ _ elapsed _) = Fit elapsed
IsFit Fit _ = Unit

-- Where any time is fit.
pub always : (op : Op) → IsFit (λ e. Unit) op
always (acts _ _ _ _ _) = tt
always _ = tt

module _ (Fit : Option ℤ → Type 0) (R : ℕ → Db → Db → Type 0) (step : Steps Fit R) where
  -- An atomic call, with the cache or without.
  called :
      {A : Type 0} (user : ℕ) (drops : Bool) (w : World) (r : Result A × Db)
      → Atomic w.db r
      → ((a : A) (db' : Db) → r ≡ (ok a, db') → R user w.db db')
      → R user w.db (then_invalidate user drops w r).1.db
  called user drops w r h k =
      subst (R user w.db) (sym (invalidated-db user drops w r))
        (after (R user w.db) w.db r h (step.stays user w.db) k)

  posted :
      (user : ℕ) (title : Option (List ℕ)) (duration : Field) (prio : Bool) (date now : ℕ)
      (w : World)
      → R user w.db (post_task user title duration prio date now w).1.db
  unfolding post_task
  posted user none duration prio date now w = step.stays user w.db
  posted user (some title) duration prio date now w =
      let amount = some (to_number duration) in
      let r = reserve_and_create_task user (trim title) amount prio date now w.db in
      elim (Bool-cases (length (trim title) == 0)) [
        | inl empty ↦ rw empty (step.stays user w.db)
        | inr full ↦ rw full (
            called user prio w r (reserve-Atomic user (trim title) amount prio date now w.db)
              (λ row db' e. step.reserves user (trim title) amount prio date now w.db db' row e))
      ]

  completed :
      (user : ℕ) (id : Option ℕ) (elapsed : Field) (completed_at now : ℕ) (w : World)
      → R user w.db (patch_complete user id elapsed completed_at now w).1.db
  unfolding patch_complete
  completed user none elapsed completed_at now w = step.stays user w.db
  completed user (some id) elapsed completed_at now w =
      called user true w _ (complete-Atomic user id (to_number elapsed) completed_at now w.db)
        (λ refund db' e.
          step.completing user id (to_number elapsed) completed_at now w.db db' refund e)

  put :
      (user : ℕ) (id : Option ℕ) (seconds : Field) (date : ℕ) (w : World)
      → R user w.db (put_available_time user id seconds date w).1.db
  unfolding put_available_time
  put user id seconds date w = elim (Bool-cases (is_self user id)) [
    | inl self ↦ rw self (
        called user false w (set_available_time user (to_number seconds) date w.db)
          (set-Atomic user (to_number seconds) date w.db)
          (λ allocated db' e. step.setting user (to_number seconds) date w.db db' allocated e))
    | inr other ↦ rw other (step.stays user w.db)
  ]

  acted :
      (user : ℕ) (id : Option ℕ) (action : Option Action) (elapsed : Option ℤ) (now : ℕ) (w : World)
      → Fit elapsed
      → R user w.db (patch_status user id action elapsed now w).1.db
  unfolding patch_status
  acted user none action elapsed now w fit = step.stays user w.db
  acted user (some id) none elapsed now w fit = step.stays user w.db
  acted user (some id) (some action) elapsed now w fit =
      called user true w _ (act-Atomic user id action elapsed now w.db)
        (λ receipt db' e. step.acting user id action elapsed now w.db db' receipt fit e)

  released :
      (user : ℕ) (id : Option ℕ) (flag : Option Bool) (w : World)
      → R user w.db (patch_priority user id flag w).1.db
  unfolding patch_priority release_priority
  released user none flag w = step.stays user w.db
  released user (some id) flag w = ground (arith, step.stays user w.db, step.demoting user id w.db)

  deleted : (user : ℕ) (id : Option ℕ) (w : World) → R user w.db (delete_task user id w).1.db
  unfolding delete_task
  deleted user none w = step.stays user w.db
  deleted user (some id) w = elim (Bool-cases (any (is_kept user id) w.db.tasks)) [
    | inl there ↦ rw there (step.archiving user id w.db)
    | inr gone ↦ rw gone (step.stays user w.db)
  ]

  pub handle-step : (op : Op) (w : World) → IsFit Fit op → R (user_of op) w.db (handle op w).db
  unfolding handle
  handle-step (posts user title duration prio date now) w fit =
      posted user title duration prio date now w
  handle-step (completes user id elapsed at now) w fit = completed user id elapsed at now w
  handle-step (puts user id seconds date) w fit = put user id seconds date w
  handle-step (acts user id action elapsed now) w fit = acted user id action elapsed now w fit
  handle-step (asks user asked date) w fit =
      subst (R user w.db) (sym (get_priority-db user asked date w)) (step.stays user w.db)
  handle-step (releases user id flag) w fit = released user id flag w
  handle-step (deletes user id) w fit = deleted user id w
