-- ===== src/Alarm/AvailableTime/Sums.antt =====
-- availableTimeService.ts: what a call that goes through has found and written.
use task_manger_project.Common.{
  ℕ, refl, inl, inr, Bool, true, Option, none, some, List, [], arith, Option-cases, find, pos,
  negsuc, ◌+◌, ◌-◌, ◌≤◌, ◌≡◌, ◌&&◌, ◌∷◌, ◌++◌, ◌==◌, ◌or◌, if◌then◌else◌, ◌≤ℤ◌,
}
use task_manger_project.Alarm.Database.{Task, DayTime, Db, find_task, update_task}
use task_manger_project.Alarm.Database.Query.{err, ok, committed, ◌>>=◌, Result, of_result, with_tx}
use task_manger_project.Alarm.AvailableTime.{
  not_whole, Amount, upsert_time, total_of, sum_allocated, sum_consumed, remaining, check_duration,
  reserve, new_task, insert_task, is_open_priority, lock_and_get_total, set_available_time,
  complete, reserve_and_create_task, set_time, complete_task, check_available, own_task,
  check_elapsed, whole, complete_row, refund_rows,
}

-- An upsert that takes 0 to the seconds of a new row applies its function to the day's total.
pub total-upsert :
    (u d user date new : ℕ) (f : ℕ → ℕ) (ds : List DayTime)
    → f 0 ≡ new
    → total_of u d (upsert_time user date new f ds)
      ≡ (if u == user && d == date then f (total_of u d ds) else total_of u d ds)
unfolding total_of upsert_time
total-upsert u d user date new f [] h = ground (arith, h)
total-upsert u d user date new f (t ∷ ds) h = ground (arith, total-upsert u d user date new f ds h)

-- The row that is locked does not change any total.
pub locked-total :
    (u d user date : ℕ) (ds : List DayTime)
    → total_of u d (upsert_time user date 0 (λ n. n) ds) ≡ total_of u d ds
locked-total u d user date ds = ground (arith, total-upsert u d user date 0 (λ n. n) ds refl)

reserve_body :
    (user : ℕ) (title : List ℕ) (dur : ℕ) (prio : Bool) (date now : ℕ) (db db' : Db) (row : Task)
    → committed db (reserve user title dur prio date now db) ≡ (ok row, db')
    → (row ≡ new_task db.next_id user title dur prio date now)
      × (db' ≡ record db {
        tasks = row ∷ db.tasks;
        times = upsert_time user date 0 (λ n. n) db.times;
        next_id = db.next_id + 1;
      })
      × (pos dur ≤ℤ remaining user date db)
      × (prio ≡ true → find (is_open_priority user date) db.tasks ≡ none)
unfolding reserve lock_and_get_total insert_task sum_allocated sum_consumed
reserve_body user title dur prio date now db db' row e =
    elim (Option-cases (find (is_open_priority user date) db.tasks)) [
      | inl no' ↦ ground (arith, locked-total user date user date db.times, no')
      | inr (t, yes') ↦ ground (arith, locked-total user date user date db.times, yes')
    ]

-- A reservation that goes through: its duration is in bounds and fits, with priority no other open
-- task of the day has it, and its row and nothing else is new.
pub reserve_lem :
    (user : ℕ) (title : List ℕ) (duration : Option Amount) (prio : Bool) (date now : ℕ)
    (db db' : Db) (row : Task)
    → reserve_and_create_task user title duration prio date now db ≡ (ok row, db')
    → (dur : ℕ) × (check_duration duration ≡ ok dur)
      × (row ≡ new_task db.next_id user title dur prio date now)
      × (db' ≡ record db {
        tasks = row ∷ db.tasks;
        times = upsert_time user date 0 (λ n. n) db.times;
        next_id = db.next_id + 1;
      })
      × (pos dur ≤ℤ remaining user date db)
      × (prio ≡ true → find (is_open_priority user date) db.tasks ≡ none)
unfolding reserve_and_create_task
reserve_lem user title duration prio date now db db' row = of (check_duration duration)
  where
    of :
        (r : Result ℕ)
        → (of_result r >>= λ dur. with_tx (reserve user title dur prio date now)) db ≡ (ok row, db')
        → (dur : ℕ) × (r ≡ ok dur)
          × (row ≡ new_task db.next_id user title dur prio date now)
          × (db' ≡ record db {
            tasks = row ∷ db.tasks;
            times = upsert_time user date 0 (λ n. n) db.times;
            next_id = db.next_id + 1;
          })
          × (pos dur ≤ℤ remaining user date db)
          × (prio ≡ true → find (is_open_priority user date) db.tasks ≡ none)
    of (ok dur) e =
        let (new, changed, fits, alone) = reserve_body user title dur prio date now db db' row e in
        (dur, refl, new, changed, fits, alone)
    of (err x) e = absurd (cc)

complete_body :
    (user id spent completed_at now : ℕ) (db db' : Db) (refund : ℕ)
    → committed db (complete user id spent completed_at now db) ≡ (ok refund, db')
    → (t : Task) × (find_task id db.tasks ≡ some t)
      × (t.user_id ≡ user)
      × (refund ≡ (t.estimated_duration or 0) - spent)
      × (db' ≡ record db {
        tasks = update_task id (complete_row spent completed_at) db.tasks;
        refunds = refund_rows user id refund now ++ db.refunds;
      })
unfolding complete own_task
complete_body user id spent completed_at now db db' refund e =
    elim (Option-cases (find_task id db.tasks)) [
      | inl no' ↦ absurd (ground (arith, no', e))
      | inr (t, yes') ↦
          (t, yes', ground (arith, yes', e), ground (arith, yes', e), ground (arith, yes', e))
    ]

-- A completion that goes through: the task is there and the user's own, its unused time is refunded,
-- and its row and the ledger of refunds and nothing else change.
pub complete_lem :
    (user id : ℕ) (elapsed : Amount) (completed_at now : ℕ) (db db' : Db) (refund : ℕ)
    → complete_task user id elapsed completed_at now db ≡ (ok refund, db')
    → (spent : ℕ) × (elapsed ≡ whole (pos spent))
      × (t : Task) × (find_task id db.tasks ≡ some t)
      × (t.user_id ≡ user)
      × (refund ≡ (t.estimated_duration or 0) - spent)
      × (db' ≡ record db {
        tasks = update_task id (complete_row spent completed_at) db.tasks;
        refunds = refund_rows user id refund now ++ db.refunds;
      })
unfolding complete_task check_elapsed
complete_lem user id (whole (pos n)) completed_at now db db' refund e =
    let (t, there, own, refunded, changed) =
      complete_body user id n completed_at now db db' refund e in
    (n, refl, t, there, own, refunded, changed)
complete_lem user id (whole (negsuc n)) completed_at now db db' refund e = absurd (cc)
complete_lem user id not_whole completed_at now db db' refund e = absurd (cc)

set_body :
    (user n date : ℕ) (db db' : Db) (allocated : ℕ)
    → committed db (set_time user n date db) ≡ (ok allocated, db')
    → (allocated ≡ sum_allocated user date db)
      × (allocated ≤ n)
      × (db' ≡ record db {
        times = upsert_time user date n (λ _. n) (upsert_time user date 0 (λ m. m) db.times);
      })
unfolding set_time lock_and_get_total sum_allocated
set_body user n date db db' allocated e = ground arith

-- A setting that goes through covers what is allocated, and changes the day's total and nothing else.
pub set_lem :
    (user : ℕ) (seconds : Amount) (date : ℕ) (db db' : Db) (allocated : ℕ)
    → set_available_time user seconds date db ≡ (ok allocated, db')
    → (n : ℕ) × (seconds ≡ whole (pos n))
      × (allocated ≡ sum_allocated user date db)
      × (allocated ≤ n)
      × (db' ≡ record db {
        times = upsert_time user date n (λ _. n) (upsert_time user date 0 (λ m. m) db.times);
      })
unfolding set_available_time check_available
set_lem user (whole (pos n)) date db db' allocated e =
    let (sum_is, covers, changed) = set_body user n date db db' allocated e in
    (n, refl, sum_is, covers, changed)
set_lem user (whole (negsuc n)) date db db' allocated e = absurd (cc)
set_lem user not_whole date db db' allocated e = absurd (cc)

-- The totals that a setting leaves.
pub set_totals :
    (u d user date n : ℕ) (ds : List DayTime)
    → total_of u d (upsert_time user date n (λ _. n) (upsert_time user date 0 (λ m. m) ds))
      ≡ (if u == user && d == date then n else total_of u d ds)
set_totals u d user date n ds = ground (
  arith,
  total-upsert u d user date n (λ _. n) (upsert_time user date 0 (λ m. m) ds) refl,
  locked-total u d user date ds,
)
