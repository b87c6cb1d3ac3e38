-- ===== src/Alarm/Requests/Funded.antt =====
-- The requests on tasks: what is allocated stays within the available time.
use mathlib.Core.Path.{subst}
use task_manger_project.Common.{
  ℕ, refl, sym, ap, inl, inr, Bool, Option, List, [], arith, Bool-cases, All, ℤ, ◌+◌, ◌≤◌, ◌≡◌, ◌∙◌,
  ◌&&◌, ◌∷◌, ◌==◌, if◌then◌else◌,
}
use task_manger_project.Alarm.Transitions.{Action, TimerStatus}
use task_manger_project.Alarm.Database.{Task, Db, update_task, sum, of_day}
use task_manger_project.Alarm.Database.Query.{ok}
use task_manger_project.Alarm.AvailableTime.{
  Amount, total_of, sum_allocated, sum_consumed, allocated_seconds, complete_row, new_task,
  reserve_and_create_task, set_available_time,
}
use task_manger_project.Alarm.AvailableTime.Sums.{
  locked-total, reserve_lem, complete_lem, set_lem, set_totals,
}
use task_manger_project.Alarm.TaskStatus.{changed_row}
use task_manger_project.Alarm.Priority.{demote}
use task_manger_project.Alarm.Requests.{World, Op, handle, handle_all, archive_rows}
use task_manger_project.Alarm.Requests.Atomic.{act_lem}
use task_manger_project.Alarm.Requests.Steps.{Steps, IsFit, handle-step}
use task_manger_project.Alarm.Requests.Estimates.{
  IsFunded, sum_update_le, sum-demote, sum-archive, completed_less, changed_less, fits_le,
  consumed_natural, IsNatural, AllNatural,
}

-- The sum with a new row, on the day of the row and on another.
paid :
    (user : ℕ) (title : List ℕ) (dur : ℕ) (prio : Bool) (date now : ℕ) (db : Db) (u d : ℕ)
    → dur + sum (allocated_seconds user date) db.tasks ≤ total_of user date db.times
    → sum (allocated_seconds u d) db.tasks ≤ total_of u d db.times
    → allocated_seconds u d (new_task db.next_id user title dur prio date now)
        + sum (allocated_seconds u d) db.tasks
      ≤ total_of u d db.times
paid user title dur prio date now db u d enough h =
    let fresh = new_task db.next_id user title dur prio date now in
    elim (Bool-cases (of_day u d fresh)) [
      | inl yes' ↦
          let us : user ≡ u = ground (arith, yes') in
          let ds : date ≡ d = ground (arith, yes') in
          let own : allocated_seconds user date fresh ≡ dur = ground arith in
          subst
            (λ x.
              allocated_seconds x d fresh + sum (allocated_seconds x d) db.tasks
              ≤ total_of x d db.times)
            us
            (subst
              (λ x.
                allocated_seconds user x fresh + sum (allocated_seconds user x) db.tasks
                ≤ total_of user x db.times)
              ds (omega (arith, own, enough)))
      | inr no' ↦
          let none' : allocated_seconds u d fresh ≡ 0 = rw no' refl in omega (arith, none', h)
    ]

reserved-IsFunded :
    (user : ℕ) (title : List ℕ) (duration : Option Amount) (prio : Bool) (date now : ℕ)
    (db db' : Db) (row : Task)
    → reserve_and_create_task user title duration prio date now db ≡ (ok row, db')
    → IsFunded db × AllNatural db.tasks
    → IsFunded db' × AllNatural db'.tasks
unfolding IsFunded sum_allocated sum_consumed sum
reserved-IsFunded user title duration prio date now db db' row e (h, n) =
    let (dur, checked, new, changed, fits, alone) =
      reserve_lem user title duration prio date now db db' row e in
    let fresh = new_task db.next_id user title dur prio date now in
    let same : db'.tasks ≡ fresh ∷ db.tasks =
      ap (λ x. x.tasks) changed ∙ ap (λ r. r ∷ db.tasks) new in
    let enough =
      fits_le (total_of user date db.times) (sum (allocated_seconds user date) db.tasks) dur _ fits
        (consumed_natural user date db.tasks n) in
    (
      λ u d.
          rw (same, ap (λ x. x.times) changed, locked-total u d user date db.times)
            (paid user title dur prio date now db u d enough (h u d)),
      subst AllNatural (sym same) (omega arith, n),
    )

update-AllNatural :
    (id : ℕ) (f : Task → Task) (ts : List Task)
    → ((t : Task) → IsNatural t.elapsed_time → IsNatural (f t).elapsed_time)
    → AllNatural ts
    → AllNatural (update_task id f ts)
unfolding update_task
update-AllNatural id f [] h n = tt
update-AllNatural id f (t ∷ ts) h n = elim (Bool-cases (t.task_id == id)) [
  | inl here ↦ rw here (h t n.0, update-AllNatural id f ts h n.1)
  | inr there ↦ rw there (n.0, update-AllNatural id f ts h n.1)
]

updated-IsFunded :
    (id : ℕ) (f : Task → Task) (db db' : Db)
    → ((u d : ℕ) (t : Task) → allocated_seconds u d (f t) ≤ allocated_seconds u d t)
    → ((t : Task) → IsNatural t.elapsed_time → IsNatural (f t).elapsed_time)
    → db'.tasks ≡ update_task id f db.tasks
    → db'.times ≡ db.times
    → IsFunded db × AllNatural db.tasks
    → IsFunded db' × AllNatural db'.tasks
unfolding IsFunded sum_allocated
updated-IsFunded id f db db' less natural tasks times (h, n) = (
  λ u d.
      rw (tasks, times)
        (omega (arith, h u d, sum_update_le (allocated_seconds u d) id f db.tasks (less u d))),
  rw tasks (update-AllNatural id f db.tasks natural n),
)

changed-IsNatural :
    (action : Action) (timer : TimerStatus) (elapsed : Option ℤ) (now : ℕ) (t : Task)
    → IsNatural elapsed
    → IsNatural t.elapsed_time
    → IsNatural (changed_row action timer elapsed now t).elapsed_time
unfolding changed_row
changed-IsNatural action timer elapsed now t fit h = ground (arith, fit, h)

demote-AllNatural : (user id : ℕ) (ts : List Task) → AllNatural ts → AllNatural (demote user id ts)
unfolding demote
demote-AllNatural user id [] n = tt
demote-AllNatural user id (t ∷ ts) n = (ground (arith, n.0), demote-AllNatural user id ts n.1)

archive-AllNatural :
    (user id : ℕ) (ts : List Task) → AllNatural ts → AllNatural (archive_rows user id ts)
unfolding archive_rows
archive-AllNatural user id [] n = tt
archive-AllNatural user id (t ∷ ts) n = (ground (arith, n.0), archive-AllNatural user id ts n.1)

-- The total that is set covers its own day.
still_covered :
    (user date s : ℕ) (db : Db) (u d : ℕ)
    → sum (allocated_seconds user date) db.tasks ≤ s
    → sum (allocated_seconds u d) db.tasks ≤ total_of u d db.times
    → sum (allocated_seconds u d) db.tasks
      ≤ (if u == user && d == date then s else total_of u d db.times)
still_covered user date s db u d covers h = elim (Bool-cases (u == user && d == date)) [
  | inl yes' ↦
      let us : user ≡ u = ground (arith, yes') in
      let ds : date ≡ d = ground (arith, yes') in
      rw yes' (
        subst (λ x. sum (allocated_seconds x d) db.tasks ≤ s) us
          (subst (λ x. sum (allocated_seconds user x) db.tasks ≤ s) ds covers))
  | inr no' ↦ rw no' h
]

set-IsFunded :
    (user : ℕ) (seconds : Amount) (date : ℕ) (db db' : Db) (allocated : ℕ)
    → set_available_time user seconds date db ≡ (ok allocated, db')
    → IsFunded db × AllNatural db.tasks
    → IsFunded db' × AllNatural db'.tasks
unfolding IsFunded sum_allocated
set-IsFunded user seconds date db db' allocated e (h, n) =
    let (s, is_s, is_sum, covers, changed) = set_lem user seconds date db db' allocated e in
    (
      λ u d.
          rw
            (
              ap (λ x. x.tasks) changed,
              ap (λ x. x.times) changed,
              set_totals u d user date s db.times,
            )
            (still_covered user date s db u d (subst (λ x. x ≤ s) is_sum covers) (h u d)),
      rw (ap (λ x. x.tasks) changed) n,
    )

-- The estimates fit, and no time that was reported is negative.
abbrev pub IsSound : Db → Type 0
IsSound db = IsFunded db × AllNatural db.tasks

funded_steps : Steps IsNatural (λ user db db'. IsSound db → IsSound db')
unfolding sum_allocated total_of
funded_steps = record {
  stays = λ user db h. h;
  reserves = λ user title duration prio date now db db' row e h.
      reserved-IsFunded user title duration prio date now db db' row e h;
  completing = λ user id elapsed completed_at now db db' refund e h.
      let (spent, is_spent, t, there, own, is_refund, changed) =
        complete_lem user id elapsed completed_at now db db' refund e in
      updated-IsFunded id (complete_row spent completed_at) db db'
        (λ u d x. completed_less u d spent completed_at x) (λ x n. omega arith)
        (ap (λ x. x.tasks) changed) (ap (λ x. x.times) changed) h;
  setting =
      λ user seconds date db db' allocated e h. set-IsFunded user seconds date db db' allocated e h;
  acting = λ user id action elapsed now db db' receipt fit e h.
      let (t, there, own, timer, changed) = act_lem user id action elapsed now db db' receipt e in
      updated-IsFunded id (changed_row action timer elapsed now) db db'
        (λ u d x. changed_less u d action timer elapsed now x)
        (λ x n. changed-IsNatural action timer elapsed now x fit n) (ap (λ x. x.tasks) changed)
        (ap (λ x. x.times) changed) h;
  demoting = λ user id db h. (
    unfold IsFunded in λ u d. omega (arith, h.0 u d, sum-demote u d user id db.tasks),
    demote-AllNatural user id db.tasks h.1,
  );
  archiving = λ user id db h. (
    unfold IsFunded in λ u d. omega (arith, h.0 u d, sum-archive u d user id db.tasks),
    archive-AllNatural user id db.tasks h.1,
  );
}

-- Whatever requests come, in any order and from any users, the estimates of the tasks that wait fit
-- into the available time of each user's day, if they did at first, and if no elapsed time of a
-- task or of a request to change a status is negative.
pub handle_all-IsFunded :
    (ops : List Op) (w : World)
    → All (IsFit IsNatural) ops
    → IsSound w.db
    → IsSound (handle_all ops w).db
unfolding handle_all
handle_all-IsFunded [] w fit h = h
handle_all-IsFunded (op ∷ ops) w fit h =
    handle_all-IsFunded ops (handle op w) fit.1
      (handle-step IsNatural (λ user db db'. IsSound db → IsSound db') funded_steps op w fit.0 h)
