-- ===== src/Alarm/Requests/Isolated.antt =====
-- The requests on tasks: none reaches the rows of another user.
use task_manger_project.Common.{
  ℕ, refl, ap, inl, inr, true, not, some, List, [], arith, ==_iff, Bool-cases, filter, ◌≡◌, ◌∙◌,
  ◌≢◌, ◌∷◌, ◌++◌, ◌==◌,
}
use task_manger_project.Alarm.Database.{Task, Refund, Db, find_task, update_task}
use task_manger_project.Alarm.Database.Rows.{Unique, update-absent}
use task_manger_project.Alarm.AvailableTime.{total_of, complete_row, refund_rows, upsert_time}
use task_manger_project.Alarm.AvailableTime.Sums.{
  locked-total, reserve_lem, complete_lem, set_lem, set_totals,
}
use task_manger_project.Alarm.TaskStatus.{changed_row}
use task_manger_project.Alarm.Priority.{demote}
use task_manger_project.Alarm.Requests.{World, Op, handle, archive_rows}
use task_manger_project.Alarm.Requests.Atomic.{act_lem}
use task_manger_project.Alarm.Requests.Steps.{always, Steps, user_of, handle-step}

abbrev pub others : ℕ → List Task → List Task
others user ts = filter (λ t. not (t.user_id == user)) ts

abbrev pub other_refunds : ℕ → List Refund → List Refund
other_refunds user rs = filter (λ r. not (r.user_id == user)) rs

-- The tasks, the refunds and the available time of everyone else are what they were.
abbrev pub Isolated : ℕ → Db → Db → Type 0
Isolated user db db' =
    (others user db'.tasks ≡ others user db.tasks)
    × (other_refunds user db'.refunds ≡ other_refunds user db.refunds)
    × ((u d : ℕ) → u ≢ user → total_of u d db'.times ≡ total_of u d db.times)

others-update :
    (user id : ℕ) (f : Task → Task) (ts : List Task) (t : Task)
    → ((x : Task) → (f x).user_id ≡ x.user_id)
    → Unique ts
    → find_task id ts ≡ some t
    → t.user_id ≡ user
    → others user (update_task id f ts) ≡ others user ts
unfolding find_task update_task
others-update user id f [] t keeps u e own = refl
others-update user id f (s ∷ ts) t keeps u e own = elim (Bool-cases (s.task_id == id)) [
  | inl here ↦
      let same : s ≡ t = ground (arith, here, e) in
      let rest = update-absent id s.task_id f ts ((==_iff s.task_id id).0 here) u.0 in
      let mine : (s.user_id == user) ≡ true =
        (==_iff s.user_id user).1 (ap (λ x. x.user_id) same ∙ own) in
      let mine' : ((f s).user_id == user) ≡ true =
        (==_iff (f s).user_id user).1 (keeps s ∙ ap (λ x. x.user_id) same ∙ own) in
      rw (here, rest, mine, mine') refl
  | inr there ↦
      let rest = others-update user id f ts t keeps u.1 (ground (arith, there, e)) own in
      rw (there, rest) refl
]

pub others-demote :
    (user id : ℕ) (ts : List Task) → others user (demote user id ts) ≡ others user ts
unfolding demote
others-demote user id [] = refl
others-demote user id (t ∷ ts) = ground (arith, others-demote user id ts)

others-archive :
    (user id : ℕ) (ts : List Task) → others user (archive_rows user id ts) ≡ others user ts
unfolding archive_rows
others-archive user id [] = refl
others-archive user id (t ∷ ts) = ground (arith, others-archive user id ts)

refunds-other :
    (user id refund now : ℕ) (rs : List Refund)
    → other_refunds user (refund_rows user id refund now ++ rs) ≡ other_refunds user rs
refunds-other user id refund now rs = ground arith

set_other :
    (user date n : ℕ) (db : Db) (u d : ℕ)
    → u ≢ user
    → total_of u d (upsert_time user date n (λ _. n) (upsert_time user date 0 (λ m. m) db.times))
      ≡ total_of u d db.times
set_other user date n db u d other = ground (arith, set_totals u d user date n db.times, other)

changed-user :
    (action : _) (timer : _) (elapsed : _) (now : ℕ) (x : Task)
    → (changed_row action timer elapsed now x).user_id ≡ x.user_id
unfolding changed_row
changed-user action timer elapsed now x = ground arith

pub Isolated-steps : Steps (λ e. Unit) (λ user db db'. Unique db.tasks → Isolated user db db')
Isolated-steps = record {
  stays = λ user db v. (refl, refl, λ u d other. refl);
  reserves = λ user title duration prio date now db db' row e v.
      let (dur, checked, new, changed, fits, alone) =
        reserve_lem user title duration prio date now db db' row e in
      let mine : (row.user_id == user) ≡ true =
        (==_iff row.user_id user).1 (ap (λ r. r.user_id) new) in
      (
        rw (ap (λ x. x.tasks) changed, mine) refl,
        rw (ap (λ x. x.refunds) changed) refl,
        λ u d other. rw (ap (λ x. x.times) changed) (locked-total u d user date db.times),
      );
  completing = λ user id elapsed completed_at now db db' refund e v.
      let (spent, is_spent, t, there, own, is_refund, changed) =
        complete_lem user id elapsed completed_at now db db' refund e in
      (
        rw (ap (λ x. x.tasks) changed) (
            others-update user id (complete_row spent completed_at) db.tasks t (λ x. refl) v there
              own),
        rw (ap (λ x. x.refunds) changed) (refunds-other user id refund now db.refunds),
        λ u d other. rw (ap (λ x. x.times) changed) refl,
      );
  setting = λ user seconds date db db' allocated e v.
      let (n, is_n, is_sum, covers, changed) = set_lem user seconds date db db' allocated e in
      (
        rw (ap (λ x. x.tasks) changed) refl,
        rw (ap (λ x. x.refunds) changed) refl,
        λ u d other. rw (ap (λ x. x.times) changed) (set_other user date n db u d other),
      );
  acting = λ user id action elapsed now db db' receipt fit e v.
      let (t, there, own, timer, changed) = act_lem user id action elapsed now db db' receipt e in
      (
        rw (ap (λ x. x.tasks) changed) (
            others-update user id (changed_row action timer elapsed now) db.tasks t
              (changed-user action timer elapsed now) v there own),
        rw (ap (λ x. x.refunds) changed) refl,
        λ u d other. rw (ap (λ x. x.times) changed) refl,
      );
  demoting = λ user id db v. (others-demote user id db.tasks, refl, λ u d other. refl);
  archiving = λ user id db v. (others-archive user id db.tasks, refl, λ u d other. refl);
}

-- Where the ids of the tasks are distinct, a request changes no task, no refund and no available time
-- of any user but the one of its token, whatever ids it names.
pub handle-Isolated :
    (op : Op) (w : World) → Unique w.db.tasks → Isolated (user_of op) w.db (handle op w).db
handle-Isolated op w v =
    handle-step (λ e. Unit) (λ user db db'. Unique db.tasks → Isolated user db db') Isolated-steps
      op w (always op) v
