-- ===== src/Alarm/Requests/Single.antt =====
-- The requests on tasks: a user's day has one open task with priority at most.
use task_manger_project.Common.{
  ℕ, sym, ap, inl, inr, Bool, true, Option, List, [], arith, Bool-cases, ◌≡◌, ◌∙◌, ◌∷◌,
}
use task_manger_project.Alarm.Database.{Task, Db, update_task}
use task_manger_project.Alarm.Database.Query.{ok}
use task_manger_project.Alarm.AvailableTime.{
  Amount, is_open_priority, complete_row, new_task, reserve_and_create_task,
}
use task_manger_project.Alarm.AvailableTime.Sums.{reserve_lem, complete_lem, set_lem}
use task_manger_project.Alarm.TaskStatus.{changed_row}
use task_manger_project.Alarm.Requests.{World, Op, handle, handle_all}
use task_manger_project.Alarm.Requests.Open.{
  count_open, IsSingle, count-update, count-demote, count-archive, none_open, completed_closed,
  changed_closed, open_row,
}
use task_manger_project.Alarm.Requests.Atomic.{act_lem}
use task_manger_project.Alarm.Requests.Steps.{always, Steps, handle-step}

reserved-IsSingle :
    (user : ℕ) (title : List ℕ) (duration : Option Amount) (prio : Bool) (date now : ℕ)
    (db db' : Db) (row : Task)
    → reserve_and_create_task user title duration prio date now db ≡ (ok row, db')
    → IsSingle db
    → IsSingle db'
unfolding IsSingle
reserved-IsSingle user title duration prio date now db db' row e h u d =
    let (dur, checked, new, changed, fits, alone) =
      reserve_lem user title duration prio date now db db' row e in
    let same : db'.tasks ≡ new_task db.next_id user title dur prio date now ∷ db.tasks =
      ap (λ x. x.tasks) changed ∙ ap (λ r. r ∷ db.tasks) new in
    elim (Bool-cases (is_open_priority u d (new_task db.next_id user title dur prio date now))) [
      | inl yes' ↦
          let (us, ds, has) = open_row u d db.next_id user title dur prio date now yes' in
          let empty : count_open u d db.tasks ≡ 0 =
            ap (λ x. count_open x d db.tasks) (sym us)
            ∙ ap (λ x. count_open user x db.tasks) (sym ds)
            ∙ none_open user date db.tasks (alone has) in
          rw (same, yes') (omega (arith, empty))
      | inr no' ↦ rw (same, no') (h u d)
    ]

-- An update of one row that opens no task.
updated-IsSingle :
    (id : ℕ) (f : Task → Task) (db db' : Db)
    → ((u d : ℕ) (t : Task) → is_open_priority u d (f t) ≡ true → is_open_priority u d t ≡ true)
    → db'.tasks ≡ update_task id f db.tasks
    → IsSingle db
    → IsSingle db'
unfolding IsSingle
updated-IsSingle id f db db' opens e h u d =
    rw e (omega (arith, h u d, count-update u d id f db.tasks (opens u d)))

IsSingle-steps : Steps (λ e. Unit) (λ user db db'. IsSingle db → IsSingle db')
IsSingle-steps = record {
  stays = λ user db h. h;
  reserves = λ user title duration prio date now db db' row e h.
      reserved-IsSingle user title duration prio date now db db' row e h;
  completing = λ user id elapsed completed_at now db db' refund e h.
      let (spent, is_spent, t, there, own, is_refund, changed) =
        complete_lem user id elapsed completed_at now db db' refund e in
      updated-IsSingle id (complete_row spent completed_at) db db'
        (λ u d x. completed_closed u d spent completed_at x) (ap (λ x. x.tasks) changed) h;
  setting = λ user seconds date db db' allocated e h.
      let (n, is_n, is_sum, covers, changed) = set_lem user seconds date db db' allocated e in
      unfold IsSingle in λ u d. rw (ap (λ x. x.tasks) changed) (h u d);
  acting = λ user id action elapsed now db db' receipt fit e h.
      let (t, there, own, timer, changed) = act_lem user id action elapsed now db db' receipt e in
      updated-IsSingle id (changed_row action timer elapsed now) db db'
        (λ u d x. changed_closed u d action timer elapsed now x) (ap (λ x. x.tasks) changed) h;
  demoting = λ user id db h.
      unfold IsSingle in λ u d. omega (arith, h u d, count-demote u d user id db.tasks);
  archiving = λ user id db h.
      unfold IsSingle in λ u d. omega (arith, h u d, count-archive u d user id db.tasks);
}

-- Whatever requests come, in any order and from any users, no user ever has two open tasks with
-- priority on one day, if no user had at first.
pub handle_all-IsSingle :
    (ops : List Op) (w : World) → IsSingle w.db → IsSingle (handle_all ops w).db
unfolding handle_all
handle_all-IsSingle [] w h = h
handle_all-IsSingle (op ∷ ops) w h = handle_all-IsSingle ops (handle op w) (
    handle-step (λ e. Unit) (λ user db db'. IsSingle db → IsSingle db') IsSingle-steps op w
      (always op) h)
