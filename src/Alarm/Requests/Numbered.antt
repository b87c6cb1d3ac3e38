-- ===== src/Alarm/Requests/Numbered.antt =====
-- The requests on tasks and the ids of the rows: the key of the table, which the database numbers.
use mathlib.Core.Path.{subst}
use task_manger_project.Common.{
  ℕ, refl, sym, ap, List, [], map, arith, All, ◌+◌, ◌<◌, ◌≡◌, ◌∙◌, ◌≢◌, ◌∷◌,
}
use task_manger_project.Alarm.Database.{Task, Db, update_task}
use task_manger_project.Alarm.Database.Rows.{Unique}
use task_manger_project.Alarm.AvailableTime.{complete_row}
use task_manger_project.Alarm.AvailableTime.Sums.{reserve_lem, complete_lem, set_lem}
use task_manger_project.Alarm.TaskStatus.{changed_row}
use task_manger_project.Alarm.Priority.{demote}
use task_manger_project.Alarm.Requests.{World, Op, handle, archive_rows}
use task_manger_project.Alarm.Requests.Atomic.{act_lem}
use task_manger_project.Alarm.Requests.Steps.{always, Steps, handle-step}

-- The ids are distinct, and below the next one.
pub record IsNumbered (db : Db) : Type 0 where
  pub distinct : Unique db.tasks
  pub bounded : All (λ t. t.task_id < db.next_id) db.tasks

abbrev ids : List Task → List ℕ
ids ts = map (λ t. t.task_id) ts

ids-All :
    (P : ℕ → Type 0) (xs ys : List Task)
    → ids xs ≡ ids ys
    → All (λ t. P t.task_id) xs
    → All (λ t. P t.task_id) ys
ids-All P [] [] e h = tt
ids-All P [] (y ∷ ys) e h = absurd (cc)
ids-All P (x ∷ xs) [] e h = absurd (cc)
ids-All P (x ∷ xs) (y ∷ ys) e h =
    let same : x.task_id ≡ y.task_id = cc in
    let rest : ids xs ≡ ids ys = cc in (subst P same h.0, ids-All P xs ys rest h.1)

ids-Unique : (xs ys : List Task) → ids xs ≡ ids ys → Unique xs → Unique ys
ids-Unique [] [] e h = tt
ids-Unique [] (y ∷ ys) e h = absurd (cc)
ids-Unique (x ∷ xs) [] e h = absurd (cc)
ids-Unique (x ∷ xs) (y ∷ ys) e h =
    let same : x.task_id ≡ y.task_id = cc in
    let rest : ids xs ≡ ids ys = cc in
    (
      subst (λ i. All (λ t. t.task_id ≢ i) ys) same (ids-All (λ j. j ≢ x.task_id) xs ys rest h.0),
      ids-Unique xs ys rest h.1,
    )

-- A request that changes rows, and no id.
kept-IsNumbered :
    (db db' : Db)
    → ids db'.tasks ≡ ids db.tasks
    → db'.next_id ≡ db.next_id
    → IsNumbered db
    → IsNumbered db'
kept-IsNumbered db db' e n h = record {
  distinct = ids-Unique db.tasks db'.tasks (sym e) h.distinct;
  bounded =
      ids-All (λ i. i < db'.next_id) db.tasks db'.tasks (sym e)
        (subst (λ k. All (λ t. t.task_id < k) db.tasks) (sym n) h.bounded);
}

ids-update :
    (id : ℕ) (f : Task → Task) (ts : List Task)
    → ((t : Task) → (f t).task_id ≡ t.task_id)
    → ids (update_task id f ts) ≡ ids ts
unfolding update_task
ids-update id f [] k = refl
ids-update id f (t ∷ ts) k = ground (arith, ids-update id f ts k, k t)

ids-demote : (user id : ℕ) (ts : List Task) → ids (demote user id ts) ≡ ids ts
unfolding demote
ids-demote user id [] = refl
ids-demote user id (t ∷ ts) = ground (arith, ids-demote user id ts)

ids-archive : (user id : ℕ) (ts : List Task) → ids (archive_rows user id ts) ≡ ids ts
unfolding archive_rows
ids-archive user id [] = refl
ids-archive user id (t ∷ ts) = ground (arith, ids-archive user id ts)

changed-id :
    (action : _) (timer : _) (elapsed : _) (now : ℕ) (x : Task)
    → (changed_row action timer elapsed now x).task_id ≡ x.task_id
unfolding changed_row
changed-id action timer elapsed now x = ground arith

new-absent : (n : ℕ) (ts : List Task) → All (λ t. t.task_id < n) ts → All (λ t. t.task_id ≢ n) ts
new-absent n [] h = tt
new-absent n (t ∷ ts) h = (λ e. omega (arith, h.0, e), new-absent n ts h.1)

still_below :
    (n : ℕ) (ts : List Task) → All (λ t. t.task_id < n) ts → All (λ t. t.task_id < n + 1) ts
still_below n [] h = tt
still_below n (t ∷ ts) h = (omega (arith, h.0), still_below n ts h.1)

IsNumbered-new :
    (db db' : Db) (row : Task)
    → row.task_id ≡ db.next_id
    → db'.tasks ≡ row ∷ db.tasks
    → db'.next_id ≡ db.next_id + 1
    → IsNumbered db
    → IsNumbered db'
IsNumbered-new db db' row i e n h = record {
  distinct = rw (e, i) ((new-absent db.next_id db.tasks h.bounded, h.distinct));
  bounded =
      subst (λ k. All (λ t. t.task_id < k) db'.tasks) (sym n)
        (rw (e, i) ((omega arith, still_below db.next_id db.tasks h.bounded)));
}

IsNumbered-steps : Steps (λ e. Unit) (λ user db db'. IsNumbered db → IsNumbered db')
IsNumbered-steps = record {
  stays = λ user db h. h;
  reserves = λ user title duration prio date now db db' row e h.
      let (dur, checked, new, changed, fits, alone) =
        reserve_lem user title duration prio date now db db' row e in
      IsNumbered-new db db' row (ap (λ r. r.task_id) new) (ap (λ x. x.tasks) changed)
        (ap (λ x. x.next_id) changed) h;
  completing = λ user id elapsed completed_at now db db' refund e h.
      let (spent, is_spent, t, there, own, is_refund, changed) =
        complete_lem user id elapsed completed_at now db db' refund e in
      kept-IsNumbered db db'
        (ap (λ x. ids x.tasks) changed
          ∙ ids-update id (complete_row spent completed_at) db.tasks (λ x. refl))
        (ap (λ x. x.next_id) changed) h;
  setting = λ user seconds date db db' allocated e h.
      let (n, is_n, is_sum, covers, changed) = set_lem user seconds date db db' allocated e in
      kept-IsNumbered db db' (ap (λ x. ids x.tasks) changed) (ap (λ x. x.next_id) changed) h;
  acting = λ user id action elapsed now db db' receipt fit e h.
      let (t, there, own, timer, changed) = act_lem user id action elapsed now db db' receipt e in
      kept-IsNumbered db db'
        (ap (λ x. ids x.tasks) changed
          ∙ ids-update id (changed_row action timer elapsed now) db.tasks
              (changed-id action timer elapsed now))
        (ap (λ x. x.next_id) changed) h;
  demoting = λ user id db h. kept-IsNumbered db _ (ids-demote user id db.tasks) refl h;
  archiving = λ user id db h. kept-IsNumbered db _ (ids-archive user id db.tasks) refl h;
}

pub handle-IsNumbered : (op : Op) (w : World) → IsNumbered w.db → IsNumbered (handle op w).db
handle-IsNumbered op w h =
    handle-step (λ e. Unit) (λ user db db'. IsNumbered db → IsNumbered db') IsNumbered-steps op w
      (always op) h
