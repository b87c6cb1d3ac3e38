-- ===== src/Alarm/AvailableTime/Returned.antt =====
-- availableTimeService.ts: what a completion gives back.

use task_manger_project.Common.{
  ℕ, sym, ap, true, some, arith, ℤ, pos, pos_part, neg_part, +ℤ_parts, -ℤ_parts, eq_of_parts,
  int_laws, some_path, some_path, ◌+◌, ◌-◌, ◌≡◌, ◌∙◌, ◌++◌, ◌or◌, ◌+ℤ◌, ◌-ℤ◌,
}
use task_manger_project.Alarm.Database.{Task, Db, is_allocated, find_task, update_task, sum, sum_ℤ}
use task_manger_project.Alarm.Database.Query.{ok}
use task_manger_project.Alarm.Database.Rows.{Unique, sum-update, sum_ℤ-update}
use task_manger_project.Alarm.AvailableTime.{
  Amount, whole, total_of, sum_allocated, sum_consumed, allocated_seconds, consumed_seconds, least,
  remaining, complete_row, refund_rows, complete_task,
}
use task_manger_project.Alarm.AvailableTime.Sums.{complete_lem}

-- The budget of a day with one sum of each kind that changes by one row.
returned :
    (total a a' x : ℕ) (c c' y : ℤ) (refund : ℕ)
    → a' + x ≡ a
    → c' ≡ c +ℤ y
    → y +ℤ pos refund ≡ pos x
    → pos total -ℤ pos a' -ℤ c' ≡ pos total -ℤ pos a -ℤ c +ℤ pos refund
returned total a a' x c c' y refund e f g =
    let l = pos total -ℤ pos a' in
    let m = pos total -ℤ pos a in
    eq_of_parts _ _ (
      omega (
        arith,
        -ℤ_parts (pos total) (pos a'),
        -ℤ_parts l c',
        -ℤ_parts (pos total) (pos a),
        -ℤ_parts m c,
        +ℤ_parts (m -ℤ c) (pos refund),
        +ℤ_parts c y,
        +ℤ_parts y (pos refund),
        ap pos_part f,
        ap neg_part f,
        ap pos_part g,
        ap neg_part g,
        e,
      ))

unspent : (spent est : ℕ) → least (pos spent) (some est) +ℤ pos (est - spent) ≡ pos est
unspent spent est = grind int_laws

zero_plus : (c d : ℤ) → c +ℤ pos 0 ≡ d → c ≡ d
zero_plus c d e = eq_of_parts _ _ (omega (arith, +ℤ_parts c (pos 0), ap pos_part e, ap neg_part e))

same_plus : (c d : ℤ) → c +ℤ pos 0 ≡ d +ℤ pos 0 → c ≡ d
same_plus c d e =
    eq_of_parts _ _
      (omega (arith, +ℤ_parts c (pos 0), +ℤ_parts d (pos 0), ap pos_part e, ap neg_part e))

module _ (user id spent completed_at now : ℕ) (db : Db) (t : Task) (unique : Unique db.tasks)
    (there : find_task id db.tasks ≡ some t) (own : t.user_id ≡ user)
    (waits : is_allocated t.status ≡ true) where
  abbrev closed : Db
  closed = record db {
    tasks = update_task id (complete_row spent completed_at) db.tasks;
    refunds = refund_rows user id ((t.estimated_duration or 0) - spent) now ++ db.refunds;
  }

  -- The day of the task gets back what was not spent of it.
  own_day :
      (est : ℕ)
      → t.estimated_duration ≡ some est
      → remaining user t.scheduled_date closed
        ≡ remaining user t.scheduled_date db +ℤ pos (est - spent)
  unfolding sum_allocated sum_consumed
  own_day est is_est =
      let d = t.scheduled_date in
      let f = complete_row spent completed_at in
      let before_a : allocated_seconds user d t ≡ est = ground (arith, own, waits, is_est) in
      let after_a : allocated_seconds user d (f t) ≡ 0 = ground arith in
      let before_c : consumed_seconds user d t ≡ pos 0 = ground (arith, waits) in
      let after_c : consumed_seconds user d (f t) ≡ least (pos spent) (some est) =
        ground (arith, own, is_est) in
      returned (total_of user d db.times) _ _ est _ _ (least (pos spent) (some est)) (est - spent)
        (omega (
          arith,
          sum-update id f (allocated_seconds user d) db.tasks t unique there,
          before_a,
          after_a,
        ))
        (zero_plus _ _ (
          ap (λ c. sum_ℤ (consumed_seconds user d) (update_task id f db.tasks) +ℤ c) (sym before_c)
          ∙ sum_ℤ-update id f (consumed_seconds user d) db.tasks t unique there
          ∙ ap (λ c. sum_ℤ (consumed_seconds user d) db.tasks +ℤ c) after_c))
        (unspent spent est)

  -- The other days stay as they are.
  other_day :
      (u d : ℕ) → ¬ ((u ≡ user) × (d ≡ t.scheduled_date)) → remaining u d closed ≡ remaining u d db
  unfolding sum_allocated sum_consumed
  other_day u d other =
      let f = complete_row spent completed_at in
      let before_a : allocated_seconds u d t ≡ 0 = ground (arith, own, other) in
      let after_a : allocated_seconds u d (f t) ≡ 0 = ground arith in
      let before_c : consumed_seconds u d t ≡ pos 0 = ground (arith, own, other) in
      let after_c : consumed_seconds u d (f t) ≡ pos 0 = ground (arith, own, other) in
      let same_a : sum (allocated_seconds u d) (update_task id f db.tasks)
          ≡ sum (allocated_seconds u d) db.tasks =
        omega (
          arith,
          sum-update id f (allocated_seconds u d) db.tasks t unique there,
          before_a,
          after_a,
        ) in
      let same_c : sum_ℤ (consumed_seconds u d) (update_task id f db.tasks)
          ≡ sum_ℤ (consumed_seconds u d) db.tasks =
        same_plus _ _ (
          ap (λ c. sum_ℤ (consumed_seconds u d) (update_task id f db.tasks) +ℤ c) (sym before_c)
          ∙ sum_ℤ-update id f (consumed_seconds u d) db.tasks t unique there
          ∙ ap (λ c. sum_ℤ (consumed_seconds u d) db.tasks +ℤ c) after_c) in
      ap
        (λ a.
          pos (total_of u d db.times)
          -ℤ pos a
          -ℤ sum_ℤ (consumed_seconds u d) (update_task id f db.tasks))
        same_a
      ∙ ap (λ c. pos (total_of u d db.times) -ℤ pos (sum (allocated_seconds u d) db.tasks) -ℤ c)
          same_c

-- A completion of a task that waits, has an estimate and is the user's own gives the day of the task
-- back exactly the refund that is answered, which is the unused part of the estimate; no other
-- remaining time changes. The ids of the tasks are distinct.
pub complete_returns :
    (user id : ℕ) (elapsed : Amount) (completed_at now : ℕ) (db db' : Db) (refund : ℕ) (t : Task)
    (est : ℕ)
    → Unique db.tasks
    → find_task id db.tasks ≡ some t
    → is_allocated t.status ≡ true
    → t.estimated_duration ≡ some est
    → complete_task user id elapsed completed_at now db ≡ (ok refund, db')
    → (remaining user t.scheduled_date db' ≡ remaining user t.scheduled_date db +ℤ pos refund)
      × ((spent : ℕ) → elapsed ≡ whole (pos spent) → refund ≡ est - spent)
      × ((u d : ℕ) → ¬ ((u ≡ user) × (d ≡ t.scheduled_date)) → remaining u d db' ≡ remaining u d db)
complete_returns user id elapsed completed_at now db db' refund t est unique there waits is_est e =
    let (spent, is_spent, t', there', own', is_refund, changed) =
      complete_lem user id elapsed completed_at now db db' refund e in
    let same_t : t' ≡ t = some_path (sym there' ∙ there) in
    let own : t.user_id ≡ user = ap (λ x. x.user_id) (sym same_t) ∙ own' in
    let unused : refund ≡ est - spent =
      is_refund
      ∙ ap (λ x. (x.estimated_duration or 0) - spent) same_t
      ∙ ap (λ x. (x or 0) - spent) is_est in
    let closing = closed user id spent completed_at now db t unique there own waits in
    let same : db' ≡ closing =
      changed
      ∙ ap (λ r. record closing { refunds = refund_rows user id r now ++ db.refunds })
          (is_refund ∙ ap (λ x. (x.estimated_duration or 0) - spent) same_t) in
    (
      ap (remaining user t.scheduled_date) same
          ∙ own_day user id spent completed_at now db t unique there own waits est is_est
          ∙ ap (λ r. remaining user t.scheduled_date db +ℤ pos r) (sym unused),
      λ n is_n. unused ∙ ap (λ x. est - x) (cc),
      λ u d other.
          ap (remaining u d) same
          ∙ other_day user id spent completed_at now db t unique there own waits u d other,
    )
