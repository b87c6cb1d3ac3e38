-- ===== src/Alarm/AvailableTime/Budget.antt =====
-- availableTimeService.ts: what the operations take from the remaining time of a day and give back.
use mathlib.Core.Path.{subst}
use task_manger_project.Common.{
  ℕ, sym, ap, Bool, Option, none, some, List, arith, ℤ, pos, negsuc, pos_part, neg_part, +ℤ_parts,
  int_laws, ◌+◌, ◌≤◌, ◌≡◌, ◌∙◌, ◌&&◌, ◌∷◌, ◌==◌, if◌then◌else◌, ◌+ℤ◌, ◌-ℤ◌, ◌≤ℤ◌,
}
use task_manger_project.Alarm.Database.{Task, Db, sum, sum_ℤ}
use task_manger_project.Alarm.Database.Query.{ok}
use task_manger_project.Alarm.AvailableTime.{
  Amount, whole, upsert_time, total_of, sum_allocated, sum_consumed, allocated_seconds,
  consumed_seconds, remaining, check_duration, new_task, reserve_and_create_task,
}
use task_manger_project.Alarm.AvailableTime.Sums.{locked-total, reserve_lem}

duration_in_bounds :
    (duration : Option Amount) (dur : ℕ)
    → check_duration duration ≡ ok dur
    → (60 ≤ dur) × (dur ≤ 86340)
unfolding check_duration
duration_in_bounds none dur e = absurd (cc)
duration_in_bounds (some (whole (pos n))) dur e = ground arith
duration_in_bounds (some (whole (negsuc n))) dur e = absurd (cc)
duration_in_bounds (some _) dur e = absurd (cc)

taken :
    (total allocated x : ℕ) (consumed : ℤ)
    → pos total -ℤ pos allocated -ℤ consumed ≡ pos total -ℤ pos (x + allocated) -ℤ consumed +ℤ pos x
taken total allocated x consumed = grind int_laws

none_consumed : (c : ℤ) → pos 0 +ℤ c ≡ c
none_consumed c = grind int_laws

abbrev share : ℕ → ℕ → ℕ → ℕ → ℕ → ℕ
share user date u d dur = if u == user && d == date then dur else 0

module _ (user : ℕ) (title : List ℕ) (dur : ℕ) (prio : Bool) (date now : ℕ) (db : Db) where
  abbrev row : Task
  row = new_task db.next_id user title dur prio date now

  abbrev inserted : Db
  inserted = record db {
    tasks = row ∷ db.tasks;
    times = upsert_time user date 0 (λ n. n) db.times;
    next_id = db.next_id + 1;
  }

  row_allocated : (u d : ℕ) → allocated_seconds u d row ≡ share user date u d dur
  row_allocated u d = ground arith

  row_consumed : (u d : ℕ) → consumed_seconds u d row ≡ pos 0
  row_consumed u d = ground arith

  -- What a new row takes from the remaining time of each day.
  charged : (u d : ℕ) → remaining u d db ≡ remaining u d inserted +ℤ pos (share user date u d dur)
  unfolding sum_allocated sum_consumed sum sum_ℤ
  charged u d =
      let allocated = sum (allocated_seconds u d) db.tasks in
      let consumed = sum_ℤ (consumed_seconds u d) db.tasks in
      let after : remaining u d inserted
          ≡ pos (total_of u d db.times) -ℤ pos (share user date u d dur + allocated) -ℤ consumed =
        cc (
          locked-total u d user date db.times,
          row_allocated u d,
          row_consumed u d,
          none_consumed consumed,
        ) in
      taken (total_of u d db.times) allocated (share user date u d dur) consumed
      ∙ ap (λ r. r +ℤ pos (share user date u d dur)) (sym after)

share_self : (user date dur : ℕ) → share user date user date dur ≡ dur
share_self user date dur = ground arith

share_other : (user date u d dur : ℕ) → ¬ ((u ≡ user) × (d ≡ date)) → share user date u d dur ≡ 0
share_other user date u d dur other = ground arith

plus_none : (c : ℤ) → c +ℤ pos 0 ≡ c
plus_none c = grind int_laws

still_left :
    (dur : ℕ) (before after : ℤ) → before ≡ after +ℤ pos dur → pos dur ≤ℤ before → pos 0 ≤ℤ after
still_left dur before after e h =
    omega (arith, +ℤ_parts after (pos dur), ap pos_part e, ap neg_part e, h)

-- A task that is accepted has a duration of a minute to 23 hours and 59 minutes, which is taken from
-- the remaining time of its owner's day; that does not become negative, and the remaining time of
-- every other user and of every other day is what it was.
pub reserve_charges :
    (user : ℕ) (title : List ℕ) (duration : Option Amount) (prio : Bool) (date now : ℕ)
    (db db' : Db) (row : Task)
    → reserve_and_create_task user title duration prio date now db ≡ (ok row, db')
    → (dur : ℕ) × (row.estimated_duration ≡ some dur)
      × (60 ≤ dur)
      × (dur ≤ 86340)
      × (remaining user date db ≡ remaining user date db' +ℤ pos dur)
      × (pos 0 ≤ℤ remaining user date db')
      × ((u d : ℕ) → ¬ ((u ≡ user) × (d ≡ date)) → remaining u d db' ≡ remaining u d db)
unfolding sum_allocated sum_consumed
reserve_charges user title duration prio date now db db' row e =
    let (dur, checked, new, changed, fits, alone) =
      reserve_lem user title duration prio date now db db' row e in
    let (least_is, most_is) = duration_in_bounds duration dur checked in
    let same : db' ≡ inserted user title dur prio date now db =
      changed
      ∙ ap
          (λ r. record db {
            tasks = r ∷ db.tasks;
            times = upsert_time user date 0 (λ n. n) db.times;
            next_id = db.next_id + 1;
          })
          new in
    let charge : (u d : ℕ) → remaining u d db ≡ remaining u d db' +ℤ pos (share user date u d dur) =
      λ u d.
        subst (λ x. remaining u d db ≡ remaining u d x +ℤ pos (share user date u d dur)) (sym same)
          (charged user title dur prio date now db u d) in
    let own : remaining user date db ≡ remaining user date db' +ℤ pos dur =
      charge user date ∙ ap (λ x. remaining user date db' +ℤ pos x) (share_self user date dur) in
    (
      dur,
      ap (λ r. r.estimated_duration) new,
      least_is,
      most_is,
      own,
      still_left dur (remaining user date db) (remaining user date db') own fits,
      λ u d other. sym (
          charge u d
          ∙ ap (λ x. remaining u d db' +ℤ pos x) (share_other user date u d dur other)
          ∙ plus_none (remaining u d db')),
    )
