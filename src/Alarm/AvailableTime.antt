-- ===== src/Alarm/AvailableTime.antt =====
-- alarm-system/src/services/availableTimeService.ts: the budget of time of a user's day. The date is
-- `kstDate()` or the one of the request.
pub mod Sums
pub mod Budget
pub mod Returned
use task_manger_project.Common.{
  ℕ, Bool, true, false, not, Option, none, some, List, [], ltb, leb, filter, find, ℤ, pos, negsuc,
  ltb_ℤ, leb_ℤ, ◌+◌, ◌-◌, ◌&&◌, ◌||◌, ◌∷◌, ◌++◌, ◌==◌, ◌or◌, if◌then◌else◌, ◌-ℤ◌,
}
use task_manger_project.Alarm.Transitions.{pending, completed_task, t_idle}
use task_manger_project.Alarm.Errors.{
  min_duration_sec, max_duration_sec, duration_required, duration_out_of_range, invalid_elapsed,
  invalid_available, task_not_found, forbidden, insufficient_available_time,
  available_below_allocated, priority_task_exists,
}
use task_manger_project.Alarm.Database.{
  Task, DayTime, Refund, Db, is_allocated, is_active, is_completed, of_day, update_task, find_task,
  sum, sum_ℤ,
}
use task_manger_project.Alarm.Database.Query.{
  Result, ok, err, Query, pure, throw, of_result, gets, with_tx, throw_if, update, ◌>>=◌, ◌>>◌,
}

-- A number of JavaScript: a whole one, or one that is not (a fraction, an infinity or NaN).
pub data Amount : Type 0 where
  whole : ℤ → Amount
  not_whole : Amount

-- UPDATE user_available_time SET available_seconds = f(...) of the day, or INSERT with `new`.
unfoldable pub upsert_time : ℕ → ℕ → ℕ → (ℕ → ℕ) → List DayTime → List DayTime
upsert_time user date new f [] =
    record { user_id = user; service_date = date; available_seconds = new } ∷ []
upsert_time user date new f (d ∷ ds) =
    let rest = upsert_time user date new f ds in
    if d.user_id == user && d.service_date == date
    then record d { available_seconds = f d.available_seconds } ∷ ds
    else d ∷ rest

-- The seconds of the day's row, and 0 where there is none.
unfoldable pub total_of : ℕ → ℕ → List DayTime → ℕ
total_of user date [] = 0
total_of user date (d ∷ ds) =
    let rest = total_of user date ds in
    if d.user_id == user && d.service_date == date then d.available_seconds else rest

unfoldable pub lock_and_get_total : ℕ → ℕ → Query ℕ
unfolding upsert_time total_of
lock_and_get_total user date = do
  update (λ db. record db { times = upsert_time user date 0 (λ n. n) db.times })
  gets (λ db. total_of user date db.times)

-- A sum leaves NULL out.
abbrev pub allocated_seconds : ℕ → ℕ → Task → ℕ
allocated_seconds user date t =
    if of_day user date t && is_allocated t.status then t.estimated_duration or 0 else 0

unfoldable pub sum_allocated : ℕ → ℕ → Db → ℕ
sum_allocated user date db = sum (allocated_seconds user date) db.tasks

-- LEAST(elapsed, estimated), which passes over NULL.
abbrev pub least : ℤ → Option ℕ → ℤ
least a none = a
least a (some n) = if leb_ℤ a (pos n) then a else pos n

abbrev pub consumed_seconds : ℕ → ℕ → Task → ℤ
consumed_seconds user date t =
    if of_day user date t && is_completed t.status
    then least (t.elapsed_time or pos 0) t.estimated_duration
    else pos 0

unfoldable pub sum_consumed : ℕ → ℕ → Db → ℤ
sum_consumed user date db = sum_ℤ (consumed_seconds user date) db.tasks

-- `day_of` is the date of an instant in the service's time zone.
unfoldable pub sum_refunded : (ℕ → ℕ) → ℕ → ℕ → List Refund → ℕ
sum_refunded day_of user date [] = 0
sum_refunded day_of user date (r ∷ rs) =
    (if r.user_id == user && day_of r.created_at == date then r.refunded_seconds else 0)
    + sum_refunded day_of user date rs

abbrev pub remaining : ℕ → ℕ → Db → ℤ
remaining user date db =
    pos (total_of user date db.times)
    -ℤ pos (sum_allocated user date db)
    -ℤ sum_consumed user date db

-- The rows of the breakdown are whole tasks here, in the order of their ids.
pub record Snapshot : Type 0 where
  pub total_available : ℕ
  pub allocated : ℕ
  pub consumed : ℤ
  pub refunded : ℕ
  pub remaining_seconds : ℤ
  pub can_create_task : Bool
  pub tasks_breakdown : List Task

unfoldable pub insert_by_id : Task → List Task → List Task
insert_by_id t [] = t ∷ []
insert_by_id t (u ∷ us) =
    let rest = insert_by_id t us in if leb t.task_id u.task_id then t ∷ u ∷ us else u ∷ rest

unfoldable pub order_by_id : List Task → List Task
unfolding insert_by_id
order_by_id [] = []
order_by_id (t ∷ ts) = insert_by_id t (order_by_id ts)

unfoldable pub get_availability : (ℕ → ℕ) → ℕ → ℕ → Db → Snapshot
unfolding sum_allocated sum_consumed sum_refunded order_by_id total_of
get_availability day_of user date db = record {
  total_available = total_of user date db.times;
  allocated = sum_allocated user date db;
  consumed = sum_consumed user date db;
  refunded = sum_refunded day_of user date db.refunds;
  remaining_seconds = remaining user date db;
  can_create_task = ltb_ℤ (pos 0) (remaining user date db);
  tasks_breakdown =
      order_by_id (filter (λ t. of_day user date t && is_allocated t.status) db.tasks);
}

unfoldable pub check_duration : Option Amount → Result ℕ
check_duration none = err duration_required
check_duration (some not_whole) = err duration_out_of_range
check_duration (some (whole (negsuc n))) = err duration_out_of_range
check_duration (some (whole (pos n))) =
    if n == 0
    then err duration_required
    else if ltb n min_duration_sec || ltb max_duration_sec n
    then err duration_out_of_range
    else ok n

abbrev pub is_open_priority : ℕ → ℕ → Task → Bool
is_open_priority user date t = of_day user date t && (t.is_priority && is_active t.status)

-- The first task with priority that is found, if any, is in the answer.
abbrev pub refuse_second : Option Task → Query (Unit {0})
refuse_second none = pure tt
refuse_second (some t) = throw (priority_task_exists t.task_id t.title)

abbrev pub no_priority : ℕ → ℕ → Bool → Query (Unit {0})
no_priority user date false db = pure tt db
no_priority user date true db = refuse_second (find (is_open_priority user date) db.tasks) db

abbrev pub new_task : ℕ → ℕ → List ℕ → ℕ → Bool → ℕ → ℕ → Task
new_task id user title dur is_priority date now = record {
  task_id = id;
  user_id = user;
  title = title;
  status = pending;
  timer_status = t_idle;
  estimated_duration = some dur;
  elapsed_time = some (pos 0);
  scheduled_date = date;
  deadline = none;
  is_priority = is_priority;
  is_deferred = false;
  deferred_count = 0;
  completed_at = none;
  timer_started_at = none;
  created_at = now;
}

unfoldable pub insert_task : ℕ → List ℕ → ℕ → Bool → ℕ → ℕ → Query Task
insert_task user title dur is_priority date now db =
    let row = new_task db.next_id user title dur is_priority date now in
    (ok row, record db { tasks = row ∷ db.tasks; next_id = db.next_id + 1 })

-- The transaction of `reserveAndCreateTask`.
unfoldable pub reserve : ℕ → List ℕ → ℕ → Bool → ℕ → ℕ → Query Task
unfolding lock_and_get_total sum_allocated sum_consumed insert_task
reserve user title dur is_priority date now = do
  total ← lock_and_get_total user date
  allocated ← gets (sum_allocated user date)
  consumed ← gets (sum_consumed user date)
  let rest = pos total -ℤ pos allocated -ℤ consumed
  throw_if (ltb_ℤ rest (pos dur)) (insufficient_available_time rest dur)
  no_priority user date is_priority
  insert_task user title dur is_priority date now

-- `date` is the date of `now`.
unfoldable pub reserve_and_create_task : ℕ → List ℕ → Option Amount → Bool → ℕ → ℕ → Query Task
unfolding reserve check_duration
reserve_and_create_task user title duration is_priority date now = do
  dur ← of_result (check_duration duration)
  with_tx (reserve user title dur is_priority date now)

unfoldable pub check_elapsed : Amount → Result ℕ
check_elapsed (whole (pos n)) = ok n
check_elapsed _ = err invalid_elapsed

abbrev pub found : Option Task → Query Task
found none = throw task_not_found
found (some t) = pure t

-- SELECT ... WHERE task_id = $1 FOR UPDATE, and whose task it is.
unfoldable pub own_task : ℕ → ℕ → Query Task
own_task user id db =
    (do t ← found (find_task id db.tasks); throw_if (not (t.user_id == user)) forbidden; pure t) db

abbrev pub refund_rows : ℕ → ℕ → ℕ → ℕ → List Refund
refund_rows user id refund now =
    if ltb 0 refund
    then record { user_id = user; task_id = id; refunded_seconds = refund; created_at = now } ∷ []
    else []

abbrev pub complete_row : ℕ → ℕ → Task → Task
complete_row elapsed completed_at t = record t {
  status = completed_task;
  elapsed_time = some (pos elapsed);
  completed_at = some completed_at;
}

-- The transaction of `completeTask`; `now` is the database's clock.
unfoldable pub complete : ℕ → ℕ → ℕ → ℕ → ℕ → Query ℕ
unfolding own_task
complete user id elapsed completed_at now = do
  t ← own_task user id
  let refund = (t.estimated_duration or 0) - elapsed
  update (λ db. record db { refunds = refund_rows user id refund now ++ db.refunds })
  update (λ db. record db { tasks = update_task id (complete_row elapsed completed_at) db.tasks })
  pure refund

-- The answer is the refund.
unfoldable pub complete_task : ℕ → ℕ → Amount → ℕ → ℕ → Query ℕ
unfolding check_elapsed complete
complete_task user id elapsed completed_at now = do
  spent ← of_result (check_elapsed elapsed)
  with_tx (complete user id spent completed_at now)

unfoldable pub check_available : Amount → Result ℕ
check_available (whole (pos n)) = ok n
check_available _ = err invalid_available

-- The transaction of `setAvailableTime`.
unfoldable pub set_time : ℕ → ℕ → ℕ → Query ℕ
unfolding lock_and_get_total sum_allocated upsert_time
set_time user seconds date = do
  _ ← lock_and_get_total user date
  allocated ← gets (sum_allocated user date)
  throw_if (ltb seconds allocated) (available_below_allocated allocated)
  update (λ db. record db { times = upsert_time user date seconds (λ _. seconds) db.times })
  pure allocated

-- The answer is the allocated time.
unfoldable pub set_available_time : ℕ → Amount → ℕ → Query ℕ
unfolding check_available set_time
set_available_time user seconds date = do
  n ← of_result (check_available seconds)
  with_tx (set_time user n date)
