-- ===== src/Tasks/Normalize.antt =====
-- taskStoreCore.js: normalising a task.

use task_manger_project.Common.{
  refl, Bool, true, false, Option, none, some, List, [], map, arith, ◌≡◌, ◌⊎◌, ◌∷◌,
}
use task_manger_project.Tasks.{
  Raw, Task, display, normalize_task, or_else, normalize_list, CreateError, classify_create_error,
  classify, priority_exists, insufficient_time, is_conflict, ErrorCode, priority_task_exists,
  insufficient_available_time, insufficient_time_code, available_below_allocated,
}

-- A task of the store, taken as a raw task.
pub to_raw : Task → Raw
to_raw t = record {
  id = some t.id;
  task_id = none;
  title = some t.title;
  category = some t.category;
  tag_labels = [];
  status = some (display t.status);
  dday = none;
  is_priority = some t.is_priority;
  is_priority_camel = none;
  estimated_duration = some t.estimated_duration;
  estimated_minutes = none;
  elapsed_time = some t.elapsed_time;
  due_date = t.due_date;
  deadline = none;
  overdue_days = some t.overdue_days;
  created_at = t.created_at;
  created_at_camel = none;
}

or_else-none {ℓ} : {A : Type ℓ} (o : Option A) → or_else o none ≡ o
or_else-none none = refl
or_else-none (some a) = refl

normalize-task : (t : Task) → normalize_task (to_raw t) ≡ t
unfolding normalize_task to_raw
normalize-task t = λ i. record {
  id = t.id;
  title = t.title;
  category = t.category;
  status = t.status;
  is_priority = t.is_priority;
  estimated_duration = t.estimated_duration;
  elapsed_time = t.elapsed_time;
  due_date = or_else-none t.due_date i;
  overdue_days = t.overdue_days;
  created_at = or_else-none t.created_at i;
}

normalize-tasks : (ts : List Task) → normalize_list (some (map to_raw ts)) ≡ ts
unfolding normalize_list
normalize-tasks [] = refl
normalize-tasks (t ∷ ts) = λ i. normalize-task t i ∷ normalize-tasks ts i

-- A list that is normalised and normalised again is the list normalised once.
pub normalize-to_raw :
    (raws : Option (List Raw))
    → normalize_list (some (map to_raw (normalize_list raws))) ≡ normalize_list raws
normalize-to_raw raws = normalize-tasks (normalize_list raws)

conflict_wins :
    (code : Option ErrorCode) {b : Bool} → b ≡ true → classify code b ≡ some priority_exists
unfolding classify
conflict_wins (some priority_task_exists) h = refl
conflict_wins _ h = ground arith

-- An error of status 409 is reported as PRIORITY_EXISTS whatever its code, also where the code says
-- that the available time is insufficient. With any other status those codes are reported as
-- INSUFFICIENT_TIME.
pub classify_conflict :
    (e : CreateError)
    → (is_conflict (or_else e.status e.response_status) ≡ true
        → classify_create_error e ≡ some priority_exists)
      × (is_conflict (or_else e.status e.response_status) ≡ false
          → (e.code ≡ some insufficient_available_time)
            ⊎ (e.code ≡ some insufficient_time_code)
            ⊎ (e.code ≡ some available_below_allocated)
          → classify_create_error e ≡ some insufficient_time)
unfolding classify_create_error
classify_conflict e =
    (λ h. conflict_wins (or_else e.code (or_else e.body_error e.body_code)) h, λ h c. ground arith)
