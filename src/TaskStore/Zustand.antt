-- ===== src/TaskStore/Zustand.antt =====
-- frontend/src/stores/taskStore.js: the same store as a Zustand store, which tells no other tabs. Its
-- `userId`, which never changes, is left out.
use Prim.Native.String.{String}
use task_manger_project.Common.{ℕ, refl, Bool, true, false, Option, none, some, List, [], ◌≡◌}
use task_manger_project.Tasks.{
  Task, Raw, Status, Action, CreateResult, success, normalize_task, normalize_list,
  classify_create_error, get_status, optimistic_status_for, apply_optimistic_status,
  apply_rollback_status, upsert_task, derive_is_empty, derive_has_priority_task,
  derive_priority_task,
}
use task_manger_project.TaskStore.{
  Dispatch, reducer, optimistic, rollback, sync_tasks, is_empty, has_priority_task, priority_task,
  State, Fetched, got, failed, fetch_begin, fetch_end, Created, result, thrown, CreateAnswer,
  created, refused, create_end, refuse, Update, begin_with, update_begin, Answer, accepted,
  rejected, final_status, update_end, message_or,
}

unfoldable pub empty_store : State
empty_store = record { tasks = []; is_loading = true; error = none }

unfoldable pub fetch_start : State → State
fetch_start s = record s { is_loading = true; error = none }

unfoldable pub fetch_done : State → Fetched → State
fetch_done s (got raw) = record s { tasks = normalize_list raw; is_loading = false }
fetch_done s (failed message) = record s {
  is_loading = false;
  error = some (message_or message "작업을 불러오지 못했어요.");
}

-- Unlike the provider's, this refusal leaves `isLoading` alone.
unfoldable pub create_refused : State → Option CreateResult → Option String → State × Created
create_refused s (some r) message = (s, result r)
create_refused s none message =
    (record s { error = some (message_or message "작업 추가에 실패했어요.") }, thrown)

unfoldable pub create_done : State → CreateAnswer → State × Created
unfolding create_refused
create_done s (created raw) =
    (record s { tasks = upsert_task s.tasks (normalize_task raw) }, result success)
create_done s (refused e message) = create_refused s (classify_create_error e) message

unfoldable pub optimistic_update_status : State → ℕ → Status → State
optimistic_update_status s id status = record s {
  tasks = apply_optimistic_status s.tasks id status;
}

unfoldable pub rollback_status : State → ℕ → Status → State
rollback_status s id previous = record s { tasks = apply_rollback_status s.tasks id previous }

unfoldable pub update_with : State → ℕ → Option Status → Option Status → State × Option Update
unfolding optimistic_update_status
update_with s id (some prev) (some hoped) = (
  optimistic_update_status s id hoped,
  some (record { task_id = id; previous = prev; hoped = hoped }),
)
update_with s id _ _ = (s, none)

unfoldable pub update_start : State → ℕ → Action → State × Option Update
unfolding update_with
update_start s id action =
    let prev = get_status s.tasks id in update_with s id prev (optimistic_status_for prev action)

-- The state, the status that the call returns, and whether `onError` is called.
pub record UpdateDone : Type 0 where
  pub state : State
  pub returned : Status
  pub on_error : Bool

-- Unlike the provider's, this failure leaves `isLoading` alone.
unfoldable pub update_done : State → Update → Answer → UpdateDone
unfolding optimistic_update_status rollback_status
update_done s u (accepted answer) =
    let next = final_status answer u.hoped in
    record { state = optimistic_update_status s u.task_id next; returned = next; on_error = false }
update_done s u rejected = record {
  state = record (rollback_status s u.task_id u.previous) { error = some "상태 변경에 실패했습니다." };
  returned = u.previous;
  on_error = true;
}

unfoldable pub sync : State → Option (List Raw) → State
sync s raw = record s { tasks = normalize_list raw; is_loading = false }

unfoldable pub clear_error : State → State
clear_error s = record s { error = none }

unfoldable pub select_is_empty : State → Bool
select_is_empty s = derive_is_empty s.tasks s.is_loading

unfoldable pub select_has_priority_task : State → Bool
select_has_priority_task s = derive_has_priority_task s.tasks

unfoldable pub select_priority_task : State → Option Task
select_priority_task s = derive_priority_task s.tasks

begin_alike :
    (s : State) (id : ℕ) (prev hoped : Option Status)
    → update_with s id prev hoped ≡ begin_with s id prev hoped
unfolding update_with begin_with
begin_alike s id none hoped = refl
begin_alike s id (some p) none = refl
begin_alike s id (some p) (some h) = refl

refused_alike :
    (s : State) (r : Option CreateResult) (message : Option String)
    → s.is_loading ≡ false
    → create_refused s r message ≡ ((refuse s r message).state, (refuse s r message).outcome)
unfolding create_refused refuse
refused_alike s (some r) message h = refl
refused_alike s none message h =
    λ i. (record s { is_loading = h i; error = some (message_or message "작업 추가에 실패했어요.") }, thrown)

fetched_alike : (s : State) (f : Fetched) → fetch_done s f ≡ fetch_end s f
unfolding fetch_done fetch_end
fetched_alike s (got raw) = refl
fetched_alike s (failed message) = refl

created_alike :
    (s : State) (c : CreateAnswer)
    → s.is_loading ≡ false
    → create_done s c ≡ ((create_end s c).state, (create_end s c).outcome)
unfolding create_done create_end
created_alike s (created raw) h = refl
created_alike s (refused e message) h = refused_alike s (classify_create_error e) message h

updated_alike :
    (s : State) (u : Update) (a : Answer)
    → s.is_loading ≡ false
    → ((update_done s u a).state ≡ (update_end s u a).state)
      × ((update_done s u a).returned ≡ (update_end s u a).returned)
      × ((update_done s u a).on_error ≡ (update_end s u a).on_error)
unfolding update_done update_end
updated_alike s u (accepted answer) h = (refl, refl, refl)
updated_alike s u rejected h = (
  λ i. record (rollback_status s u.task_id u.previous) {
    is_loading = h i;
    error = some "상태 변경에 실패했습니다.";
  },
  refl,
  refl,
)

-- In a store that is not loading, and whose state the provider has rendered, the Zustand store and the
-- provider do the same: every action, `fetchTasks`, `createTask` and `updateTaskStatus` before and
-- after the answer, `optimisticUpdateStatus`, `rollbackStatus`, `syncTasks` and `clearError`, gives
-- the same state, `createTask` and `updateTaskStatus` return the same and call `onError` alike,
-- and the three derived values are the same.
pub store-provider :
    (s : State) (id : ℕ) (action : Action) (status : Status) (u : Update) (f : Fetched)
    (c : CreateAnswer) (a : Answer) (raw : Option (List Raw))
    → s.is_loading ≡ false
    → (fetch_start s ≡ fetch_begin s)
      × (fetch_done s f ≡ fetch_end s f)
      × (create_done s c ≡ ((create_end s c).state, (create_end s c).outcome))
      × (update_start s id action ≡ update_begin s id action)
      × ((update_done s u a).state ≡ (update_end s u a).state)
      × ((update_done s u a).returned ≡ (update_end s u a).returned)
      × ((update_done s u a).on_error ≡ (update_end s u a).on_error)
      × (optimistic_update_status s id status ≡ reducer s (optimistic id status))
      × (rollback_status s id status ≡ reducer s (rollback id status))
      × (sync s raw ≡ sync_tasks s raw)
      × (clear_error s ≡ reducer s Dispatch.clear_error)
      × (select_is_empty s ≡ is_empty s)
      × (select_has_priority_task s ≡ has_priority_task s)
      × (select_priority_task s ≡ priority_task s)
unfolding fetch_start fetch_begin update_start update_begin optimistic_update_status rollback_status
    sync sync_tasks clear_error reducer select_is_empty is_empty select_has_priority_task
    has_priority_task select_priority_task priority_task
store-provider s id action status u f c a raw h =
    let (same_state, same_return, same_error) = updated_alike s u a h in
    (
      refl,
      fetched_alike s f,
      created_alike s c h,
      begin_alike s id (get_status s.tasks id)
          (optimistic_status_for (get_status s.tasks id) action),
      same_state,
      same_return,
      same_error,
      refl,
      refl,
      refl,
      refl,
      refl,
      refl,
      refl,
    )
