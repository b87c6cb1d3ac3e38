-- ===== src/Alarm/Scheduler.antt =====
-- alarm-system/src/queue/alarmScheduler.ts: the delayed job of each task's alarm. A job is known by the
-- id of its task, from which its own id is made; the queue is what BullMQ has.
pub mod Once
mod Tests
use task_manger_project.Common.{
  ℕ, zero, suc, Bool, true, false, not, List, leb, filter, any, ◌+◌, ◌-◌, ◌||◌, ◌∷◌, ◌==◌,
  if◌then◌else◌,
}

pub record Job : Type 0 where
  pub task_id : ℕ
  pub user_id : ℕ
  pub title : List ℕ
  pub deadline : ℕ
  pub is_deferred : Bool
  pub deferred_count : ℕ
  pub delay : ℕ
  -- The time of the queue when it takes the job, from which it counts the delay.
  pub added_at : ℕ

abbrev pub rings_at : Job → ℕ
rings_at j = j.added_at + j.delay

abbrev pub lead_ms : ℕ
lead_ms = 300_000

abbrev pub max_retries : ℕ
max_retries = 3

-- `backoffTimes[attempt - 1]`
unfoldable pub backoff : ℕ → ℕ
backoff zero = 0
backoff (suc zero) = 1000
backoff (suc (suc zero)) = 2000
backoff (suc (suc (suc n))) = 4000

-- What a call has come to: the queue, whether it threw, and the milliseconds it waited.
pub record Done : Type 0 where
  pub queue : List Job
  pub threw : Bool
  pub waited : ℕ

-- `lookup` says whether the queue answers; a job that is not there is no error.
unfoldable pub cancel_alarm : Bool → ℕ → List Job → Done
cancel_alarm lookup task_id queue =
    if lookup
    then record {
      queue = filter (λ j. not (j.task_id == task_id)) queue;
      threw = false;
      waited = 0;
    }
    else record { queue = queue; threw = true; waited = 0 }

-- BullMQ's `add` with the id of a job that is there leaves that job.
abbrev pub add_job : Job → List Job → List Job
add_job job queue = if any (λ j. j.task_id == job.task_id) queue then queue else job ∷ queue

-- The loop from attempt `attempt` on, with `left` retries, at a time; `adds n` says whether the
-- attempt n is taken by the queue. Only the pauses take time.
unfoldable pub enqueue : (ℕ → Bool) → ℕ → ℕ → ℕ → Job → List Job → Done
unfolding backoff
enqueue adds zero attempt now job queue =
    if adds attempt
    then record { queue = add_job (record job { added_at = now }) queue; threw = false; waited = 0 }
    else record { queue = queue; threw = true; waited = 0 }
enqueue adds (suc left) attempt now job queue =
    let rest = enqueue adds left (attempt + 1) (now + backoff (attempt + 1)) job queue in
    if adds attempt
    then record { queue = add_job (record job { added_at = now }) queue; threw = false; waited = 0 }
    else record rest { waited = backoff (attempt + 1) + rest.waited }

-- `targetMs - Date.now()`, and 0 where that is negative.
unfoldable pub final_delay : ℕ → ℕ → ℕ
final_delay deadline now = deadline - lead_ms - now

-- `job` carries the data of the task; its delay is set here, before the attempts.
unfoldable pub schedule_alarm : Bool → (ℕ → Bool) → ℕ → Job → List Job → Done
unfolding cancel_alarm enqueue final_delay
schedule_alarm lookup adds now job queue =
    let cancelled = cancel_alarm lookup job.task_id queue in
    if leb job.deadline now || cancelled.threw
    then cancelled
    else enqueue adds max_retries 0 now (record job { delay = final_delay job.deadline now })
        cancelled.queue
