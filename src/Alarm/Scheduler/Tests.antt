-- ===== src/Alarm/Scheduler/Tests.antt =====
-- Runs of alarmScheduler.ts on concrete input.
use task_manger_project.Common.{
  ℕ, refl, Bool, true, false, List, [], ltb, codes, codes, ◌+◌, ◌≤◌, ◌<◌, ◌≡◌, ◌≢◌, ◌∷◌,
  if◌then◌else◌,
}
use task_manger_project.Alarm.Scheduler.{
  cancel_alarm, enqueue, backoff, Job, rings_at, final_delay, schedule_alarm,
}
use task_manger_project.Alarm.Scheduler.Once.{left_job, jobs_of, schedule_once}

abbrev job : Job
job = record {
  task_id = 4;
  user_id = 7;
  title = codes "essay";
  deadline = 900_000;
  is_deferred = false;
  deferred_count = 0;
  delay = 0;
  added_at = 0;
}

-- The queue refuses the first two attempts.
abbrev third : ℕ → Bool
third n = ltb 1 n

abbrev queue : List Job
queue = record job { delay = 7 } ∷ record job { task_id = 5 } ∷ []

near : final_delay 400_000 200_000 ≡ 0
unfolding final_delay
near = refl

-- A deadline 3 seconds ahead, and three refusals: the alarm rings 4 seconds after it.
abbrev fourth : ℕ → Bool
fourth n = ltb 2 n

rings_late :
    rings_at (
      left_job 0
        (record job { deadline = 3000 })
        (schedule_alarm true fourth 0 (record job { deadline = 3000 }) []))
    ≡ 7000
unfolding schedule_alarm cancel_alarm enqueue backoff final_delay
rings_late = refl

schedule_once_example :
    let done = schedule_alarm true third 200_000 job queue in
    let new = left_job 200_000 job done in
    (done.threw ≡ false → jobs_of 4 done.queue ≡ (if ltb 200_000 900_000 then new ∷ [] else []))
    × (200_000 < 900_000
        → (900_000 ≤ rings_at new + 300_000)
          × (200_000 + done.waited < 900_000 → rings_at new < 900_000))
    × (true ≡ true → done.threw ≡ true → jobs_of 4 done.queue ≡ [])
    × ((k : ℕ) → k ≢ 4 → jobs_of k done.queue ≡ jobs_of k queue)
    × (done.waited ≤ 7000)
schedule_once_example = schedule_once true third 200_000 job queue
