-- ===== src/Alarm/Scheduler/Once.antt =====
-- alarmScheduler.ts: how many jobs a task has, and when a call of it ends.
use task_manger_project.Common.{
  ℕ, zero, suc, refl, ap, inl, inr, Bool, true, false, not, List, [], arith, ltb, leb, Bool-cases,
  filter, any, ◌+◌, ◌≤◌, ◌<◌, ◌≡◌, ◌∙◌, ◌≢◌, ◌⊎◌, ◌∷◌, ◌==◌, if◌then◌else◌,
}
use task_manger_project.Alarm.Scheduler.{
  Job, enqueue, backoff, max_retries, schedule_alarm, cancel_alarm, final_delay, Done, rings_at,
}

abbrev pub is_job_of : ℕ → Job → Bool
is_job_of id j = j.task_id == id

abbrev pub jobs_of : ℕ → List Job → List Job
jobs_of id q = filter (is_job_of id) q

no_job : (id : ℕ) (q : List Job) → jobs_of id (filter (λ j. not (j.task_id == id)) q) ≡ []
no_job id [] = refl
no_job id (j ∷ q) = ground (arith, no_job id q)

other_jobs :
    (id k : ℕ) (q : List Job)
    → k ≢ id
    → jobs_of k (filter (λ j. not (j.task_id == id)) q) ≡ jobs_of k q
other_jobs id k [] h = refl
other_jobs id k (j ∷ q) h = ground (arith, other_jobs id k q h)

none_any : (id : ℕ) (q : List Job) → jobs_of id q ≡ [] → any (is_job_of id) q ≡ false
none_any id [] h = refl
none_any id (j ∷ q) h = elim (Bool-cases (j.task_id == id)) [
  | inl yes' ↦ absurd (ground (arith, yes', h))
  | inr no' ↦ ground (arith, no', none_any id q, h)
]

-- The first attempt that is taken decides; the job that is taken is added after the pauses.
enqueue_lem :
    (adds : ℕ → Bool) (left attempt now : ℕ) (job : Job) (q : List Job)
    → jobs_of job.task_id q ≡ []
    → let done = enqueue adds left attempt now job q in
      ((done.threw ≡ false) × (done.queue ≡ record job { added_at = now + done.waited } ∷ q))
      ⊎ ((done.threw ≡ true) × (done.queue ≡ q))
unfolding enqueue
enqueue_lem adds zero attempt now job q h = elim (Bool-cases (adds attempt)) [
  | inl taken ↦ inl (ground (arith, taken, none_any job.task_id q h))
  | inr refused ↦ inr (ground (arith, refused))
]
enqueue_lem adds (suc left) attempt now job q h = elim (Bool-cases (adds attempt)) [
  | inl taken ↦ inl (ground (arith, taken, none_any job.task_id q h))
  | inr refused ↦ elim (enqueue_lem adds left (attempt + 1) (now + backoff (attempt + 1)) job q h) [
    | inl (fine, same) ↦ inl (
        rw refused
          (fine, later (enqueue adds left (attempt + 1) (now + backoff (attempt + 1)) job q) same))
    | inr (thrown, same) ↦ inr (rw refused (thrown, same))
  ]
]
  where
    later :
        (d : Done)
        → d.queue ≡ record job { added_at = now + backoff (attempt + 1) + d.waited } ∷ q
        → d.queue ≡ record job { added_at = now + (backoff (attempt + 1) + d.waited) } ∷ q
    later d e = e ∙ ap (λ n. record job { added_at = n } ∷ q) (omega arith)

outcome :
    (job : Job) (q : List Job) (now : ℕ) (r : Done)
    → ((r.threw ≡ false) × (r.queue ≡ record job { added_at = now + r.waited } ∷ q))
      ⊎ ((r.threw ≡ true) × (r.queue ≡ q))
    → jobs_of job.task_id q ≡ []
    → (r.threw ≡ false
        → jobs_of job.task_id r.queue ≡ record job { added_at = now + r.waited } ∷ [])
      × (r.threw ≡ true → jobs_of job.task_id r.queue ≡ [])
      × ((k : ℕ) → k ≢ job.task_id → jobs_of k r.queue ≡ jobs_of k q)
outcome job q now r (inl (fine, same)) h =
    (λ e. rw same (ground (arith, h)), λ e. absurd (cc), λ k n. rw same (ground (arith, n)))
outcome job q now r (inr (thrown, same)) h = (λ e. absurd (cc), λ e. rw same h, λ k n. rw same refl)

waits :
    (adds : ℕ → Bool) (now : ℕ) (job : Job) (q : List Job)
    → (enqueue adds max_retries 0 now job q).waited ≤ 7000
unfolding enqueue backoff
waits adds now job q = ground arith

-- The job that a call leaves: its delay is that of the call, and it was added after the pauses.
abbrev pub left_job : ℕ → Job → Done → Job
left_job now job done = record job {
  delay = final_delay job.deadline now;
  added_at = now + done.waited;
}

ring_bounds :
    (now waited deadline : ℕ)
    → waited ≤ 7000
    → now < deadline
    → (deadline ≤ now + waited + final_delay deadline now + 300_000)
      × (now + waited < deadline → now + waited + final_delay deadline now < deadline)
unfolding final_delay
ring_bounds now waited deadline w h = (omega arith, λ e. omega arith)

-- A call of `scheduleAlarm` that does not throw leaves the task with exactly one job, or with none if
-- the deadline has passed. The job rings at most 5 minutes before the deadline, and it rings before
-- the deadline if the pauses between the attempts, which count in before the delay starts, end
-- before it. A call that throws after the queue answered leaves the task with none. Each
-- leaves the jobs of all other tasks alone and pauses no longer than 7 seconds.
pub schedule_once :
    (lookup : Bool) (adds : ℕ → Bool) (now : ℕ) (job : Job) (q : List Job)
    → let done = schedule_alarm lookup adds now job q in
      let new = left_job now job done in
      (done.threw ≡ false
        → jobs_of job.task_id done.queue ≡ (if ltb now job.deadline then new ∷ [] else []))
      × (now < job.deadline
          → (job.deadline ≤ rings_at new + 300_000)
            × (now + done.waited < job.deadline → rings_at new < job.deadline))
      × (lookup ≡ true → done.threw ≡ true → jobs_of job.task_id done.queue ≡ [])
      × ((k : ℕ) → k ≢ job.task_id → jobs_of k done.queue ≡ jobs_of k q)
      × (done.waited ≤ 7000)
unfolding schedule_alarm cancel_alarm
schedule_once false adds now job q = elim (Bool-cases (leb job.deadline now)) [
  | inl late ↦ rw late (
    λ e. absurd (cc),
    λ h. absurd (ground (arith, late, h)),
    λ e. absurd (cc),
    λ k h. refl,
    omega arith,
  )
  | inr early ↦ rw early (
    λ e. absurd (cc),
    λ h. ring_bounds now 0 job.deadline (omega arith) h,
    λ e. absurd (cc),
    λ k h. refl,
    omega arith,
  )
]
schedule_once true adds now job q =
    let job' = record job { delay = final_delay job.deadline now } in
    let left = filter (λ j. not (j.task_id == job.task_id)) q in
    let done = enqueue adds max_retries 0 now job' left in
    let tried = enqueue_lem adds max_retries 0 now job' left (no_job job.task_id q) in
    elim (Bool-cases (leb job.deadline now)) [
      | inl late ↦
          let not_before : ltb now job.deadline ≡ false = ground (arith, late) in
          rw (late, not_before)
            (
              λ e. no_job job.task_id q,
              λ h. absurd (ground (arith, late, h)),
              λ e t. absurd (cc),
              λ k h. other_jobs job.task_id k q h,
              omega arith,
            )
      | inr early ↦
          let after = outcome job' left now done tried (no_job job.task_id q) in
          let is_before : ltb now job.deadline ≡ true = ground (arith, early) in
          rw (early, is_before)
            (
              after.0,
              λ h. ring_bounds now done.waited job.deadline (waits adds now job' left) h,
              λ e. after.1,
              λ k h. after.2 k h ∙ other_jobs job.task_id k q h,
              waits adds now job' left,
            )
    ]
