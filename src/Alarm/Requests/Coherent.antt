-- ===== src/Alarm/Requests/Coherent.antt =====
-- The requests on tasks and the cache of priorityTaskService.ts: what is answered from the cache is
-- what the database would answer.
use mathlib.Core.Path.{subst}
use task_manger_project.Common.{
  ℕ, refl, sym, ap, inl, inr, Bool, true, false, Option, none, some, List, [], arith, ==_iff,
  Bool-cases, length, All, some_path, some_path, ◌≡◌, ◌∙◌, ◌∷◌, ◌==◌,
}
use task_manger_project.Alarm.Database.Rows.{Unique}
use task_manger_project.Alarm.Sanitize.{trim}
use task_manger_project.Alarm.Database.{Db}
use task_manger_project.Alarm.Database.Query.{Result, ok, err}
use task_manger_project.Alarm.Priority.{
  Redis, Cache, read_through, is_some, get_active_priority, has_priority_task,
}
use task_manger_project.Alarm.Requests.{
  Field, is_self, is_false, then_invalidate, post_task, patch_complete, put_available_time,
  patch_status, patch_priority, delete_task, World, Op, posts, completes, puts, acts, asks,
  releases, deletes, get_priority, handle, handle_all,
}
use task_manger_project.Alarm.Requests.Numbered.{IsNumbered, handle-IsNumbered}
use task_manger_project.Alarm.Requests.Told.{
  Told, cached_or, has_open, posted-Told, put-Told, asked-Told, completed-Told, acted-Told,
  released-Told,
}

abbrev pub all_up : Redis
all_up = record { gets = true; sets = true; dels = true }

-- For each user, `hasPriorityTask` answers what the database has for the date, when Redis can be asked.
unfoldable pub IsCoherent : ℕ → World → Type 0
IsCoherent date w =
    (u : ℕ)
    → (has_priority_task all_up u date w.db w.cache).0
      ≡ some (is_some (get_active_priority u date w.db))

-- A request that asks about the date, if about any, and deletes nothing.
abbrev pub keeps : ℕ → Op → Bool
keeps date (asks user asked day) = day == date
keeps date (deletes user id) = false
keeps date _ = true

told_read :
    (redis : Redis) (u : ℕ) (o : Option Bool) (exists : Bool) (cache : Cache)
    → redis.sets ≡ true
    → (read_through redis u o exists cache).0 ≡ some (cached_or o exists)
told_read redis u none exists cache e = rw e refl
told_read redis u (some b) exists cache e = refl

-- What is told where Redis can be asked is what the entry or else the database says.
told_up :
    (u date : ℕ) (w : World)
    → (has_priority_task all_up u date w.db w.cache).0
      ≡ some (cached_or (w.cache u) (has_open u date w.db))
unfolding has_priority_task get_active_priority
told_up u date w = told_read all_up u (w.cache u) (has_open u date w.db) w.cache refl

handle-Told :
    (u date : ℕ) (op : Op) (w : World)
    → keeps date op ≡ true
    → w.redis.dels ≡ true
    → Unique w.db.tasks
    → Told u date w.cache w.db
    → Told u date (handle op w).cache (handle op w).db
unfolding handle
handle-Told u date (posts user title duration prio day now) w k up v h =
    posted-Told u date w up h user title duration prio day now
handle-Told u date (completes user id elapsed at now) w k up v h =
    completed-Told u date w up h user id elapsed at now v
handle-Told u date (puts user id seconds day) w k up v h =
    put-Told u date w up h user id seconds day
handle-Told u date (acts user id action elapsed now) w k up v h =
    acted-Told u date w up h user id action elapsed now v
handle-Told u date (asks user asked day) w k up v h =
    subst (λ d. let w' = (get_priority user asked d w).1 in Told u date w'.cache w'.db)
      (sym ((==_iff day date).0 k)) (asked-Told u date w up h user asked)
handle-Told u date (releases user id flag) w k up v h = released-Told u date w up h user id flag
handle-Told u date (deletes user id) w k up v h = absurd (cc)

invalidated-redis :
    {A : Type 0} (user : ℕ) (drops : Bool) (w : World) (r : Result A × Db)
    → (then_invalidate user drops w r).1.redis ≡ w.redis
invalidated-redis user false w (ok a, db) = refl
invalidated-redis user true w (ok a, db) = refl
invalidated-redis user drops w (err e, db) = refl

posted-redis :
    (user : ℕ) (title : Option (List ℕ)) (duration : Field) (prio : Bool) (day now : ℕ) (w : World)
    → (post_task user title duration prio day now w).1.redis ≡ w.redis
unfolding post_task
posted-redis user none duration prio day now w = refl
posted-redis user (some title) duration prio day now w =
    elim (Bool-cases (length (trim title) == 0)) [
      | inl empty ↦ rw empty refl
      | inr full ↦ rw full (invalidated-redis user prio w _)
    ]

put-redis :
    (user : ℕ) (id : Option ℕ) (seconds : Field) (day : ℕ) (w : World)
    → (put_available_time user id seconds day w).1.redis ≡ w.redis
unfolding put_available_time
put-redis user id seconds day w = elim (Bool-cases (is_self user id)) [
  | inl self ↦ rw self (invalidated-redis user false w _)
  | inr other ↦ rw other refl
]

asked-redis :
    (user : ℕ) (asked : Option (Option ℕ)) (day : ℕ) (w : World)
    → (get_priority user asked day w).1.redis ≡ w.redis
unfolding get_priority
asked-redis user asked day w = ground arith

released-redis :
    (user : ℕ) (id : Option ℕ) (flag : Option Bool) (w : World)
    → (patch_priority user id flag w).1.redis ≡ w.redis
unfolding patch_priority
released-redis user none flag w = refl
released-redis user (some id) flag w = elim (Bool-cases (is_false flag)) [
  | inl yes' ↦ rw yes' (invalidated-redis user true w _)
  | inr no' ↦ rw no' refl
]

deleted-redis : (user : ℕ) (id : Option ℕ) (w : World) → (delete_task user id w).1.redis ≡ w.redis
unfolding delete_task
deleted-redis user none w = refl
deleted-redis user (some id) w = ground arith

handle-redis : (op : Op) (w : World) → (handle op w).redis ≡ w.redis
unfolding handle patch_complete patch_status
handle-redis (posts user title duration prio day now) w =
    posted-redis user title duration prio day now w
handle-redis (completes user none elapsed at now) w = refl
handle-redis (completes user (some id) elapsed at now) w = invalidated-redis user true w _
handle-redis (puts user id seconds day) w = put-redis user id seconds day w
handle-redis (acts user none action elapsed now) w = refl
handle-redis (acts user (some id) none elapsed now) w = refl
handle-redis (acts user (some id) (some action) elapsed now) w = invalidated-redis user true w _
handle-redis (asks user asked day) w = asked-redis user asked day w
handle-redis (releases user id flag) w = released-redis user id flag w
handle-redis (deletes user id) w = deleted-redis user id w

all_told :
    (u date : ℕ) (ops : List Op) (w : World)
    → All (λ op. keeps date op ≡ true) ops
    → w.redis.dels ≡ true
    → IsNumbered w.db
    → Told u date w.cache w.db
    → Told u date (handle_all ops w).cache (handle_all ops w).db
unfolding handle_all
all_told u date [] w k up n h = h
all_told u date (op ∷ ops) w k up n h =
    all_told u date ops (handle op w) k.1 (ap (λ x. x.dels) (handle-redis op w) ∙ up)
      (handle-IsNumbered op w n) (handle-Told u date op w k.0 up n.distinct h)

-- Whatever requests come, one after the other, in any order and from any users, what a user is told
-- from the cache about an open task with priority on the date is what the database has, if it was
-- so at first, if every DEL of the cache goes through, if no task is deleted and no other date is
-- asked about, and if the ids of the tasks are distinct and below the next one.
pub handle_all-IsCoherent :
    (date : ℕ) (ops : List Op) (w : World)
    → All (λ op. keeps date op ≡ true) ops
    → w.redis.dels ≡ true
    → IsNumbered w.db
    → IsCoherent date w
    → IsCoherent date (handle_all ops w)
unfolding IsCoherent get_active_priority
handle_all-IsCoherent date ops w k up n h u =
    let before : Told u date w.cache w.db = some_path (sym (told_up u date w) ∙ h u) in
    told_up u date (handle_all ops w) ∙ ap some (all_told u date ops w k up n before)
