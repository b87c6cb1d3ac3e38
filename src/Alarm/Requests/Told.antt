-- ===== src/Alarm/Requests/Told.antt =====
-- The requests on tasks and the cache of priorityTaskService.ts: what each does to the answer that the
-- cache gives a user.
use task_manger_project.Common.{
  ℕ, refl, sym, ap, inl, inr, Bool, true, false, Option, none, some, List, [], arith, ==_iff,
  Bool-cases, length, find, any, ℤ, ◌≡◌, ◌∙◌, ◌&&◌, ◌∷◌, ◌==◌,
}
use task_manger_project.Alarm.Database.{Task, Db}
use task_manger_project.Alarm.Database.Query.{Result, ok, err}
use task_manger_project.Alarm.AvailableTime.{is_open_priority}
use task_manger_project.Alarm.Priority.{
  Cache, is_some, read_through, get_active_priority, has_priority_task, invalidate,
  release_priority, is_own_priority, demote,
}
use task_manger_project.Alarm.AvailableTime.Sums.{reserve_lem, set_lem}
use task_manger_project.Alarm.Sanitize.{trim}
use task_manger_project.Alarm.Transitions.{Action}
use task_manger_project.Alarm.Database.Rows.{Unique}
use task_manger_project.Alarm.Requests.{
  World, then_invalidate, Field, to_number, is_self, asked_user, post_task, put_available_time,
  get_priority, patch_status, patch_priority, patch_complete, is_false,
}
use task_manger_project.Alarm.Requests.Atomic.{
  Atomic, reserve-Atomic, set-Atomic, act-Atomic, complete-Atomic,
}
use task_manger_project.Alarm.Requests.Isolated.{others, others-demote, Isolated-steps}

abbrev pub has_open : ℕ → ℕ → Db → Bool
has_open u date db = is_some (find (is_open_priority u date) db.tasks)

-- What a user's entry says, or the database where there is none.
abbrev pub cached_or : Option Bool → Bool → Bool
cached_or none exists = exists
cached_or (some b) exists = b

abbrev pub Told : ℕ → ℕ → Cache → Db → Type 0
Told u date cache db = cached_or (cache u) (has_open u date db) ≡ has_open u date db

is_some-find : (p : Task → Bool) (ts : List Task) → is_some (find p ts) ≡ any p ts
is_some-find p [] = refl
is_some-find p (t ∷ ts) = ground (arith, is_some-find p ts)

any-others :
    (u user date : ℕ) (ts : List Task)
    → (u == user) ≡ false
    → any (is_open_priority u date) ts ≡ any (is_open_priority u date) (others user ts)
any-others u user date [] h = refl
any-others u user date (t ∷ ts) h = ground (arith, any-others u user date ts h, h)

-- What others do is not seen.
others_same :
    (u user date : ℕ) (db db' : Db)
    → (u == user) ≡ false
    → others user db'.tasks ≡ others user db.tasks
    → has_open u date db' ≡ has_open u date db
others_same u user date db db' h e =
    is_some-find (is_open_priority u date) db'.tasks
    ∙ any-others u user date db'.tasks h
    ∙ ap (any (is_open_priority u date)) e
    ∙ sym (any-others u user date db.tasks h)
    ∙ sym (is_some-find (is_open_priority u date) db.tasks)

module _ (u user date : ℕ) (w : World) (up : w.redis.dels ≡ true)
    (told : Told u date w.cache w.db) where
  moved : (db' : Db) → has_open u date db' ≡ has_open u date w.db → Told u date w.cache db'
  moved db' e = rw e told

  -- A call that goes through either drops the entry, or leaves the answer.
  called-Told :
      {A : Type 0} (drops : Bool) (r : Result A × Db)
      → Atomic w.db r
      → ((a : A) (db' : Db)
          → r ≡ (ok a, db')
          → (u == user && drops) ≡ false
          → has_open u date db' ≡ has_open u date w.db)
      → Told u date (then_invalidate user drops w r).1.cache (then_invalidate user drops w r).1.db
  unfolding invalidate
  called-Told false (ok a, db') h k = moved db' (k a db' refl (ground arith))
  called-Told true (ok a, db') h k = elim (Bool-cases (u == user)) [
    | inl self ↦ rw (up, self) refl
    | inr other ↦ rw (up, other) (moved db' (k a db' refl (ground (arith, other))))
  ]
  called-Told drops (err e, db') h k = moved db' (ap (has_open u date) h)

  -- One that drops the entry, and reaches no task of another user.
  dropped-Told :
      {A : Type 0} (r : Result A × Db)
      → Atomic w.db r
      → ((a : A) (db' : Db) → r ≡ (ok a, db') → others user db'.tasks ≡ others user w.db.tasks)
      → Told u date (then_invalidate user true w r).1.cache (then_invalidate user true w r).1.db
  dropped-Told r h k =
      called-Told true r h
        (λ a db' e other. others_same u user date w.db db' (ground (arith, other)) (k a db' e))

release-Atomic : (user id : ℕ) (db : Db) → Atomic db (release_priority user id db)
unfolding release_priority
release-Atomic user id db = elim (Bool-cases (any (is_own_priority user id) db.tasks)) [
  | inl there ↦ rw there tt
  | inr gone ↦ rw gone refl
]

released_others :
    (user id : ℕ) (db db' : Db) (a : Unit)
    → release_priority user id db ≡ (ok a, db')
    → others user db'.tasks ≡ others user db.tasks
unfolding release_priority
released_others user id db db' a e = elim (Bool-cases (any (is_own_priority user id) db.tasks)) [
  | inl there ↦
      let changed : record db { tasks = demote user id db.tasks } ≡ db' =
        ground (arith, there, e) in
      ap (λ d. others user d.tasks) (sym changed) ∙ others-demote user id db.tasks
  | inr gone ↦ absurd (ground (arith, gone, e))
]

module _ (u date : ℕ) (w : World) (up : w.redis.dels ≡ true) (told : Told u date w.cache w.db) where
  pub posted-Told :
      (user : ℕ) (title : Option (List ℕ)) (duration : Field) (prio : Bool) (day now : ℕ)
      → let w' = (post_task user title duration prio day now w).1 in Told u date w'.cache w'.db
  unfolding post_task
  posted-Told user none duration prio day now = told
  posted-Told user (some title) duration prio day now =
      let amount = some (to_number duration) in
      elim (Bool-cases (length (trim title) == 0)) [
        | inl empty ↦ rw empty told
        | inr full ↦ rw full (
            called-Told u user date w up told prio _
              (reserve-Atomic user (trim title) amount prio day now w.db)
              (λ row db' e other.
                let (dur, checked, new, changed, fits, alone) =
                  reserve_lem user (trim title) amount prio day now w.db db' row e in
                rw (changed, new) (ground (arith, other))))
      ]

  pub put-Told :
      (user : ℕ) (id : Option ℕ) (seconds : Field) (day : ℕ)
      → let w' = (put_available_time user id seconds day w).1 in Told u date w'.cache w'.db
  unfolding put_available_time
  put-Told user id seconds day = elim (Bool-cases (is_self user id)) [
    | inl self ↦ rw self (
        called-Told u user date w up told false _ (set-Atomic user (to_number seconds) day w.db)
          (λ allocated db' e other.
            let (n, is_n, is_sum, covers, changed) =
              set_lem user (to_number seconds) day w.db db' allocated e in
            rw changed refl))
    | inr other ↦ rw other told
  ]

  read_through-Told :
      (user : ℕ) (o : Option Bool)
      → w.cache user ≡ o
      → let (answer, cache) = read_through w.redis user o (has_open user date w.db) w.cache in
        Told u date cache w.db
  read_through-Told user (some b) e = told
  read_through-Told user none e = elim (Bool-cases w.redis.sets) [
    | inr down ↦ rw down told
    | inl kept ↦ elim (Bool-cases (u == user)) [
      | inl same ↦ rw (kept, same) (ap (λ k. has_open k date w.db) (sym ((==_iff u user).0 same)))
      | inr other ↦ rw (kept, other) told
    ]
  ]

  pub asked-Told :
      (user : ℕ) (asked : Option (Option ℕ))
      → let w' = (get_priority user asked date w).1 in Told u date w'.cache w'.db
  unfolding get_priority has_priority_task get_active_priority
  asked-Told user asked = elim (Bool-cases (is_self user (asked_user user asked))) [
    | inl self ↦ elim (Bool-cases w.redis.gets) [
      | inl fine ↦ rw (self, fine) (read_through-Told user (w.cache user) refl)
      | inr down ↦ rw (self, down) told
    ]
    | inr other ↦ rw other told
  ]

  pub completed-Told :
      (user : ℕ) (id : Option ℕ) (elapsed : Field) (completed_at now : ℕ)
      → Unique w.db.tasks
      → let w' = (patch_complete user id elapsed completed_at now w).1 in Told u date w'.cache w'.db
  unfolding patch_complete
  completed-Told user none elapsed completed_at now v = told
  completed-Told user (some id) elapsed completed_at now v =
      dropped-Told u user date w up told _
        (complete-Atomic user id (to_number elapsed) completed_at now w.db)
        (λ refund db' e.
          (Isolated-steps.completing user id (to_number elapsed) completed_at now w.db db' refund e
            v).0)

  pub acted-Told :
      (user : ℕ) (id : Option ℕ) (action : Option Action) (elapsed : Option ℤ) (now : ℕ)
      → Unique w.db.tasks
      → let w' = (patch_status user id action elapsed now w).1 in Told u date w'.cache w'.db
  unfolding patch_status
  acted-Told user none action elapsed now v = told
  acted-Told user (some id) none elapsed now v = told
  acted-Told user (some id) (some action) elapsed now v =
      dropped-Told u user date w up told _ (act-Atomic user id action elapsed now w.db)
        (λ receipt db' e.
          (Isolated-steps.acting user id action elapsed now w.db db' receipt tt e v).0)

  pub released-Told :
      (user : ℕ) (id : Option ℕ) (flag : Option Bool)
      → let w' = (patch_priority user id flag w).1 in Told u date w'.cache w'.db
  unfolding patch_priority
  released-Told user none flag = told
  released-Told user (some id) flag = elim (Bool-cases (is_false flag)) [
    | inl yes' ↦ rw yes' (
        dropped-Told u user date w up told _ (release-Atomic user id w.db)
          (λ a db' e. released_others user id w.db db' a e))
    | inr no' ↦ rw no' told
  ]
