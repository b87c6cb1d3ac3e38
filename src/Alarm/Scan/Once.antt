-- ===== src/Alarm/Scan/Once.antt =====
-- overdueNotificationScheduler.ts: a task gets one notice a day, and the counters add up.
use task_manger_project.Common.{
  ℕ, suc, refl, sym, ap, inl, inr, Bool, true, Option, none, List, [], arith, Bool-cases,
  Option-cases, length, any, All, ℤ, ◌+◌, ◌≡◌, ◌∙◌, ◌⊎◌, ◌∷◌,
}
use task_manger_project.Alarm.Database.{Task}
use task_manger_project.Alarm.Messages.{
  BuiltNotification, build_overdue_notification, to_service_date, compute_overdue_days,
}
use task_manger_project.Alarm.Notices.{Notice, dispatch, emit_unread_count}
use task_manger_project.Alarm.Scan.{
  Run, Scan, is_of, days_late, service_date, refresh, insert_notice, upsert_notice, visit,
  visit_all, start_scan,
}

any-refresh :
    (k d t date : ℕ) (days : ℤ) (b : BuiltNotification) (ns : List Notice)
    → any (is_of k d) (refresh t date days b ns) ≡ any (is_of k d) ns
unfolding refresh
any-refresh k d t date days b [] = refl
any-refresh k d t date days b (n ∷ ns) = ground (arith, any-refresh k d t date days b ns)

length-refresh :
    (t date : ℕ) (days : ℤ) (b : BuiltNotification) (ns : List Notice)
    → length (refresh t date days b ns) ≡ length ns
unfolding refresh
length-refresh t date days b [] = refl
length-refresh t date days b (n ∷ ns) = ground (arith, length-refresh t date days b ns)

abbrev built : Run → Task → Option BuiltNotification
built run t = build_overdue_notification t.title (days_late run t)

abbrev has_notice : ℕ → ℕ → Scan → Bool
has_notice id date s = any (is_of id date) s.live.notices

-- There is nothing to say of the task, or its notice of the day is there.
abbrev Settled : Run → Scan → Task → Type 0
Settled run s t = (built run t ≡ none) ⊎ (has_notice t.task_id (service_date run) s ≡ true)

visit-keeps :
    (run : Run) (s : Scan) (t : Task) (k d : ℕ)
    → has_notice k d s ≡ true
    → has_notice k d (visit run s t) ≡ true
unfolding visit upsert_notice insert_notice dispatch emit_unread_count
visit-keeps run s t k d h = elim (Option-cases (built run t)) [
  | inl nothing ↦ rw nothing h
  | inr (b, some_b) ↦ rw some_b (
      ground
        (arith, any-refresh k d t.task_id (service_date run) (days_late run t) b s.live.notices))
]

visit-settles :
    (run : Run) (s : Scan) (t : Task) → run.upserts t.task_id ≡ true → Settled run (visit run s t) t
unfolding visit upsert_notice insert_notice dispatch emit_unread_count
visit-settles run s t up = elim (Option-cases (built run t)) [
  | inl nothing ↦ inl nothing
  | inr (b, some_b) ↦ inr (
      rw some_b (
        ground (
          arith,
          up,
          any-refresh t.task_id (service_date run) t.task_id (service_date run) (days_late run t) b
              s.live.notices,
        )))
]

visit-silent :
    (run : Run) (s : Scan) (t : Task)
    → Settled run s t
    → ((visit run s t).created ≡ s.created)
      × ((visit run s t).live.sent ≡ s.live.sent)
      × (length (visit run s t).live.notices ≡ length s.live.notices)
unfolding visit upsert_notice
visit-silent run s t (inl nothing) = rw nothing (refl, refl, refl)
visit-silent run s t (inr there) = elim (Option-cases (built run t)) [
  | inl nothing ↦ rw nothing (refl, refl, refl)
  | inr (b, some_b) ↦ rw some_b (elim (Bool-cases (run.upserts t.task_id)) [
    | inl up ↦
        rw (up, there)
          (
            refl,
            refl,
            length-refresh t.task_id (service_date run) (days_late run t) b s.live.notices,
          )
    | inr down ↦ rw down (refl, refl, refl)
  ])
]

Settled-visit :
    (run run' : Run) (s : Scan) (t u : Task) → Settled run s u → Settled run (visit run' s t) u
Settled-visit run run' s t u (inl nothing) = inl nothing
Settled-visit run run' s t u (inr there) =
    inr (visit-keeps run' s t u.task_id (service_date run) there)

All-visit :
    (run run' : Run) (s : Scan) (t : Task) (us : List Task)
    → All (Settled run s) us
    → All (Settled run (visit run' s t)) us
All-visit run run' s t [] h = tt
All-visit run run' s t (u ∷ us) h =
    (Settled-visit run run' s t u h.0, All-visit run run' s t us h.1)

Settled-visit_all :
    (run run' : Run) (s : Scan) (u : Task) (ts : List Task)
    → Settled run s u
    → Settled run (visit_all run' s ts) u
unfolding visit_all
Settled-visit_all run run' s u [] h = h
Settled-visit_all run run' s u (t ∷ ts) h =
    Settled-visit_all run run' (visit run' s t) u ts (Settled-visit run run' s t u h)

All-Settled :
    (run : Run) (s : Scan) (ts : List Task)
    → ((id : ℕ) → run.upserts id ≡ true)
    → All (Settled run (visit_all run s ts)) ts
unfolding visit_all
All-Settled run s [] up = tt
All-Settled run s (t ∷ ts) up = (
  Settled-visit_all run run (visit run s t) t ts (visit-settles run s t (up t.task_id)),
  All-Settled run (visit run s t) ts up,
)

All-silent :
    (run : Run) (s : Scan) (ts : List Task)
    → All (Settled run s) ts
    → ((visit_all run s ts).created ≡ s.created)
      × ((visit_all run s ts).live.sent ≡ s.live.sent)
      × (length (visit_all run s ts).live.notices ≡ length s.live.notices)
unfolding visit_all
All-silent run s [] h = (refl, refl, refl)
All-silent run s (t ∷ ts) h =
    let now = visit-silent run s t h.0 in
    let rest = All-silent run (visit run s t) ts (All-visit run run s t ts h.1) in
    (rest.0 ∙ now.0, rest.1 ∙ now.1, rest.2 ∙ now.2)

-- Two runs that see the same day.
abbrev pub SameDay : Run → Run → Type 0
SameDay a b =
    (a.calendar ≡ b.calendar) × (a.time_zone ≡ b.time_zone) × (service_date a ≡ service_date b)

days-same : (a b : Run) (t : Task) → SameDay a b → days_late a t ≡ days_late b t
unfolding compute_overdue_days service_date to_service_date
days-same a b t (same_cal, same_tz, same_day) = cc

Settled-one : (a b : Run) (s : Scan) (t : Task) → SameDay a b → Settled a s t → Settled b s t
Settled-one a b s t same (inl nothing) =
    inl (ap (build_overdue_notification t.title) (sym (days-same a b t same)) ∙ nothing)
Settled-one a b s t same (inr there) = inr (ap (λ d. has_notice t.task_id d s) (sym same.2) ∙ there)

Settled-same :
    (a b : Run) (s : Scan) (ts : List Task)
    → SameDay a b
    → All (Settled a s) ts
    → All (Settled b s) ts
Settled-same a b s [] same h = tt
Settled-same a b s (t ∷ ts) same h = (Settled-one a b s t same h.0, Settled-same a b s ts same h.1)

-- After a visit of late tasks in which every upsert went through, a second one on the same day makes
-- no notice, emits nothing, and leaves as many notices as there were.
pub rescan_silent :
    (first second : Run) (s : Scan) (ts : List Task)
    → SameDay first second
    → ((id : ℕ) → first.upserts id ≡ true)
    → let live = (visit_all first s ts).live in
      let again = visit_all second (start_scan live) ts in
      (again.created ≡ 0)
      × (again.live.sent ≡ live.sent)
      × (length again.live.notices ≡ length live.notices)
rescan_silent first second s ts same up =
    let done = visit_all first s ts in
    All-silent second (start_scan done.live) ts
      (Settled-same first second (start_scan done.live) ts same (All-Settled first s ts up))

visit-counts :
    (run : Run) (s : Scan) (t : Task)
    → (run.outside t.task_id).emits ≡ true
    → let s' = visit run s t in
      (s'.scanned ≡ suc s.scanned)
      × (s'.created + s'.skipped + s'.failed ≡ suc (s.created + s.skipped + s.failed))
unfolding visit upsert_notice insert_notice dispatch
visit-counts run s t on = elim (Option-cases (built run t)) [
  | inl nothing ↦ rw nothing (omega arith, omega arith)
  | inr (b, some_b) ↦ rw some_b (elim (Bool-cases (run.upserts t.task_id)) [
    | inl up ↦ elim (Bool-cases (has_notice t.task_id (service_date run) s)) [
      | inl there ↦ rw (up, there) (omega arith, omega arith)
      | inr absent ↦ rw (up, absent, on) (omega arith, omega arith)
    ]
    | inr down ↦ rw down (omega arith, omega arith)
  ])
]

-- Where every emission goes through, each task that is visited is counted once, and is either a new
-- notice, or passed over, or a failure.
pub visit_all_counts :
    (run : Run) (s : Scan) (ts : List Task)
    → ((id : ℕ) → (run.outside id).emits ≡ true)
    → let s' = visit_all run s ts in
      (s'.scanned ≡ s.scanned + length ts)
      × (s'.created + s'.skipped + s'.failed ≡ s.created + s.skipped + s.failed + length ts)
unfolding visit_all
visit_all_counts run s [] on = (omega arith, omega arith)
visit_all_counts run s (t ∷ ts) on =
    let now = visit-counts run s t (on t.task_id) in
    let rest = visit_all_counts run (visit run s t) ts on in
    (omega (arith, now.0, rest.0), omega (arith, now.1, rest.1))
