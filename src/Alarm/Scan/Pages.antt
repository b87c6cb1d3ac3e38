-- ===== src/Alarm/Scan/Pages.antt =====
-- overdueNotificationScheduler.ts: the pages of the scan against one walk over the late tasks.
use task_manger_project.Common.{
  ℕ, refl, inl, inr, Bool, List, [], arith, ltb, leb, Bool-cases, filter, All, ◌≤◌, ◌<◌, ◌≡◌, ◌≢◌,
  ◌&&◌, ◌∷◌, if◌then◌else◌,
}
use task_manger_project.Alarm.Database.{Task}
use task_manger_project.Alarm.Database.Rows.{Unique}
use task_manger_project.Alarm.AvailableTime.{insert_by_id, order_by_id}
use task_manger_project.Alarm.Scan.{is_late}

abbrev pub Above : ℕ → List Task → Type 0
Above c ts = All (λ u. c < u.task_id) ts

-- Each id is less than all that follow.
abbrev pub Ascending : List Task → Type 0
Ascending [] = Unit
Ascending (t ∷ ts) = Above t.task_id ts × Ascending ts

abbrev pub above : ℕ → List Task → List Task
above c ts = filter (λ t. ltb c t.task_id) ts

abbrev pub late_above : ℕ → ℕ → List Task → List Task
late_above now c ts = filter (λ t. is_late now t && ltb c t.task_id) ts

above-insert :
    (c : ℕ) (t : Task) (us : List Task)
    → above c (insert_by_id t us)
      ≡ (if ltb c t.task_id then insert_by_id t (above c us) else above c us)
unfolding insert_by_id
above-insert c t [] = ground arith
above-insert c t (u ∷ us) = ground (arith, above-insert c t us)

pub above-order : (c : ℕ) (ts : List Task) → above c (order_by_id ts) ≡ order_by_id (above c ts)
unfolding order_by_id
above-order c [] = refl
above-order c (t ∷ ts) = ground (arith, above-insert c t (order_by_id ts), above-order c ts)

-- Rows behind a later cursor are among those behind an earlier one.
pub late-above :
    (now c d : ℕ) (ts : List Task) → c ≤ d → late_above now d ts ≡ above d (late_above now c ts)
late-above now c d [] h = refl
late-above now c d (t ∷ ts) h = elim (Bool-cases (is_late now t)) [
  | inl yes' ↦ rw yes' (ground (arith, late-above now c d ts h))
  | inr no' ↦ rw no' (late-above now c d ts h)
]

pub above-Above : (c : ℕ) (ts : List Task) → Above c (above c ts)
above-Above c [] = tt
above-Above c (t ∷ ts) = ground (arith, above-Above c ts)

insert-Above :
    (c : ℕ) (t : Task) (us : List Task) → c < t.task_id → Above c us → Above c (insert_by_id t us)
unfolding insert_by_id
insert-Above c t [] h k = (h, tt)
insert-Above c t (u ∷ us) h k = ground (arith, insert-Above c t us h k.1, k)

module _ (P : Task → Type 0) where
  insert-All : (t : Task) (us : List Task) → P t → All P us → All P (insert_by_id t us)
  unfolding insert_by_id
  insert-All t [] h k = (h, tt)
  insert-All t (u ∷ us) h k = elim (Bool-cases (leb t.task_id u.task_id)) [
    | inl yes' ↦ rw yes' (h, k)
    | inr no' ↦ rw no' (k.0, insert-All t us h k.1)
  ]

  pub order-All : (ts : List Task) → All P ts → All P (order_by_id ts)
  unfolding order_by_id
  order-All [] h = tt
  order-All (t ∷ ts) h = insert-All t (order_by_id ts) h.0 (order-All ts h.1)

  pub filter-All : (p : Task → Bool) (ts : List Task) → All P ts → All P (filter p ts)
  filter-All p [] h = tt
  filter-All p (t ∷ ts) h = elim (Bool-cases (p t)) [
    | inl yes' ↦ rw yes' (h.0, filter-All p ts h.1)
    | inr no' ↦ rw no' (filter-All p ts h.1)
  ]

pub All-weaken : (c d : ℕ) (us : List Task) → c < d → Above d us → Above c us
All-weaken c d [] h k = tt
All-weaken c d (u ∷ us) h k = (omega (arith, k.0), All-weaken c d us h k.1)

insert-Ascending :
    (t : Task) (us : List Task)
    → All (λ u. u.task_id ≢ t.task_id) us
    → Ascending us
    → Ascending (insert_by_id t us)
unfolding insert_by_id
insert-Ascending t [] n a = (tt, tt)
insert-Ascending t (u ∷ us) n a = elim (Bool-cases (leb t.task_id u.task_id)) [
  | inl yes' ↦
      let less : t.task_id < u.task_id = ground (arith, n.0) in
      rw yes' ((less, All-weaken t.task_id u.task_id us less a.0), a)
  | inr no' ↦
      let less : u.task_id < t.task_id = ground arith in
      rw no' (insert-Above u.task_id t us less a.0, insert-Ascending t us n.1 a.1)
]

pub order-Ascending : (ts : List Task) → Unique ts → Ascending (order_by_id ts)
unfolding order_by_id
order-Ascending [] u = tt
order-Ascending (t ∷ ts) u =
    insert-Ascending t (order_by_id ts) (order-All (λ v. v.task_id ≢ t.task_id) ts u.0)
      (order-Ascending ts u.1)

pub filter-Unique : (p : Task → Bool) (ts : List Task) → Unique ts → Unique (filter p ts)
filter-Unique p [] u = tt
filter-Unique p (t ∷ ts) u = elim (Bool-cases (p t)) [
  | inl yes' ↦ rw yes' (filter-All (λ v. v.task_id ≢ t.task_id) p ts u.0, filter-Unique p ts u.1)
  | inr no' ↦ rw no' (filter-Unique p ts u.1)
]
