-- ===== src/Alarm/Scan/Ends.antt =====
-- overdueNotificationScheduler.ts: the loop over the pages ends, and what it has done then.
use mathlib.Core.Path.{subst}
use task_manger_project.Common.{
  ℕ, zero, suc, refl, sym, ap, inl, inr, true, false, Option, some, List, [], arith, ltb,
  Bool-cases, length, take, drop, filter, ◌≤◌, ◌<◌, ◌≡◌, ◌∙◌, ◌∷◌, ◌++◌, ◌==◌,
}
use task_manger_project.Alarm.Database.{Task}
use task_manger_project.Alarm.Database.Rows.{Unique}
use task_manger_project.Alarm.AvailableTime.{order_by_id, insert_by_id}
use task_manger_project.Alarm.Notices.{Live}
use task_manger_project.Alarm.Scan.{
  is_late, page, Run, Scan, insert_notice, upsert_notice, visit, visit_all, scan_loop, start_scan,
  run_daily_scan,
}
use task_manger_project.Alarm.Scan.Pages.{
  Above, Ascending, above, late_above, above-order, late-above, above-Above, order-Ascending,
  filter-Unique, order-All, filter-All,
}

abbrev last_id : ℕ → List Task → ℕ
last_id c [] = c
last_id c (t ∷ ts) = last_id t.task_id ts

-- Each row that is visited moves the cursor to its id.
visit-cursor : (run : Run) (s : Scan) (t : Task) → (visit run s t).cursor ≡ t.task_id
unfolding visit upsert_notice insert_notice
visit-cursor run s t = ground arith

visit_all-cursor :
    (run : Run) (s : Scan) (ts : List Task) → (visit_all run s ts).cursor ≡ last_id s.cursor ts
unfolding visit_all
visit_all-cursor run s [] = refl
visit_all-cursor run s (t ∷ ts) =
    visit_all-cursor run (visit run s t) ts ∙ ap (λ c. last_id c ts) (visit-cursor run s t)

visit_all-append :
    (run : Run) (s : Scan) (ts us : List Task)
    → visit_all run (visit_all run s ts) us ≡ visit_all run s (ts ++ us)
unfolding visit_all
visit_all-append run s [] us = refl
visit_all-append run s (t ∷ ts) us = visit_all-append run (visit run s t) ts us

all-above : (c : ℕ) (ts : List Task) → Above c ts → above c ts ≡ ts
all-above c [] h = refl
all-above c (t ∷ ts) h = ground (arith, h.0, all-above c ts h.1)

last-Above : (c k : ℕ) (ts : List Task) → Above c ts → Ascending ts → c ≤ last_id c (take k ts)
last-Above c zero ts h a = omega arith
last-Above c (suc k) [] h a = omega arith
last-Above c (suc k) (t ∷ ts) h a = omega (arith, h.0, last-Above t.task_id k ts a.0 a.1)

-- Behind the last of a page there are the rows that it left.
cut :
    (c k : ℕ) (ts : List Task)
    → Above c ts
    → Ascending ts
    → above (last_id c (take k ts)) ts ≡ drop k ts
cut c zero ts h a = all-above c ts h
cut c (suc k) [] h a = refl
cut c (suc k) (t ∷ ts) h a =
    ground (arith, last-Above t.task_id k ts a.0 a.1, cut t.task_id k ts a.0 a.1)

take-drop : (k : ℕ) (ts : List Task) → take k ts ++ drop k ts ≡ ts
take-drop zero ts = refl
take-drop (suc k) [] = refl
take-drop (suc k) (t ∷ ts) = ap (λ r. t ∷ r) (take-drop k ts)

short_page : (k : ℕ) (ts : List Task) → length (take k ts) < k → take k ts ≡ ts
short_page zero ts h = absurd (omega arith)
short_page (suc k) [] h = refl
short_page (suc k) (t ∷ ts) h = ap (λ r. t ∷ r) (short_page k ts (omega arith))

drop-length : (k : ℕ) (ts : List Task) → length (drop k ts) ≤ length ts
drop-length zero ts = omega arith
drop-length (suc k) [] = omega arith
drop-length (suc k) (t ∷ ts) = omega (arith, drop-length k ts)

insert-length : (t : Task) (us : List Task) → length (insert_by_id t us) ≡ suc (length us)
unfolding insert_by_id
insert-length t [] = refl
insert-length t (u ∷ us) = ground (arith, insert-length t us)

order-length : (ts : List Task) → length (order_by_id ts) ≡ length ts
unfolding order_by_id
order-length [] = refl
order-length (t ∷ ts) = omega (arith, insert-length t (order_by_id ts), order-length ts)

drop-Ascending : (k : ℕ) (ts : List Task) → Ascending ts → Ascending (drop k ts)
drop-Ascending zero ts a = a
drop-Ascending (suc k) [] a = tt
drop-Ascending (suc k) (t ∷ ts) a = drop-Ascending k ts a.1

-- The rows of the next page are those that this one left.
next_rows :
    (now c k : ℕ) (tasks rest : List Task)
    → order_by_id (late_above now c tasks) ≡ rest
    → Above c rest
    → Ascending rest
    → order_by_id (late_above now (last_id c (take k rest)) tasks) ≡ drop k rest
next_rows now c k tasks rest e h a =
    let d = last_id c (take k rest) in
    ap order_by_id (late-above now c d tasks (last-Above c k rest h a))
    ∙ sym (above-order d (late_above now c tasks))
    ∙ ap (above d) e
    ∙ cut c k rest h a

-- The scan ends, and where every page can be read it has visited `all`.
abbrev Ended : Run → Scan → List Task → Option Scan → Type 0
Ended run s all o =
    ((end : Scan) × (o ≡ some end))
    × (((c : ℕ) → run.selects c ≡ true) → o ≡ some (visit_all run s all))

-- `rest` is what the pages have not shown yet.
loop_ends :
    (k rounds : ℕ) (run : Run) (tasks : List Task) (s : Scan) (rest : List Task)
    → order_by_id (late_above run.now s.cursor tasks) ≡ rest
    → Above s.cursor rest
    → Ascending rest
    → length rest < rounds
    → Ended run s rest (scan_loop (suc k) run tasks rounds s)
unfolding scan_loop page
loop_ends k zero run tasks s rest e h a n = absurd (omega arith)
loop_ends k (suc rounds) run tasks s [] e h a n = elim (Bool-cases (run.selects s.cursor)) [
  | inr down ↦ rw (e, down) ((_, refl), λ up. absurd (cc (up s.cursor, down)))
  | inl fine ↦ rw (e, fine) ((_, refl), λ up. unfold visit_all in refl)
]
loop_ends k (suc rounds) run tasks s (t ∷ ts) e h a n =
    let rows = take (suc k) (t ∷ ts) in
    let behind = drop (suc k) (t ∷ ts) in
    let s' = visit_all run s rows in
    let there : s'.cursor ≡ last_id s.cursor rows = visit_all-cursor run s rows in
    let later : order_by_id (late_above run.now s'.cursor tasks) ≡ behind =
      ap (λ c. order_by_id (late_above run.now c tasks)) there
      ∙ next_rows run.now s.cursor (suc k) tasks (t ∷ ts) e h a in
    let beyond : Above s'.cursor behind =
      subst (λ c. Above c behind) (sym there)
        (subst (Above (last_id s.cursor rows)) (cut s.cursor (suc k) (t ∷ ts) h a)
          (above-Above (last_id s.cursor rows) (t ∷ ts))) in
    let filled : (length rows == 0) ≡ false = ground arith in
    elim (Bool-cases (run.selects s.cursor)) [
      | inr down ↦ rw (e, down) ((_, refl), λ up. absurd (cc (up s.cursor, down)))
      | inl fine ↦ elim (Bool-cases (ltb (length rows) (suc k))) [
        | inl short ↦
            rw (e, fine, filled, short)
              (
                (_, refl),
                λ up.
                    ap (λ r. some (visit_all run s r))
                      (short_page (suc k) (t ∷ ts) (ground (arith, short))),
              )
        | inr full ↦
            let (ended, visited) =
              loop_ends k rounds run tasks s' behind later beyond
                (drop-Ascending (suc k) (t ∷ ts) a) (omega (arith, drop-length k ts)) in
            rw (e, fine, filled, full)
              (
                ended,
                λ up.
                    visited up
                    ∙ ap some (
                        visit_all-append run s rows behind
                        ∙ ap (visit_all run s) (take-drop (suc k) (t ∷ ts))),
              )
      ]
    ]

late_positive :
    (now : ℕ) (tasks : List Task)
    → Above 0 tasks
    → late_above now 0 tasks ≡ filter (is_late now) tasks
late_positive now [] h = refl
late_positive now (t ∷ ts) h = elim (Bool-cases (is_late now t)) [
  | inl yes' ↦ rw yes' (ground (arith, h.0, late_positive now ts h.1))
  | inr no' ↦ rw no' (late_positive now ts h.1)
]

-- Where the ids of the tasks are distinct and not 0, the scan ends within as many rounds as there are
-- late tasks, and one more; and if no SELECT is rejected it has then visited each late task once,
-- in the order of the ids.
pub scan_ends :
    (run : Run) (tasks : List Task) (live : Live) (rounds : ℕ)
    → Unique tasks
    → Above 0 tasks
    → length (filter (is_late run.now) tasks) < rounds
    → ((end : Scan) × (run_daily_scan run tasks rounds live ≡ some end))
      × (((c : ℕ) → run.selects c ≡ true)
          → run_daily_scan run tasks rounds live
            ≡ some (visit_all run (start_scan live) (order_by_id (filter (is_late run.now) tasks))))
unfolding run_daily_scan
scan_ends run tasks live rounds u h n =
    let all = filter (is_late run.now) tasks in
    loop_ends 499 rounds run tasks (start_scan live) (order_by_id all)
      (ap order_by_id (late_positive run.now tasks h))
      (order-All (λ t. 0 < t.task_id) all
        (filter-All (λ t. 0 < t.task_id) (is_late run.now) tasks h))
      (order-Ascending all (filter-Unique (is_late run.now) tasks u))
      (omega (arith, order-length all))
