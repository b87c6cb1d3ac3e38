-- ===== src/Runtime/Single.antt =====
-- useTaskRuntime.js: one task runs at a time.
use task_manger_project.Common.{
  ℕ, refl, sym, inl, inr, true, false, not, Option, none, some, List, [], arith, Bool-cases, drop,
  All, Dict, get, put, get-put_self, map_entries, get-map_entries, ◌≡◌, ◌∙◌, ◌&&◌, ◌∷◌, ◌==◌, ◌or◌,
  if◌then◌else◌,
}
use task_manger_project.Runtime.{
  Entry, running, paused, completed, is_running, same_status, start_entry, resume_entry,
  pause_entry, finish_entry, empty_entry, display_seconds,
}
use task_manger_project.Runtime.Hook.{
  TaskId, num, text, key, differs, pause_others, start, resume, resumed, clear_completed, get_entry,
  is_paused, Op, apply, apply_all, starts, resumes, pauses, finishes, clears,
}

-- Every entry that runs is the one of task `k`.
abbrev pub OnlyRuns : ℕ → Dict Entry → Type 0
OnlyRuns k m = All (λ p. is_running p.1 ≡ true → p.0 ≡ k) m

pause_stops : (e : Entry) (now : ℕ) → is_running (pause_entry (some e) now) ≡ false
unfolding pause_entry
pause_stops e now = ground arith

finish_stops : (e : Entry) (now : ℕ) → is_running (finish_entry (some e) now) ≡ false
unfolding finish_entry
finish_stops e now = ground arith

OnlyRuns-get :
    (k j : ℕ) (m : Dict Entry) (e : Entry)
    → OnlyRuns k m
    → get j m ≡ some e
    → is_running e ≡ true
    → j ≡ k
unfolding get
OnlyRuns-get k j [] e v f h = cc
OnlyRuns-get k j ((i, u) ∷ m) e v f h = ground (arith, OnlyRuns-get k j m e v.1, v.0)

OnlyRuns-put :
    (k j : ℕ) (m : Dict Entry) (e : Entry)
    → OnlyRuns k m
    → (is_running e ≡ true → j ≡ k)
    → OnlyRuns k (put j e m)
unfolding put
OnlyRuns-put k j [] e v h = (h, tt)
OnlyRuns-put k j ((i, u) ∷ m) e v h = elim (Bool-cases (i == j)) [
  | inl same ↦ rw same (ground (arith, h), v.1)
  | inr other ↦ rw other (v.0, OnlyRuns-put k j m e v.1 h)
]

pause_others-OnlyRuns :
    (id : TaskId) (now : ℕ) (m : Dict Entry) → OnlyRuns (key id) (pause_others id now m)
unfolding pause_others map_entries
pause_others-OnlyRuns id now [] = tt
pause_others-OnlyRuns (num k) now ((i, u) ∷ m) =
    (ground (arith, pause_stops u now), pause_others-OnlyRuns (num k) now m)
pause_others-OnlyRuns (text k) now ((i, u) ∷ m) =
    (ground (arith, pause_stops u now), pause_others-OnlyRuns (text k) now m)

clear-OnlyRuns : (k : ℕ) (m : Dict Entry) → OnlyRuns k m → OnlyRuns k (clear_completed m)
unfolding clear_completed
clear-OnlyRuns k [] v = tt
clear-OnlyRuns k ((i, u) ∷ m) v = elim (Bool-cases (not (same_status u.status completed))) [
  | inl keep ↦ rw keep (v.0, clear-OnlyRuns k m v.1)
  | inr drop ↦ rw drop (clear-OnlyRuns k m v.1)
]

apply-OnlyRuns :
    (op : Op) (k : ℕ) (m : Dict Entry) → OnlyRuns k m → (j : ℕ) × OnlyRuns j (apply op m)
unfolding apply
apply-OnlyRuns (starts id now) k m v = (
  key id,
  OnlyRuns-put (key id) (key id) (pause_others id now m) _ (pause_others-OnlyRuns id now m)
      (λ h. refl),
)
apply-OnlyRuns (resumes id now) k m v = (
  key id,
  OnlyRuns-put (key id) (key id) (pause_others id now m) _ (pause_others-OnlyRuns id now m)
      (λ h. refl),
)
apply-OnlyRuns (pauses id now) k m v =
    (k, OnlyRuns-put k (key id) m _ v (λ h. cc (pause_stops (get (key id) m or empty_entry) now)))
apply-OnlyRuns (finishes id now rendered) k m v = (
  k,
  OnlyRuns-put k (key id) m _ v (λ h. cc (finish_stops (get (key id) rendered or empty_entry) now)),
)
apply-OnlyRuns clears k m v = (k, clear-OnlyRuns k m v)

apply_all-OnlyRuns :
    (ops : List Op) (k : ℕ) (m : Dict Entry) → OnlyRuns k m → (j : ℕ) × OnlyRuns j (apply_all ops m)
unfolding apply_all
apply_all-OnlyRuns [] k m v = (k, v)
apply_all-OnlyRuns (op ∷ ops) k m v =
    let (j, w) = apply-OnlyRuns op k m v in apply_all-OnlyRuns ops j (apply op m) w

-- Whatever is done with the tasks from an empty map, no two of them run at once.
pub one_entry_runs :
    (ops : List Op) (j k : ℕ) (e f : Entry)
    → let m = apply_all ops [] in
      get j m ≡ some e → is_running e ≡ true → get k m ≡ some f → is_running f ≡ true → j ≡ k
one_entry_runs ops j k e f p q r s =
    let (i, v) = apply_all-OnlyRuns ops 0 [] tt in
    OnlyRuns-get i j (apply_all ops []) e v p q ∙ sym (OnlyRuns-get i k (apply_all ops []) f v r s)

started : (now : ℕ) → (start_entry (some empty_entry) now).status ≡ running
unfolding start_entry
started now = refl

resumed_runs : (o : Option Entry) (now : ℕ) → (resumed o now).status ≡ running
unfolding resumed resume_entry
resumed_runs none now = started now
resumed_runs (some e) now = elim (Bool-cases (is_paused e)) [
  | inl yes_paused ↦ rw yes_paused (ground arith)
  | inr other ↦ rw other (started now)
]

-- The task of `id` runs, and no other does.
abbrev pub RunsAlone : TaskId → Dict Entry → Type 0
RunsAlone id m =
    (e : Entry) × (get (key id) m ≡ some e)
    × (e.status ≡ running)
    × ((k : ℕ) (f : Entry) → get k m ≡ some f → is_running f ≡ true → k ≡ key id)

put-RunsAlone :
    (id : TaskId) (now : ℕ) (m : Dict Entry) (e : Entry)
    → e.status ≡ running
    → RunsAlone id (put (key id) e (pause_others id now m))
put-RunsAlone id now m e h = (
  e,
  get-put_self (key id) e (pause_others id now m),
  h,
  λ k f. OnlyRuns-get (key id) k (put (key id) e (pause_others id now m)) f (
      OnlyRuns-put (key id) (key id) (pause_others id now m) e (pause_others-OnlyRuns id now m)
        (λ _. refl)),
)

-- Whatever the map, also one that was read back from storage with several tasks running, after
-- `start` and after `resume` the task of the call runs and no other task does.
pub start_runs :
    (id : TaskId) (now : ℕ) (m : Dict Entry)
    → RunsAlone id (start id now m) × RunsAlone id (resume id now m)
unfolding start resume
start_runs id now m = (
  put-RunsAlone id now m (start_entry (some empty_entry) now) (started now),
  put-RunsAlone id now m (resumed (get (key id) (pause_others id now m)) now)
      (resumed_runs (get (key id) (pause_others id now m)) now),
)

resume_found :
    (id : TaskId) (now : ℕ) (m : Dict Entry) (e : Entry)
    → get (key id) m ≡ some e
    → get_entry (resume id now m) id
      ≡ resumed
          (some (if differs (key id) id && is_running e then pause_entry (some e) now else e))
          now
unfolding get_entry resume pause_others
resume_found id now m e h = rw (
  get-put_self (key id) (resumed (get (key id) (pause_others id now m)) now)
      (pause_others id now m),
  get-map_entries (λ k u. if differs k id && is_running u then pause_entry (some u) now else u)
      (key id) m,
  h,
)

-- What `resume` makes of the time that the task has so far: a paused task keeps it; a running task
-- whose id is a number keeps it up to now, since it is paused with the others; a running task whose
-- id is a text loses it, and so does a completed task.
pub resume_elapsed :
    (id : TaskId) (now k : ℕ) (m : Dict Entry) (e : Entry)
    → get (key id) m ≡ some e
    → (e.status ≡ paused → (get_entry (resume id now m) id).elapsed_seconds ≡ e.elapsed_seconds)
      × (e.status ≡ running
          → id ≡ num k
          → (get_entry (resume id now m) id).elapsed_seconds ≡ display_seconds (some e) now)
      × (e.status ≡ running → id ≡ text k → (get_entry (resume id now m) id).elapsed_seconds ≡ 0)
      × (e.status ≡ completed → (get_entry (resume id now m) id).elapsed_seconds ≡ 0)
unfolding resumed start_entry resume_entry pause_entry display_seconds
resume_elapsed (num i) now k m e h =
    rw (resume_found (num i) now m e h)
      (λ p. ground (arith, p), λ p _. ground (arith, p), λ p q. absurd (cc), λ p. ground (arith, p))
resume_elapsed (text i) now k m e h =
    rw (resume_found (text i) now m e h)
      (λ p. ground (arith, p), λ p q. absurd (cc), λ p _. ground (arith, p), λ p. ground (arith, p))
