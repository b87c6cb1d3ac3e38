-- ===== src/TimerStore/Exclusive.antt =====
-- TimerContext.jsx: at most one timer runs, and it is that of the active task.
use task_manger_project.Common.{
  ℕ, refl, sym, inl, inr, true, false, Option, none, some, List, [], arith, truthy, Bool-cases,
  Option-cases, All, Dict, get, put, get-put, get-map_entries, ℤ, some_path, >>=-eq-some, ◌>>=◌,
  ◌≡◌, ◌∙◌, ◌≢◌, ◌∷◌, if◌then◌else◌,
}
use mathlib.Core.Path.{subst}
use task_manger_project.Timer.{
  Timer, is_ticking, tick, pause, resume, apply_hidden_gap, correct_drift,
}
use task_manger_project.TimerStore.{
  State, Action, starts, pauses, resumes, ticks, hides, corrects, completes, update, pause_active,
  initial, tick_timers, gap_timers, with_timer, same_task, reducer,
}

pub record IsExclusive (s : State) : Type 0 where
  -- A timer that ticks is that of the active task.
  pub owner :
      (k : ℕ) (t : Timer) → get k s.timers ≡ some t → is_ticking t ≡ true → s.active ≡ some k
  pub nonzero : s.active ≢ some 0

pub pause-stops : (t : Timer) (now : ℕ) → is_ticking (pause t now) ≡ false
unfolding pause
pause-stops t now = ground arith

pub tick-keeps : (t : Timer) (now : ℕ) → is_ticking (tick t now) ≡ is_ticking t
unfolding tick
tick-keeps t now = ground arith

resume-ticking : (t : Timer) (now : ℕ) → is_ticking t ≡ true → is_ticking (resume t now) ≡ true
unfolding resume
resume-ticking t now h = ground arith

pub hidden-keeps :
    (t : Timer) (h : ℤ) (now : Option ℕ) → is_ticking (apply_hidden_gap t h now) ≡ is_ticking t
unfolding apply_hidden_gap
hidden-keeps t h now = ground arith

pub correct-keeps : (t : Timer) (a : ℤ) → is_ticking (correct_drift t a) ≡ is_ticking t
unfolding correct_drift
correct-keeps t a = ground arith

-- After the pause of the other timer, only the task's own timer may tick.
paused_others :
    (active : Option ℕ) (timers : Dict Timer) (id now : ℕ)
    → let s : State = record { active = active; timers = timers } in
      IsExclusive s
      → (k : ℕ) (t : Timer) → get k (pause_active s id now) ≡ some t
      → is_ticking t ≡ true
      → k ≡ id
unfolding pause_active
paused_others none timers id now v k t e h = cc (v.owner k t e h)
paused_others (some a) timers id now v k t e h = elim (Option-cases (get a timers)) [
  | inl missing ↦ ground (arith, missing, v.owner k t, v.nonzero)
  | inr (u, found) ↦
      ground
        (arith, found, v.owner k t, v.nonzero, get-put a k (pause u now) timers, pause-stops u now)
]

ticks-owner :
    (now k : ℕ) (t : Timer) (timers : Dict Timer)
    → get k (tick_timers now timers) ≡ some t
    → is_ticking t ≡ true
    → (u : Timer) × (get k timers ≡ some u) × (is_ticking u ≡ true)
unfolding tick_timers
ticks-owner now k t timers e h = elim (Option-cases (get k timers)) [
  | inl missing ↦
      ground
        (arith, missing, get-map_entries (λ _ u. if is_ticking u then tick u now else u) k timers)
  | inr (u, found) ↦ (
    u,
    found,
    ground (arith, found, get-map_entries (λ _ u. if is_ticking u then tick u now else u) k timers),
  )
]

-- A task that takes over: the others are paused, and its own timer is written.
take_over :
    (s : State) (id now : ℕ) (t' : Timer)
    → id ≢ 0
    → IsExclusive s
    → IsExclusive (record { active = some id; timers = put id t' (pause_active s id now) })
take_over s id now t' p v = record {
  owner = λ k t e h. ground (
    arith,
    get-put id k t' (pause_active s id now),
    paused_others s.active s.timers id now v k t,
  );
  nonzero = λ e. p (cc);
}

-- A timer that is written in place and does not begin to tick.
in_place :
    (s : State) (id : ℕ) (t t' : Timer)
    → get id s.timers ≡ some t
    → (is_ticking t' ≡ true → is_ticking t ≡ true)
    → IsExclusive s
    → IsExclusive (record s { timers = put id t' s.timers })
in_place s id t t' e c v = record {
  owner = λ k u f h. ground (arith, get-put id k t' s.timers, v.owner k u, v.owner id t e);
  nonzero = v.nonzero;
}

ticks-IsExclusive :
    (s : State) (now : ℕ)
    → IsExclusive s
    → IsExclusive (record s { timers = tick_timers now s.timers })
ticks-IsExclusive s now v = record {
  owner = λ k t e h. let (u, f, g) = ticks-owner now k t s.timers e h in v.owner k u f g;
  nonzero = v.nonzero;
}

gap_write :
    (s : State) (hidden : ℤ) (now a : ℕ) (o : Option Timer)
    → get a s.timers ≡ o
    → IsExclusive s
    → IsExclusive
        (record s { timers = update (λ t. apply_hidden_gap t hidden (some now)) a s.timers o })
gap_write s hidden now a none e v = v
gap_write s hidden now a (some t) e v =
    in_place s a t (apply_hidden_gap t hidden (some now)) e
      (λ h. sym (hidden-keeps t hidden (some now)) ∙ h) v

gap-IsExclusive :
    (s : State) (hidden : ℤ) (now : ℕ) (active : Option ℕ)
    → IsExclusive s
    → IsExclusive (record s { timers = gap_timers s hidden now active })
unfolding gap_timers
gap-IsExclusive s hidden now none v = v
gap-IsExclusive s hidden now (some a) v = elim (Bool-cases (truthy (some a))) [
  | inl there ↦ rw there (gap_write s hidden now a (get a s.timers) refl v)
  | inr zero_id ↦ rw zero_id v
]

completes-IsExclusive :
    (active : Option ℕ) (timers : Dict Timer) (id : ℕ) (done : Timer)
    → is_ticking done ≡ false
    → IsExclusive (record { active = active; timers = timers })
    → IsExclusive (record {
      active = if same_task active id then none else active;
      timers = put id done timers;
    })
completes-IsExclusive none timers id done p v = record {
  owner = λ k t e h. ground (arith, get-put id k done timers, v.owner k t);
  nonzero = λ e. cc;
}
completes-IsExclusive (some a) timers id done p v = record {
  owner = λ k t e h. ground (arith, get-put id k done timers, v.owner k t);
  nonzero = λ e. ground (arith, v.nonzero);
}

-- The value of a call on an entry that is there.
with_timer-some :
    (o : Option Timer) (f : Timer → State) (s' : State)
    → with_timer o f ≡ some s'
    → (t : Timer) × (o ≡ some t) × (f t ≡ s')
with_timer-some none f s' e = cc
with_timer-some (some t) f s' e = (t, refl, some_path e)

-- The ids that the application gives to tasks are not 0; a completed timer does not tick.
abbrev pub IsProper : Action → Type 0
IsProper (starts id _ _) = id ≢ 0
IsProper (resumes id _) = id ≢ 0
IsProper (completes id done) = is_ticking done ≡ false
IsProper _ = Unit

-- The application's ids are not 0, and `completeTask` hands over a timer that is completed.
reducer-IsExclusive :
    (a : Action) (s s' : State)
    → IsProper a
    → IsExclusive s
    → reducer s a ≡ some s'
    → IsExclusive s'
unfolding reducer
reducer-IsExclusive (starts id est now) s s' p v r =
    subst IsExclusive (some_path r) (take_over s id now _ p v)
reducer-IsExclusive (pauses id now) s s' p v r =
    let (t, e, q) = with_timer-some (get id s.timers) _ s' r in
    subst IsExclusive q (in_place s id t (pause t now) e (λ h. cc (pause-stops t now)) v)
reducer-IsExclusive (resumes id now) s s' p v r =
    let (t, e, q) = with_timer-some (get id (pause_active s id now)) _ s' r in
    subst IsExclusive q (take_over s id now (resume t now) p v)
reducer-IsExclusive (ticks now) s s' p v r =
    subst IsExclusive (some_path r) (ticks-IsExclusive s now v)
reducer-IsExclusive (hides hidden now) s s' p v r =
    subst IsExclusive (some_path r) (gap-IsExclusive s hidden now s.active v)
reducer-IsExclusive (corrects id actual) s s' p v r =
    let (t, e, q) = with_timer-some (get id s.timers) _ s' r in
    subst IsExclusive q
      (in_place s id t (correct_drift t actual) e (λ h. sym (correct-keeps t actual) ∙ h) v)
reducer-IsExclusive (completes id done) s s' p v r =
    subst IsExclusive (some_path r) (completes-IsExclusive s.active s.timers id done p v)

-- A sequence of dispatched actions; `none` if one of them throws.
unfoldable pub run : List Action → State → Option State
run [] s = some s
run (a ∷ rest) s = do s' ← reducer s a; run rest s'

run-IsExclusive :
    (actions : List Action) (s s' : State)
    → All IsProper actions
    → IsExclusive s
    → run actions s ≡ some s'
    → IsExclusive s'
unfolding run
run-IsExclusive [] s s' p v r = subst IsExclusive (some_path r) v
run-IsExclusive (a ∷ rest) s s' p v r =
    let (t, first, later) = >>=-eq-some (reducer s a) (run rest) r in
    run-IsExclusive rest t s' p.1 (reducer-IsExclusive a s t p.0 v first) later

initial-IsExclusive : IsExclusive initial
unfolding initial get
initial-IsExclusive = record { owner = λ k t e h. cc; nonzero = λ e. cc }

-- After any actions, on tasks with ids other than 0 and with completed timers handed to 'COMPLETE',
-- at most one timer of the store is running or in overtime, and its task is the active one.
pub one_runs :
    (actions : List Action) (s : State) (k : ℕ) (t : Timer)
    → All IsProper actions
    → run actions initial ≡ some s
    → get k s.timers ≡ some t
    → is_ticking t ≡ true
    → s.active ≡ some k
one_runs actions s k t p r = (run-IsExclusive actions initial s p initial-IsExclusive r).owner k t
