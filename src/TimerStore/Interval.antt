-- ===== src/TimerStore/Interval.antt =====
-- timerStore.js: the interval runs while a timer ticks.
use task_manger_project.Common.{
  ℕ, refl, sym, inl, inr, true, false, Option, none, some, List, [], arith, Option-cases, Dict, get,
  put, map_entries, map_option, ℤ, some_path, >>=-eq-some, some_path, ◌≡◌, ◌∙◌, ◌⊎◌, ◌∷◌,
}
use task_manger_project.Timer.{Timer, is_ticking, pause, apply_hidden_gap, correct_drift, complete}
use task_manger_project.TimerStore.{State, with_timer, gap_timers, rejected, Api, tick_timers}
use task_manger_project.TimerStore.Exclusive.{pause-stops, tick-keeps, hidden-keeps, correct-keeps}
use mathlib.Core.Path.{subst}
use task_manger_project.TimerStore.Zustand.{
  Call, call, call_all, starts, pauses, resumes, ticks, hides, corrects, completes, empty_store,
  Store, maybe_stop_interval, any_ticking, completed_with, complete_begin, complete_end, settles,
}

-- A timer that ticks is served.
abbrev pub IsServed : Store → Type 0
IsServed s = any_ticking s.state.timers ≡ true → s.interval ≡ true

any_ticking-get :
    (id : ℕ) (t : Timer) (d : Dict Timer)
    → get id d ≡ some t
    → is_ticking t ≡ true
    → any_ticking d ≡ true
unfolding any_ticking get
any_ticking-get id t [] e h = cc
any_ticking-get id t ((k, u) ∷ d) e h = ground (arith, any_ticking-get id t d)

any_ticking-put :
    (id : ℕ) (t : Timer) (d : Dict Timer)
    → any_ticking (put id t d) ≡ true
    → (is_ticking t ≡ true) ⊎ (any_ticking d ≡ true)
unfolding any_ticking put
any_ticking-put id t [] h = ground arith
any_ticking-put id t ((k, u) ∷ d) h = ground (arith, any_ticking-put id t d)

any_ticking-tick_timers :
    (now : ℕ) (d : Dict Timer) → any_ticking (tick_timers now d) ≡ any_ticking d
unfolding any_ticking tick_timers map_entries
any_ticking-tick_timers now [] = refl
any_ticking-tick_timers now ((k, t) ∷ d) =
    ground (arith, any_ticking-tick_timers now d, tick-keeps t now)

-- A timer written in place that ticks only if the old one did makes no new ticking timer.
any_ticking-put_le :
    (id : ℕ) (t t' : Timer) (d : Dict Timer)
    → get id d ≡ some t
    → (is_ticking t' ≡ true → is_ticking t ≡ true)
    → any_ticking (put id t' d) ≡ true
    → any_ticking d ≡ true
any_ticking-put_le id t t' d e le h = elim (any_ticking-put id t' d h) [
  | inl new ↦ any_ticking-get id t d e (le new)
  | inr old ↦ old
]

any_ticking-gap :
    (s : State) (hidden : ℤ) (now : ℕ) (active : Option ℕ)
    → any_ticking (gap_timers s hidden now active) ≡ true
    → any_ticking s.timers ≡ true
unfolding gap_timers
any_ticking-gap s hidden now none h = h
any_ticking-gap s hidden now (some a) h = elim (Option-cases (get a s.timers)) [
  | inl missing ↦ ground (arith, missing)
  | inr (t, found) ↦ ground (
    arith,
    found,
    hidden-keeps t hidden (some now),
    any_ticking-get a t s.timers,
    any_ticking-put a (apply_hidden_gap t hidden (some now)) s.timers,
  )
]

stop-IsServed :
    (s : Store) (timers : Dict Timer) (active : Option ℕ)
    → (any_ticking timers ≡ true → any_ticking s.state.timers ≡ true)
    → IsServed s
    → IsServed
        (maybe_stop_interval (record s { state = record { active = active; timers = timers } }))
unfolding maybe_stop_interval
stop-IsServed s timers active le v = ground arith

with_timer-some :
    (o : Option Timer) (f : Timer → Store) (s' : Store)
    → with_timer o f ≡ some s'
    → (t : Timer) × (o ≡ some t) × (f t ≡ s')
with_timer-some none f s' e = cc
with_timer-some (some t) f s' e = (t, refl, some_path e)

complete-stops : (t : Timer) (now : ℕ) → is_ticking (complete t now) ≡ false
unfolding complete
complete-stops t now = ground arith

completed_by :
    (s s' : Store) (id now : ℕ) (o : Option Timer)
    → get id s.state.timers ≡ o
    → IsServed s
    → map_option (λ r. r.0) (map_option (completed_with s id now) o) ≡ some s'
    → IsServed s'
completed_by s s' id now none e v r = cc
completed_by s s' id now (some t) e v r = subst IsServed (some_path r) (λ h.
    v (
      any_ticking-put_le id t (complete t now) s.state.timers e (λ k. cc (complete-stops t now)) h))

settled_by :
    (s : Store) (refund : ℕ) (api : Api) → IsServed s → IsServed (complete_end s refund api).0
unfolding complete_end
settled_by s refund rejected v = v
settled_by s refund _ v = stop-IsServed s s.state.timers s.state.active (λ h. h) v

call-IsServed : (c : Call) (s s' : Store) → IsServed s → call c s ≡ some s' → IsServed s'
unfolding call
call-IsServed (starts id est now now') s s' v r = λ h. cc (some_path r)
call-IsServed (pauses id now) s s' v r =
    let (t, e, q) = with_timer-some (get id s.state.timers) _ s' r in
    subst IsServed q (
      stop-IsServed s (put id (pause t now) s.state.timers) s.state.active
        (any_ticking-put_le id t (pause t now) s.state.timers e (λ h. cc (pause-stops t now))) v)
call-IsServed (resumes id now now') s s' v r =
    let (t, e, q) = with_timer-some (get id _) _ s' r in subst IsServed q (λ h. refl)
call-IsServed (ticks now) s s' v r =
    subst IsServed (some_path r) (λ h. v (sym (any_ticking-tick_timers now s.state.timers) ∙ h))
call-IsServed (hides hidden now) s s' v r =
    subst IsServed (some_path r) (λ h. v (any_ticking-gap s.state hidden now s.state.active h))
call-IsServed (corrects id actual) s s' v r =
    let (t, e, q) = with_timer-some (get id s.state.timers) _ s' r in
    subst IsServed q (λ h. v (
      any_ticking-put_le id t (correct_drift t actual) s.state.timers e
        (λ k. sym (correct-keeps t actual) ∙ k) h))
call-IsServed (completes id now) s s' v r =
    unfold complete_begin in completed_by s s' id now (get id s.state.timers) refl v r
call-IsServed (settles refund api) s s' v r =
    subst IsServed (some_path r) (settled_by s refund api v)

call_all-IsServed :
    (cs : List Call) (s s' : Store) → IsServed s → call_all cs s ≡ some s' → IsServed s'
unfolding call_all
call_all-IsServed [] s s' v r = subst IsServed (some_path r) v
call_all-IsServed (c ∷ cs) s s' v r =
    let (t, first, rest) = >>=-eq-some (call c s) (call_all cs) r in
    call_all-IsServed cs t s' (call-IsServed c s t v first) rest

-- After any calls of the store, in which the server may refuse a completion, the interval is on
-- whenever some timer is running or in overtime.
pub ticking_served :
    (cs : List Call) (s : Store)
    → call_all cs empty_store ≡ some s
    → any_ticking s.state.timers ≡ true
    → s.interval ≡ true
unfolding empty_store any_ticking
ticking_served cs s r = call_all-IsServed cs empty_store s (λ h. cc) r
