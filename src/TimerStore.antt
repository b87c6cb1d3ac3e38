-- ===== src/TimerStore.antt =====
-- frontend/src/context/TimerContext.jsx: the reducer over the timers of all tasks, the completion of
-- a task and the handler of `visibilitychange`. Task ids are numbers, and `none` is a thrown
-- TypeError: an engine function was called on a timer that is not there.
pub mod Exclusive
pub mod Hidden
pub mod Zustand
pub mod Interval
mod Tests
use task_manger_project.Common.{
  ℕ, Bool, true, false, not, Option, none, some, [], ltb, truthy, Dict, get, put, map_entries, ℤ,
  sub_ℕ, ◌>>=◌, ◌&&◌, ◌==◌, ◌or◌, if◌then◌else◌,
}
use task_manger_project.Timer.{
  Timer, is_ticking, create_timer, start, tick, pause, resume, apply_hidden_gap, correct_drift,
  complete, refund_for_completion,
}

pub record State : Type 0 where
  pub active : Option ℕ
  pub timers : Dict Timer

unfoldable pub initial : State
initial = record { active = none; timers = [] }

pub data Action : Type 0 where
  starts : ℕ → ℕ → ℕ → Action
  pauses : ℕ → ℕ → Action
  resumes : ℕ → ℕ → Action
  ticks : ℕ → Action
  hides : ℤ → ℕ → Action
  corrects : ℕ → ℤ → Action
  completes : ℕ → Timer → Action

-- `active && active !== id`
abbrev pub is_other : Option ℕ → ℕ → Bool
is_other none id = false
is_other (some a) id = truthy (some a) && not (a == id)

-- `timers[id] = f(timers[id], now)`, if there is one
abbrev pub update : (Timer → Timer) → ℕ → Dict Timer → Option Timer → Dict Timer
update f id timers none = timers
update f id timers (some t) = put id (f t) timers

abbrev pub pause_at : ℕ → Option ℕ → Dict Timer → Dict Timer
pause_at now none timers = timers
pause_at now (some a) timers = update (λ t. pause t now) a timers (get a timers)

-- The other task's timer is paused before a task starts or resumes.
unfoldable pub pause_active : State → ℕ → ℕ → Dict Timer
pause_active s id now = if is_other s.active id then pause_at now s.active s.timers else s.timers

-- The loop of 'TICK': only ticking timers are given anew.
unfoldable pub tick_timers : ℕ → Dict Timer → Dict Timer
tick_timers now = map_entries (λ _ t. if is_ticking t then tick t now else t)

-- A read of an entry that throws if the entry is not there.
abbrev pub with_timer {ℓ} : {A : Type ℓ} → Option Timer → (Timer → A) → Option A
with_timer none f = none
with_timer (some t) f = some (f t)

unfoldable pub gap_timers : State → ℤ → ℕ → Option ℕ → Dict Timer
gap_timers s hidden now none = s.timers
gap_timers s hidden now (some id) =
    if truthy (some id)
    then update (λ t. apply_hidden_gap t hidden (some now)) id s.timers (get id s.timers)
    else s.timers

abbrev pub same_task : Option ℕ → ℕ → Bool
same_task none id = false
same_task (some a) id = a == id

unfoldable pub reducer : State → Action → Option State
unfolding pause_active tick_timers gap_timers
reducer s (starts id estimated now) =
    let timers = pause_active s id now in
    let base = get id timers or create_timer id estimated in
    some (record { active = some id; timers = put id (start base now) timers })
reducer s (pauses id now) =
    with_timer (get id s.timers) (λ t. record s { timers = put id (pause t now) s.timers })
reducer s (resumes id now) =
    let timers = pause_active s id now in
    with_timer (get id timers)
      (λ t. record { active = some id; timers = put id (resume t now) timers })
reducer s (ticks now) = some (record s { timers = tick_timers now s.timers })
reducer s (hides hidden now) = some (record s { timers = gap_timers s hidden now s.active })
reducer s (corrects id actual) =
    with_timer (get id s.timers)
      (λ t. record s { timers = put id (correct_drift t actual) s.timers })
reducer s (completes id done) = some (record {
  active = if same_task s.active id then none else s.active;
  timers = put id done s.timers;
})

-- The call of the server that the caller may pass to `completeTask`.
pub data Api : Type 0 where
  no_api resolved rejected : Api

abbrev pub api_fails : Api → Bool
api_fails rejected = true
api_fails _ = false

-- What `completeTask` leaves behind: the state, and the refund handed to the available time.
pub record Completion : Type 0 where
  pub state : State
  pub refund : Option ℕ

-- 'COMPLETE' is dispatched before the server is called; if that call is rejected, the rest is skipped.
unfoldable pub complete_found : State → ℕ → ℕ → Api → Option Timer → Option Completion
unfolding reducer
complete_found s id now api none = none
complete_found s id now api (some t) = do
  let done = complete t now
  let refund = refund_for_completion done
  s' ← reducer s (completes id done)
  some (record {
    state = s';
    refund = if api_fails api then none else if ltb 0 refund then some refund else none;
  })

-- The timer is that of the state last rendered, `stateRef.current`.
unfoldable pub complete_task : State → State → ℕ → ℕ → Api → Option Completion
unfolding complete_found
complete_task rendered s id now api = complete_found s id now api (get id rendered.timers)

-- The provider's state and its ref `hiddenAt`.
pub record Page : Type 0 where
  pub state : State
  pub hidden_at : Option ℕ

pub data Visibility : Type 0 where
  hidden visible : Visibility

-- `visibilitychange`, with the reading of `Date.now()` and that of `now()`.
unfoldable pub on_visibility : Page → Visibility → ℕ → ℕ → Option Page
unfolding reducer
on_visibility p hidden wall now = some (record p { hidden_at = some wall })
on_visibility p visible wall now = elim p.hidden_at [
  | none ↦ some p
  | some since ↦ do
    s ← reducer p.state (hides (sub_ℕ wall since) now)
    some (record { state = s; hidden_at = none })
]
