-- ===== src/TimerStore/Zustand.antt =====
-- frontend/src/stores/timerStore.js: the same store as a Zustand store, with its interval. Each
-- `now()` of the source is an argument; `none` is a thrown TypeError.
use task_manger_project.Common.{
  ℕ, Bool, true, false, Option, none, some, List, [], ltb, Dict, get, put, map_option, ℤ, ◌>>=◌,
  ◌||◌, ◌∷◌, ◌or◌, if◌then◌else◌,
}
use task_manger_project.Timer.{
  Timer, is_ticking, create_timer, start, pause, resume, correct_drift, complete,
  refund_for_completion,
}
use task_manger_project.TimerStore.{
  State, pause_active, tick_timers, with_timer, gap_timers, same_task, Api, api_fails,
}

-- `interval` tells whether `intervalId` is set, so that `tickTimer` is called every second.
pub record Store : Type 0 where
  pub state : State
  pub interval : Bool

unfoldable pub any_ticking : Dict Timer → Bool
any_ticking [] = false
any_ticking ((k, t) ∷ d) = is_ticking t || any_ticking d

unfoldable pub ensure_interval : Store → Store
ensure_interval s = record s { interval = true }

unfoldable pub maybe_stop_interval : Store → Store
maybe_stop_interval s = if any_ticking s.state.timers then s else record s { interval = false }

unfoldable pub start_timer : Store → ℕ → ℕ → ℕ → ℕ → Store
unfolding pause_active ensure_interval
start_timer s id estimated now now' =
    let timers = pause_active s.state id now in
    let base = get id timers or create_timer id estimated in
    ensure_interval
      (record s { state = record { active = some id; timers = put id (start base now') timers } })

unfoldable pub pause_timer : Store → ℕ → ℕ → Option Store
unfolding maybe_stop_interval
pause_timer s id now = with_timer (get id s.state.timers) (λ t.
    maybe_stop_interval
      (record s { state = record s.state { timers = put id (pause t now) s.state.timers } }))

unfoldable pub resume_timer : Store → ℕ → ℕ → ℕ → Option Store
unfolding pause_active ensure_interval
resume_timer s id now now' =
    let timers = pause_active s.state id now in
    with_timer (get id timers) (λ t.
      ensure_interval
        (record s { state = record { active = some id; timers = put id (resume t now') timers } }))

unfoldable pub tick_timer : Store → ℕ → Store
unfolding tick_timers
tick_timer s now = record s { state = record s.state { timers = tick_timers now s.state.timers } }

unfoldable pub hidden_gap : Store → ℤ → ℕ → Store
unfolding gap_timers
hidden_gap s hidden now = record s {
  state = record s.state { timers = gap_timers s.state hidden now s.state.active };
}

unfoldable pub correct : Store → ℕ → ℤ → Option Store
correct s id actual = with_timer (get id s.state.timers) (λ t. record s {
  state = record s.state { timers = put id (correct_drift t actual) s.state.timers };
})

abbrev pub completed_state : State → ℕ → Timer → State
completed_state s id done = record {
  active = if same_task s.active id then none else s.active;
  timers = put id done s.timers;
}

-- `completeTask` up to the call of the server: the store and the refund.
abbrev pub completed_with : Store → ℕ → ℕ → Timer → Store × ℕ
completed_with s id now t =
    let done = complete t now in
    (record s { state = completed_state s.state id done }, refund_for_completion done)

unfoldable pub complete_begin : Store → ℕ → ℕ → Option (Store × ℕ)
complete_begin s id now = map_option (completed_with s id now) (get id s.state.timers)

-- And after it, in whatever state the store is by then: the store and the refund for the available
-- time. A rejected call skips both the refund and the stop of the interval.
unfoldable pub complete_end : Store → ℕ → Api → Store × Option ℕ
unfolding maybe_stop_interval
complete_end s refund api =
    if api_fails api
    then (s, none)
    else (maybe_stop_interval s, if ltb 0 refund then some refund else none)

-- A call of one of the store's actions, where `completeTask` is two.
pub data Call : Type 0 where
  starts : ℕ → ℕ → ℕ → ℕ → Call
  pauses : ℕ → ℕ → Call
  resumes : ℕ → ℕ → ℕ → Call
  ticks : ℕ → Call
  hides : ℤ → ℕ → Call
  corrects : ℕ → ℤ → Call
  completes : ℕ → ℕ → Call
  settles : ℕ → Api → Call

unfoldable pub call : Call → Store → Option Store
unfolding start_timer pause_timer resume_timer tick_timer hidden_gap correct complete_begin
    complete_end
call (starts id estimated now now') s = some (start_timer s id estimated now now')
call (pauses id now) s = pause_timer s id now
call (resumes id now now') s = resume_timer s id now now'
call (ticks now) s = some (tick_timer s now)
call (hides hidden now) s = some (hidden_gap s hidden now)
call (corrects id actual) s = correct s id actual
call (completes id now) s = map_option (λ r. r.0) (complete_begin s id now)
call (settles refund api) s = some (complete_end s refund api).0

unfoldable pub call_all : List Call → Store → Option Store
call_all [] s = some s
call_all (c ∷ cs) s = do s' ← call c s; call_all cs s'

unfoldable pub empty_store : Store
empty_store = record { state = record { active = none; timers = [] }; interval = false }
