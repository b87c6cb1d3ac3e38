-- ===== src/Timer.antt =====
-- frontend/src/lib/timerEngine.js: the timer of one task as pure functions of the state and the
-- clock. Times and durations are whole milliseconds; the source's seconds are those over 1000.
pub mod Balance
pub mod Drift
pub mod Machine
pub mod Refund
mod Tests
use task_manger_project.Common.{
  ℕ, Bool, true, false, Option, none, some, ℤ, pos, pos_part, leb_ℤ, ◌+◌, ◌-◌, ◌/◌, ◌&&◌, ◌or◌,
  if◌then◌else◌, ◌-ℤ◌,
}

pub data Status : Type 0 where
  idle running paused overtime completed : Status

-- `remaining` is signed: it falls below 0 in overtime.
pub record Timer : Type 0 where
  pub task_id : ℕ
  pub estimated : ℕ
  pub remaining : ℤ
  pub elapsed : ℕ
  pub status : Status
  pub started_at : Option ℕ
  pub paused_at : Option ℕ
  pub last_tick_at : ℕ

abbrev pub ticking_status : Status → Bool
ticking_status running = true
ticking_status overtime = true
ticking_status _ = false

abbrev pub is_ticking : Timer → Bool
is_ticking t = ticking_status t.status

abbrev pub is_completed : Status → Bool
is_completed completed = true
is_completed _ = false

abbrev pub is_paused : Status → Bool
is_paused paused = true
is_paused _ = false

unfoldable pub create_timer : ℕ → ℕ → Timer
create_timer task_id estimated = record {
  task_id = task_id;
  estimated = estimated;
  remaining = pos estimated;
  elapsed = 0;
  status = idle;
  started_at = none;
  paused_at = none;
  last_tick_at = 0;
}

unfoldable pub start : Timer → ℕ → Timer
start t now = if is_completed t.status then t else record t {
  status = running;
  started_at = some (t.started_at or now);
  paused_at = none;
  last_tick_at = now;
}

-- `Math.max(0, now - lastTickAt)` is the subtraction of ℕ, which stops at 0.
unfoldable pub tick : Timer → ℕ → Timer
tick t now =
    if is_ticking t
    then (let actual = now - t.last_tick_at in
        let rest = t.remaining -ℤ pos actual in
        record t {
          remaining = rest;
          elapsed = t.elapsed + actual;
          last_tick_at = now;
          status = if leb_ℤ rest (pos 0) then overtime else running;
        })
    else t

unfoldable pub pause : Timer → ℕ → Timer
unfolding tick
pause t now =
    if is_ticking t
    then (let settled = tick t now in record settled { status = paused; paused_at = some now })
    else t

unfoldable pub resume : Timer → ℕ → Timer
resume t now =
    if is_paused t.status
    then record t { status = running; paused_at = none; last_tick_at = now }
    else t

-- `hidden` may be negative, and `now` may be left out.
unfoldable pub apply_hidden_gap : Timer → ℤ → Option ℕ → Timer
apply_hidden_gap t hidden now =
    if is_ticking t
    then (let gap = pos_part hidden in
        let rest = t.remaining -ℤ pos gap in
        record t {
          remaining = rest;
          elapsed = t.elapsed + gap;
          last_tick_at = now or t.last_tick_at;
          status = if leb_ℤ rest (pos 0) then overtime else t.status;
        })
    else t

unfoldable pub correct_drift : Timer → ℤ → Timer
correct_drift t actual =
    let elapsed' = pos_part actual in
    let rest = pos t.estimated -ℤ pos elapsed' in
    record t {
      elapsed = elapsed';
      remaining = rest;
      status = if leb_ℤ rest (pos 0) && is_ticking t then overtime else t.status;
    }

unfoldable pub complete : Timer → ℕ → Timer
unfolding tick
complete t now =
    let settled = if is_ticking t then tick t now else t in
    record settled { status = completed; paused_at = none }

-- `Math.max(0, Math.round(x))` in seconds for x in milliseconds; `Math.round` takes a half upwards,
-- and a negative difference, which the subtraction of ℕ stops at 0, rounds to at most 0.
unfoldable pub refund_for_completion : Timer → ℕ
refund_for_completion t = (t.estimated - t.elapsed + 500) / 1000
