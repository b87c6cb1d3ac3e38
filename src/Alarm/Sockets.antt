-- ===== src/Alarm/Sockets.antt =====
-- alarm-system/src/realtime/socketHandler.ts with the records of types/alarm.ts: the alarms, and
-- their delivery to the sockets of a user.
pub mod Replay
mod Tests
use task_manger_project.Common.{
  ℕ, zero, suc, Bool, true, false, not, Option, none, some, List, [], leb, length, filter, any,
  ◌&&◌, ◌∷◌, ◌++◌, ◌==◌, if◌then◌else◌,
}
use task_manger_project.Alarm.Order.{order_by}

pub record Alarm : Type 0 where
  pub alarm_id : ℕ
  pub task_id : ℕ
  pub user_id : ℕ
  pub task_name : List ℕ
  pub triggered_at : ℕ
  pub read_at : Option ℕ
  pub is_deferred : Bool
  pub deferred_count : ℕ
  pub pending_delivery : Bool

pub record AlarmEvent : Type 0 where
  pub alarm_id : ℕ
  pub task_id : ℕ
  pub user_id : ℕ
  pub task_name : List ℕ
  pub deadline : ℕ
  pub triggered_at : ℕ
  pub is_deferred : Bool
  pub deferred_count : ℕ

pub data Message : Type 0 where
  alarm_triggered : AlarmEvent → Message
  unread_count : ℕ → Message

-- `rooms` has each socket with the user whose room it is in; `sent` what each socket was sent, in
-- order.
pub record Service : Type 0 where
  pub alarms : List Alarm
  pub rooms : List (ℕ × ℕ)
  pub sent : List (ℕ × Message)

abbrev pub event_of : Alarm → ℕ → AlarmEvent
event_of a deadline = record {
  alarm_id = a.alarm_id;
  task_id = a.task_id;
  user_id = a.user_id;
  task_name = a.task_name;
  deadline = deadline;
  triggered_at = a.triggered_at;
  is_deferred = a.is_deferred;
  deferred_count = a.deferred_count;
}

-- `io.to(room).emit(...)`
unfoldable pub emit_room : ℕ → Message → List (ℕ × ℕ) → List (ℕ × Message)
emit_room user m [] = []
emit_room user m ((u, socket) ∷ rest) =
    let others = emit_room user m rest in if u == user then (socket, m) ∷ others else others

abbrev pub not_read : Option ℕ → Bool
not_read none = true
not_read (some at) = false

abbrev pub is_unread : ℕ → Alarm → Bool
is_unread user a = a.user_id == user && not_read a.read_at

-- Whether the query of the count, and that of an update, goes through; both are caught.
unfoldable pub emit_unread_count : Bool → ℕ → Service → Service
unfolding emit_room
emit_unread_count counts user s =
    let count = length (filter (is_unread user) s.alarms) in
    if counts then record s { sent = s.sent ++ emit_room user (unread_count count) s.rooms } else s

-- UPDATE alarms SET pending_delivery = FALSE WHERE alarm_id = $1
unfoldable pub delivered : ℕ → List Alarm → List Alarm
delivered id [] = []
delivered id (a ∷ xs) =
    (if a.alarm_id == id then record a { pending_delivery = false } else a) ∷ delivered id xs

abbrev pub is_connected : ℕ → Service → Bool
is_connected user s = any (λ r. r.0 == user) s.rooms

unfoldable pub send_alarm_to_user : Bool → Bool → ℕ → Alarm → ℕ → Service → Service
unfolding emit_room delivered emit_unread_count
send_alarm_to_user updates counts user alarm deadline s =
    let emitted = record s {
      sent = s.sent ++ emit_room user (alarm_triggered (event_of alarm deadline)) s.rooms;
    } in
    if is_connected user s
    then if updates
      then emit_unread_count counts user
          (record emitted { alarms = delivered alarm.alarm_id emitted.alarms })
      else emitted
    else s

abbrev pub earlier : Alarm → Alarm → Bool
earlier a b = leb a.triggered_at b.triggered_at

abbrev pub is_pending : ℕ → Alarm → Bool
is_pending user a = a.user_id == user && a.pending_delivery

-- ... WHERE user_id = $1 AND pending_delivery = TRUE ORDER BY triggered_at ASC
unfoldable pub pending_alarms : ℕ → List Alarm → List Alarm
unfolding order_by
pending_alarms user alarms = order_by earlier (filter (is_pending user) alarms)

-- One event for each row, to the socket alone. `deadline_of` is the deadline of a task, or the time
-- of the replay where it has none.
unfoldable pub replayed : (ℕ → ℕ) → ℕ → List Alarm → List (ℕ × Message)
replayed deadline_of socket [] = []
replayed deadline_of socket (a ∷ xs) =
    (socket, alarm_triggered (event_of a (deadline_of a.task_id))) ∷ replayed deadline_of socket xs

-- UPDATE alarms SET pending_delivery = FALSE WHERE alarm_id = ANY(...)
unfoldable pub all_delivered : List Alarm → List Alarm → List Alarm
unfolding delivered
all_delivered [] alarms = alarms
all_delivered (r ∷ rs) alarms = all_delivered rs (delivered r.alarm_id alarms)

unfoldable pub replay_pending_alarms : Bool → Bool → (ℕ → ℕ) → ℕ → ℕ → Service → Service
unfolding pending_alarms replayed all_delivered
replay_pending_alarms selects updates deadline_of socket user s =
    let rows = pending_alarms user s.alarms in
    let emitted = record s { sent = s.sent ++ replayed deadline_of socket rows } in
    if not selects
    then s
    else if updates
    then record emitted { alarms = all_delivered rows s.alarms }
    else emitted

-- The handler of `connection`; a socket without a user is disconnected.
unfoldable pub on_connection : Bool → Bool → Bool → (ℕ → ℕ) → ℕ → Option ℕ → Service → Service
unfolding replay_pending_alarms emit_unread_count
on_connection selects updates counts deadline_of socket none s = s
on_connection selects updates counts deadline_of socket (some zero) s = s
on_connection selects updates counts deadline_of socket (some (suc user)) s =
    emit_unread_count counts (suc user) (
      replay_pending_alarms selects updates deadline_of socket (suc user)
        (record s { rooms = (suc user, socket) ∷ s.rooms }))

-- A socket that disconnects leaves its room.
unfoldable pub on_disconnect : ℕ → Service → Service
on_disconnect socket s = record s { rooms = filter (λ r. not (r.1 == socket)) s.rooms }
