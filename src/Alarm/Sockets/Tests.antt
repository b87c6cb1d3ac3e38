-- ===== src/Alarm/Sockets/Tests.antt =====
-- Runs of socketHandler.ts on concrete input.
use task_manger_project.Common.{
  ℕ, true, false, none, some, [], any, All, codes, codes, ◌-◌, ◌≡◌, ◌∷◌,
}
use task_manger_project.Alarm.Sockets.{Alarm, Service, is_pending, on_connection}
use task_manger_project.Alarm.Sockets.Replay.{got, connect_delivers}

abbrev alarm : ℕ → Alarm
alarm id = record {
  alarm_id = id;
  task_id = 4;
  user_id = 7;
  task_name = codes "essay";
  triggered_at = 100 - id;
  read_at = none;
  is_deferred = false;
  deferred_count = 0;
  pending_delivery = true;
}

abbrev service : Service
service = record { alarms = alarm 1 ∷ alarm 2 ∷ []; rooms = (8, 40) ∷ []; sent = [] }

connect_delivers_example :
    let s' = on_connection true true true (λ task. 500) 41 (some 7) service in
    All (λ a. is_pending 7 a ≡ true → got a.alarm_id 41 s'.sent ≡ true) service.alarms
    × (true ≡ true → any (is_pending 7) s'.alarms ≡ false)
connect_delivers_example = connect_delivers true true (λ task. 500) 41 6 service
