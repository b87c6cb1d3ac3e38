-- ===== src/Alarm/Manager/Tests.antt =====
-- Runs of AlarmManager.ts on concrete input.
use task_manger_project.Common.{
  ℕ, refl, true, false, Option, none, some, List, [], any, codes, codes, ◌≡◌, ◌∷◌, ◌++◌,
}
use task_manger_project.Alarm.Sockets.{AlarmEvent, Message, alarm_triggered, unread_count}
use task_manger_project.Alarm.Manager.{
  Manager, on_messages, escape_html, Child, TodayRow, animate_task_reordering,
}
use task_manger_project.Alarm.Manager.Escape.{escape_once, escape_html-once}
use task_manger_project.Alarm.Manager.Shown.{times_heard, is_event, heard_once, once}
use task_manger_project.Alarm.Manager.Reorder.{picked, without, reorder_lem}

abbrev event : AlarmEvent
event = record {
  alarm_id = 1;
  task_id = 4;
  user_id = 7;
  task_name = codes "essay";
  deadline = 500;
  triggered_at = 100;
  is_deferred = false;
  deferred_count = 0;
}

abbrev manager : Manager
manager = record {
  connected = true;
  shown = [];
  has_container = true;
  toasts = [];
  has_badge = true;
  badge_text = [];
  badge_visible = false;
  is_panel_open = false;
  reads_asked = 0;
  heard = [];
}

abbrev messages : List Message
messages = alarm_triggered event ∷ unread_count 3 ∷ alarm_triggered event ∷ []

heard_once_example :
    times_heard 1 (on_messages messages manager).heard ≡ once (any (is_event 1) messages)
heard_once_example = heard_once 1 messages manager refl refl

escape_html-once_example : escape_html (codes "<b>&</b>") ≡ escape_once (codes "<b>&</b>")
escape_html-once_example = escape_html-once (codes "<b>&</b>")

abbrev child : ℕ → Option ℕ → Child
child node task = record { node = node; task = task; is_marked = false; badge = none }

abbrev children : List Child
children = child 0 (some 4) ∷ child 1 none ∷ child 2 (some 5) ∷ []

abbrev rows : List TodayRow
rows =
    record { task_id = 5; is_deferred = true; deferred_count = 2 }
    ∷ record { task_id = 4; is_deferred = false; deferred_count = 0 }
    ∷ []

reorder_lem_example :
    animate_task_reordering rows children
    ≡ without (picked children rows) children ++ picked children rows
unfolding picked task_manger_project.Alarm.Manager.node_of
reorder_lem_example = reorder_lem rows children (refl, (refl, tt))
