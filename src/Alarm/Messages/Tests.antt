-- ===== src/Alarm/Messages/Tests.antt =====
-- Runs of messages.ts on concrete input.
use task_manger_project.Common.{none, All, pos, codes, codes, ◌≡◌, ◌≢◌, ◌↔◌, ◌≤ℤ◌, ◌<ℤ◌}
use task_manger_project.Alarm.Sanitize.Safe.{IsSafe}
use task_manger_project.Alarm.Messages.{
  info, generate_notification_message, build_overdue_notification, notification_type_for,
}
use task_manger_project.Alarm.Messages.Shown.{message_lem}

message_lem_example :
    All IsSafe (generate_notification_message (codes "<b>a") (pos 2))
    × ((build_overdue_notification (codes "<b>a") (pos 2) ≡ none) ↔ (pos 2 <ℤ pos 1))
    × (pos 1 ≤ℤ pos 2 → notification_type_for (pos 2) ≢ info)
message_lem_example = message_lem (codes "<b>a") (pos 2)
