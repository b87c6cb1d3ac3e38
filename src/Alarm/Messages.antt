-- ===== src/Alarm/Messages.antt =====
-- alarm-system/src/notifications/messages.ts and overdue.ts: how late a task is, and what its owner
-- is told.
pub mod Shown
mod Tests
use task_manger_project.Common.{
  ℕ, zero, suc, Bool, false, not, Option, none, some, List, [], leb, any, ℤ, pos, negsuc, pos_part,
  ltb_ℤ, leb_ℤ, codes, codes, ◌+◌, ◌-◌, ◌/◌, ◌%◌, ◌&&◌, ◌∷◌, ◌++◌, ◌==◌, if◌then◌else◌, ◌-ℤ◌,
}
use task_manger_project.Alarm.Sanitize.{sanitize_title, max_title_len}

pub data NotificationType : Type 0 where
  overdue_1day overdue_2day delete_confirm info : NotificationType

abbrev pub last_unit : List ℕ → Option ℕ
last_unit [] = none
last_unit (c ∷ []) = some c
last_unit (c ∷ d ∷ ds) = last_unit (d ∷ ds)

-- The syllables of Hangul are 0xAC00 to 0xD7A3; a digit is read aloud.
abbrev pub unit_has_batchim : Option ℕ → Bool
unit_has_batchim none = false
unit_has_batchim (some c) =
    if leb 44032 c && leb c 55203
    then not ((c - 44032) % 28 == 0)
    else any (λ d. c == d) (codes "013678")

unfoldable pub has_batchim : List ℕ → Bool
has_batchim word = unit_has_batchim (last_unit word)

unfoldable pub subject_particle : List ℕ → List ℕ
unfolding has_batchim
subject_particle word = if has_batchim word then codes "이" else codes "가"

unfoldable pub object_particle : List ℕ → List ℕ
unfolding has_batchim
object_particle word = if has_batchim word then codes "을" else codes "를"

-- A number of days below 1 is 0 here.
unfoldable pub message_of_days : List ℕ → ℕ → List ℕ
unfolding subject_particle object_particle
message_of_days title zero = []
message_of_days title (suc zero) = title ++ subject_particle title ++ codes " 하루 미뤄졌습니다."
message_of_days title (suc (suc zero)) = title ++ subject_particle title ++ codes " 이틀 지났습니다."
message_of_days title (suc (suc (suc n))) = title ++ object_particle title ++ codes " 투두리스트에서 없앨까요?"

unfoldable pub generate_notification_message : List ℕ → ℤ → List ℕ
unfolding message_of_days sanitize_title
generate_notification_message task_title overdue_days =
    message_of_days (sanitize_title (some task_title) max_title_len) (pos_part overdue_days)

unfoldable pub notification_type_for : ℤ → NotificationType
notification_type_for overdue_days =
    if leb_ℤ (pos 3) overdue_days
    then delete_confirm
    else if pos_part overdue_days == 2
    then overdue_2day
    else if pos_part overdue_days == 1
    then overdue_1day
    else info

pub record BuiltNotification : Type 0 where
  pub message : List ℕ
  pub type : NotificationType

unfoldable pub build_overdue_notification : List ℕ → ℤ → Option BuiltNotification
unfolding generate_notification_message notification_type_for
build_overdue_notification task_title overdue_days =
    if ltb_ℤ overdue_days (pos 1)
    then none
    else some (record {
      message = generate_notification_message task_title overdue_days;
      type = notification_type_for overdue_days;
    })

-- What the code takes from the library of dates: the key of an instant in a time zone
-- (Intl.DateTimeFormat), `Date.UTC` of a year, a month from 0 and a day, and the local midnight.
pub record Calendar : Type 0 where
  pub date_key_in_tz : ℕ → ℕ → ℕ
  pub utc : ℕ → ℕ → ℕ → ℕ
  pub local_midnight_ms : ℕ → ℕ
  pub local_key : ℕ → ℕ

abbrev pub day_ms : ℕ
day_ms = 86_400_000

-- `key.split('-')`, where the key is the number of its digits; `Math.round` of a number of days.
unfoldable pub epoch_day_from_key : Calendar → ℕ → ℕ
epoch_day_from_key cal key =
    (cal.utc (key / 10_000) (key / 100 % 100 - 1) (key % 100) + day_ms / 2) / day_ms

-- `Math.floor` of a quotient.
abbrev pub floor_div : ℤ → ℕ → ℤ
floor_div (pos a) n = pos (a / n)
floor_div (negsuc a) n = negsuc (a / n)

unfoldable pub compute_overdue_days : Calendar → ℕ → ℕ → Option ℕ → ℤ
unfolding epoch_day_from_key
compute_overdue_days cal deadline now (some tz) =
    pos (epoch_day_from_key cal (cal.date_key_in_tz tz now))
    -ℤ pos (epoch_day_from_key cal (cal.date_key_in_tz tz deadline))
compute_overdue_days cal deadline now none =
    floor_div (pos (cal.local_midnight_ms now) -ℤ pos (cal.local_midnight_ms deadline)) day_ms

unfoldable pub to_service_date : Calendar → ℕ → Option ℕ → ℕ
to_service_date cal now (some tz) = cal.date_key_in_tz tz now
to_service_date cal now none = cal.local_key now
