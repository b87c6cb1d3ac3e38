-- ===== src/Dday.antt =====
-- The D-day label: `ddayLabel` of frontend/src/api/tasks.js, `ddayNum` of hooks/useNotifications.js
-- (pages/TodayTasksPage.jsx has the same function), `isOverdue` of lib/displayStatus.js and
-- `overdueDaysFromDday` of lib/taskStoreCore.js. The local midnight of an instant, in milliseconds,
-- is `Date`'s, and so an argument. Dates that `Date` cannot read are left out.
pub mod RoundTrip
pub mod Midnight
mod Tests
use task_manger_project.Common.{
  ℕ, zero, suc, Bool, true, false, Option, none, some, List, [], leb, ℤ, pos, negsuc, sub_ℕ, codes,
  is_digit, starts_with, decimal, value_from, all_digits, ◌+◌, ◌-◌, ◌/◌, ◌&&◌, ◌||◌, ◌∷◌, ◌==◌,
  ◌or◌, if◌then◌else◌, ◌-ℤ◌,
}

-- `Math.round(a / d)`, with a half taken upwards, where `h` is half of `d`.
unfoldable pub round_div : ℤ → ℕ → ℕ → ℤ
round_div (pos n) d h = pos ((n + h) / d)
round_div (negsuc n) d h =
    if leb (suc n) h then pos ((h - suc n) / d) else sub_ℕ 0 ((suc n - h + (d - 1)) / d)

abbrev pub day_ms : ℕ
day_ms = 86400000

abbrev pub half_day_ms : ℕ
half_day_ms = 43200000

-- `D-DAY`, `D-n` or `D+n`.
unfoldable pub label_of_days : ℤ → List ℕ
label_of_days (pos zero) = codes "D-DAY"
label_of_days (pos (suc n)) = b'D' ∷ b'-' ∷ decimal (suc n)
label_of_days (negsuc n) = b'D' ∷ b'+' ∷ decimal (suc n)

unfoldable pub dday_label : (ℕ → ℤ) → Option ℕ → ℕ → Option (List ℕ)
unfolding label_of_days round_div
dday_label midnight none now = none
dday_label midnight (some deadline) now =
    some (label_of_days (round_div (midnight deadline -ℤ midnight now) day_ms half_day_ms))

abbrev pub eq_text : List ℕ → List ℕ → Bool
eq_text [] [] = true
eq_text (a ∷ as') (b ∷ bs) = a == b && eq_text as' bs
eq_text _ _ = false

-- The digits that a text begins with.
unfoldable pub take_digits : List ℕ → List ℕ
take_digits [] = []
take_digits (c ∷ cs) = let rest = take_digits cs in if is_digit c then c ∷ rest else []

unfoldable pub signed : ℕ → List ℕ → Option ℤ
signed sign [] = none
signed sign (d ∷ ds) =
    let n = value_from 0 (d ∷ ds) in some (if sign == b'-' then pos n else sub_ℕ 0 n)

-- The match of `D([+-])(\d+)` at the beginning of a text, as `ddayNum` reads it.
unfoldable pub match_here : List ℕ → Option ℤ
unfolding signed take_digits
match_here (c ∷ (sign ∷ rest)) =
    if c == b'D' && (sign == b'+' || sign == b'-') then signed sign (take_digits rest) else none
match_here _ = none

unfoldable pub first_match : List ℕ → Option ℤ
unfolding match_here
first_match [] = none
first_match (c ∷ cs) =
    let later = first_match cs in elim (match_here (c ∷ cs)) [ none ↦ later | some n ↦ some n ]

unfoldable pub dday_num : Option (List ℕ) → ℤ
unfolding first_match
dday_num none = pos 9999
dday_num (some []) = pos 9999
dday_num (some (c ∷ cs)) =
    if eq_text (c ∷ cs) (codes "D-DAY") then pos 0 else first_match (c ∷ cs) or pos 9999

-- `typeof dday === 'string' && dday.startsWith('D+')`
unfoldable pub is_overdue : Option (List ℕ) → Bool
is_overdue none = false
is_overdue (some text) = starts_with (codes "D+") text

-- `Number(text) || 0`, where a text that is no run of decimal digits counts as no number.
abbrev pub number_or_0 : List ℕ → ℕ
number_or_0 text = if all_digits text then value_from 0 text else 0

abbrev pub drop_two : List ℕ → List ℕ
drop_two (a ∷ (b ∷ rest)) = rest
drop_two _ = []

unfoldable pub overdue_days_from_dday : Option (List ℕ) → ℕ
unfolding is_overdue
overdue_days_from_dday none = 0
overdue_days_from_dday (some text) =
    if is_overdue (some text) then number_or_0 (drop_two text) else 0
