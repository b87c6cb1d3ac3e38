-- ===== src/Alarm/Manager/Shown.antt =====
-- AlarmManager.ts: an alarm that comes more than once is shown once.
use task_manger_project.Common.{
  ℕ, refl, sym, ap, inl, inr, Bool, true, false, List, [], arith, ==_iff, Bool-cases, length,
  filter, any, ◌+◌, ◌≡◌, ◌∙◌, ◌||◌, ◌∷◌, ◌++◌, ◌==◌,
}
use task_manger_project.Alarm.Sockets.{AlarmEvent, Message, alarm_triggered, unread_count}
use task_manger_project.Alarm.Manager.{
  Manager, render_toast, handle_alarm_triggered, update_bell_badge, on_message, on_messages,
}

abbrev pub is_event : ℕ → Message → Bool
is_event id (alarm_triggered a) = a.alarm_id == id
is_event id (unread_count n) = false

abbrev pub times_heard : ℕ → List AlarmEvent → ℕ
times_heard id alarms = length (filter (λ a. a.alarm_id == id) alarms)

abbrev pub is_shown : ℕ → Manager → Bool
is_shown id m = any (λ k. k == id) m.shown

abbrev pub once : Bool → ℕ
once true = 1
once false = 0

heard-append :
    (id : ℕ) (xs : List AlarmEvent) (a : AlarmEvent)
    → times_heard id (xs ++ a ∷ []) ≡ times_heard id xs + once (a.alarm_id == id)
heard-append id [] a = ground arith
heard-append id (x ∷ xs) a = ground (arith, heard-append id xs a)

shown_path : (id k : ℕ) (m : Manager) → k ≡ id → is_shown k m ≡ is_shown id m
shown_path id k m e = ap (λ j. is_shown j m) e

-- What a message does to the two lists, whatever the page has.
heard_of :
    (a : AlarmEvent) (m : Manager)
    → is_shown a.alarm_id m ≡ false
    → ((on_message (alarm_triggered a) m).heard ≡ m.heard ++ a ∷ [])
      × ((on_message (alarm_triggered a) m).shown ≡ a.alarm_id ∷ m.shown)
unfolding on_message handle_alarm_triggered render_toast
heard_of a m h = elim (Bool-cases m.has_container) [
  | inl yes' ↦ rw (h, yes') (refl, refl)
  | inr no' ↦ rw (h, no') (refl, refl)
]

unheard_of :
    (n : ℕ) (m : Manager)
    → ((on_message (unread_count n) m).heard ≡ m.heard)
      × ((on_message (unread_count n) m).shown ≡ m.shown)
unfolding on_message update_bell_badge
unheard_of n m = ground arith

repeated :
    (a : AlarmEvent) (m : Manager)
    → is_shown a.alarm_id m ≡ true
    → on_message (alarm_triggered a) m ≡ m
unfolding on_message handle_alarm_triggered
repeated a m h = rw h refl

shown_now :
    (id k : ℕ) (m : Manager) → is_shown k m ≡ true → (is_shown id m || (k == id)) ≡ is_shown id m
shown_now id k m h = elim (Bool-cases (k == id)) [
  | inl same ↦ ground (arith, same, shown_path id k m ((==_iff k id).0 same), h)
  | inr other ↦ ground (arith, other)
]

step :
    (id : ℕ) (x : Message) (m : Manager)
    → times_heard id m.heard ≡ once (is_shown id m)
    → (times_heard id (on_message x m).heard ≡ once (is_shown id (on_message x m)))
      × (is_shown id (on_message x m) ≡ (is_shown id m || is_event id x))
step id (unread_count n) m h =
    let (same, still) = unheard_of n m in rw (same, still) (h, ground arith)
step id (alarm_triggered a) m h = elim (Bool-cases (is_shown a.alarm_id m)) [
  | inl yes' ↦ rw (repeated a m yes') (h, sym (shown_now id a.alarm_id m yes'))
  | inr no' ↦
      let (more, then') = heard_of a m no' in
      rw (more, then', heard-append id m.heard a)
        (ground (arith, h, shown_path id a.alarm_id m, no'), ground arith)
]

run_lem :
    (id : ℕ) (xs : List Message) (m : Manager)
    → times_heard id m.heard ≡ once (is_shown id m)
    → times_heard id (on_messages xs m).heard ≡ once (is_shown id m || any (is_event id) xs)
unfolding on_messages
run_lem id [] m h = ground (arith, h)
run_lem id (x ∷ xs) m h =
    let (now, later) = step id x m h in ground (arith, run_lem id xs (on_message x m) now, later)

-- However often and in whatever order the service sends its messages to a page that has shown nothing
-- yet, an alarm is reported to the page exactly once if a message of it has come, and else not.
pub heard_once :
    (id : ℕ) (xs : List Message) (m : Manager)
    → m.shown ≡ []
    → m.heard ≡ []
    → times_heard id (on_messages xs m).heard ≡ once (any (is_event id) xs)
heard_once id xs m e f =
    let start : is_shown id m ≡ false = rw e refl in
    let empty : times_heard id m.heard ≡ once (is_shown id m) = rw (start, f) refl in
    run_lem id xs m empty ∙ ap (λ b. once (b || any (is_event id) xs)) start
