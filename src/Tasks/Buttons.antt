-- ===== src/Tasks/Buttons.antt =====
-- displayStatus.js and taskStoreCore.js: the buttons of a card against the transitions of the store.
use task_manger_project.Common.{
  ℕ, refl, sym, ap, inl, inr, Bool, true, false, Option, some, List, arith, any, ◌≡◌, ◌∙◌, ◌≢◌, ◌⊎◌,
}
use task_manger_project.Tasks.{
  Status, Action, Button, RawStatus, idle, overdue, completed, start, pause, resume, finish,
  start_button, pause_button, resume_button, finish_button, can_transition, optimistic_status_for,
  task_action_button_set, derive_display_status, normalize_status, display, run_idle, run_completed,
}

abbrev pub button_of : Action → Button
button_of start = start_button
button_of pause = pause_button
button_of resume = resume_button
button_of finish = finish_button

abbrev pub same_button : Button → Button → Bool
same_button start_button start_button = true
same_button pause_button pause_button = true
same_button resume_button resume_button = true
same_button finish_button finish_button = true
same_button _ _ = false

-- A card shows the button of an action exactly if the store allows the action in the status shown.
pub button-transition :
    (s : Status) (a : Action)
    → any (same_button (button_of a)) (task_action_button_set s) ≡ can_transition (some s) a
unfolding task_action_button_set can_transition
button-transition s a = ground arith

-- The moves that buttons offer, in any number.
pub data Reach (s : Status) : Status → Type 0 where
  here : Reach s s
  press :
      {t u : Status} (a : Action)
      → Reach s t
      → optimistic_status_for (some t) a ≡ some u
      → Reach s u

completed_stays : (u : Status) (a : Action) → optimistic_status_for (some completed) a ≡ some u → ⊥
unfolding optimistic_status_for
completed_stays u a e = ground arith

not_back :
    (t u : Status) (a : Action)
    → optimistic_status_for (some t) a ≡ some u
    → (u ≢ idle) × (u ≢ overdue)
unfolding optimistic_status_for
not_back t u a e = (λ h. ground arith, λ h. ground arith)

-- However the buttons of a card are pressed, a task has the status that it began with or else one
-- that is neither idle nor overdue, and a completed task stays completed.
pub Reach-status :
    (s u : Status)
    → Reach s u
    → ((u ≡ s) ⊎ ((u ≢ idle) × (u ≢ overdue))) × (s ≡ completed → u ≡ completed)
Reach-status s u here = (inl refl, λ h. h)
Reach-status s u (press {t = t} a r e) = (
  inr (not_back t u a e),
  λ h. absurd (
      completed_stays u a
        (ap (λ x. optimistic_status_for (some x) a) (sym ((Reach-status s t r).1 h)) ∙ e)),
)

-- A raw status that is not one of IDLE, ACTIVE, PAUSED and OVERDUE.
abbrev pub IsBusiness : Option RawStatus → Type 0
IsBusiness (some (display completed)) = Unit
IsBusiness (some (display _)) = ⊥
IsBusiness _ = Unit

-- For a task that no timer runs, the status that the store derives is the one that the card shows.
pub normalize-display :
    (status : Option RawStatus) (dday : Option (List ℕ))
    → IsBusiness status
    → (normalize_status status dday ≡ derive_display_status status dday run_idle)
      × (normalize_status status dday ≡ derive_display_status status dday run_completed)
unfolding normalize_status derive_display_status
normalize-display status dday h = ground arith
