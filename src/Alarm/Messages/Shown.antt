-- ===== src/Alarm/Messages/Shown.antt =====
-- messages.ts: what may stand in a message.
use task_manger_project.Common.{
  ℕ, zero, suc, inl, inr, none, some, List, [], arith, Bool-cases, All, ℤ, pos, pos_part, ◌≡◌, ◌≢◌,
  ◌↔◌, ◌∷◌, ◌++◌, ◌≤ℤ◌, ◌<ℤ◌,
}
use task_manger_project.Alarm.Sanitize.{max_title_len}
use task_manger_project.Alarm.Sanitize.Safe.{IsSafe, sanitize_title-IsSafe}
use task_manger_project.Alarm.Messages.{
  has_batchim, subject_particle, object_particle, message_of_days, generate_notification_message,
  notification_type_for, build_overdue_notification, info,
}

append-IsSafe : (xs ys : List ℕ) → All IsSafe xs → All IsSafe ys → All IsSafe (xs ++ ys)
append-IsSafe [] ys h k = k
append-IsSafe (x ∷ xs) ys h k = (h.0, append-IsSafe xs ys h.1 k)

particle-IsSafe :
    (word : List ℕ) → All IsSafe (subject_particle word) × All IsSafe (object_particle word)
unfolding subject_particle object_particle
particle-IsSafe word = elim (Bool-cases (has_batchim word)) [
  | inl yes' ↦ rw yes' (ground arith, ground arith)
  | inr no' ↦ rw no' (ground arith, ground arith)
]

days-IsSafe : (title : List ℕ) (n : ℕ) → All IsSafe title → All IsSafe (message_of_days title n)
unfolding message_of_days
days-IsSafe title zero h = tt
days-IsSafe title (suc zero) h =
    append-IsSafe (title ++ subject_particle title) _
      (append-IsSafe title (subject_particle title) h (particle-IsSafe title).0) (ground arith)
days-IsSafe title (suc (suc zero)) h =
    append-IsSafe (title ++ subject_particle title) _
      (append-IsSafe title (subject_particle title) h (particle-IsSafe title).0) (ground arith)
days-IsSafe title (suc (suc (suc n))) h =
    append-IsSafe (title ++ object_particle title) _
      (append-IsSafe title (object_particle title) h (particle-IsSafe title).1) (ground arith)

-- Whatever the title of a task is, the message about it holds no angle bracket and no control
-- character; and a notice is built exactly if the task is late by a day or more, and then its type is
-- not INFO.
pub message_lem :
    (title : List ℕ) (days : ℤ)
    → All IsSafe (generate_notification_message title days)
      × (build_overdue_notification title days ≡ none ↔ days <ℤ pos 1)
      × (pos 1 ≤ℤ days → notification_type_for days ≢ info)
unfolding generate_notification_message build_overdue_notification notification_type_for
message_lem title days = (
  days-IsSafe _ (pos_part days) (sanitize_title-IsSafe (some title) max_title_len).0,
  (λ e. ground arith, λ h. ground arith),
  λ h e. ground arith,
)
