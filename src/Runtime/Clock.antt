-- ===== src/Runtime/Clock.antt =====
-- taskRuntime.js: the seconds that a task has run.
use task_manger_project.Common.{
  ℕ, some, List, [], arith, length, All, ◌+◌, ◌-◌, ◌*◌, ◌/◌, ◌≤◌, ◌<◌, ◌≡◌, ◌∷◌,
}
use task_manger_project.Runtime.{
  Entry, running, paused, display_seconds, resume_entry, pause_entry, finish_entry,
}

-- A task is resumed at the first time of each pair and paused at the second.
unfoldable pub work : Entry → List (ℕ × ℕ) → Entry
work e [] = e
work e ((from, to) ∷ rest) = work (pause_entry (some (resume_entry (some e) from)) to) rest

unfoldable pub worked_ms : List (ℕ × ℕ) → ℕ
worked_ms [] = 0
worked_ms ((from, to) ∷ rest) = (to - from) + worked_ms rest

abbrev pub FromPositive : List (ℕ × ℕ) → Type 0
FromPositive pairs = All (λ p. 0 < p.0) pairs

stretch :
    (e : Entry) (from to : ℕ)
    → 0 < from
    → e.status ≡ paused
    → ((pause_entry (some (resume_entry (some e) from)) to).status ≡ paused)
      × ((pause_entry (some (resume_entry (some e) from)) to).elapsed_seconds
          ≡ e.elapsed_seconds + (to - from) / 1000)
unfolding pause_entry resume_entry
stretch e from to p h = ground arith

-- The seconds counted over any number of stretches of a paused task, none of them begun at the time
-- 0, are never more than the time that it ran, and fall short of it by less than a second for each
-- stretch.
pub seconds-work :
    (e : Entry) (pairs : List (ℕ × ℕ))
    → FromPositive pairs
    → e.status ≡ paused
    → ((work e pairs).elapsed_seconds * 1000 ≤ e.elapsed_seconds * 1000 + worked_ms pairs)
      × (e.elapsed_seconds * 1000 + worked_ms pairs
          ≤ (work e pairs).elapsed_seconds * 1000 + 999 * length pairs)
unfolding work worked_ms
seconds-work e [] p h = omega arith
seconds-work e ((from, to) ∷ rest) p h =
    let (still, gained) = stretch e from to p.0 h in
    let (upper, lower) =
      seconds-work (pause_entry (some (resume_entry (some e) from)) to) rest p.1 still in
    (omega arith, omega arith)

-- What is shown while a task runs is what a pause or a finish at that time records.
pub display-fold :
    (e : Entry) (now : ℕ)
    → e.status ≡ running
    → (display_seconds (some e) now ≡ (pause_entry (some e) now).elapsed_seconds)
      × (display_seconds (some e) now ≡ (finish_entry (some e) now).elapsed_seconds)
      × (display_seconds (some (pause_entry (some e) now)) now ≡ display_seconds (some e) now)
unfolding display_seconds pause_entry finish_entry
display-fold e now h = ground arith
