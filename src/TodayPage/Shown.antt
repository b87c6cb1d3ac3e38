-- ===== src/TodayPage/Shown.antt =====
-- TodayTasksPage.jsx: which tasks are on the list, how often, and in which order.
use task_manger_project.Common.{
  ℕ, refl, Bool, true, not, List, [], map, arith, length, filter, ◌+◌, ◌≤◌, ◌≡◌, ◌∙◌, ◌&&◌, ◌||◌,
  ◌∷◌, if◌then◌else◌, ◌≤ℤ◌,
}
use task_manger_project.Backend.{Energy}
use task_manger_project.TodayPage.{
  View, Row, SortMode, adaptive, deadline, importance, row_of, goes_before, insert, sort, pending,
}
use task_manger_project.Dday.{dday_num}
use task_manger_project.TodayPage.Order.{Ordered, pending-Ordered}

-- How many have a property.
abbrev pub count {ℓ} : {A : Type ℓ} → (A → Bool) → List A → ℕ
count p xs = length (filter p xs)

-- A task that the list is for: one that matches the search and has no priority or is a zombie.
abbrev pub is_listed : (View → Bool) → View → Bool
is_listed matches t = matches t && (not t.is_priority || t.is_zombie)

-- What the chosen order asks of a row and the one behind it: by deadline, by importance, or zombies
-- first and then what fits the energy and the time.
abbrev pub InOrder : SortMode → Row → Row → Type 0
InOrder deadline a b = dday_num a.view.dday ≤ℤ dday_num b.view.dday
InOrder importance a b = b.view.importance ≤ a.view.importance
InOrder adaptive a b =
    (b.view.is_zombie ≡ true → a.view.is_zombie ≡ true)
    × (a.view.is_zombie ≡ b.view.is_zombie → b.fits ≡ true → a.fits ≡ true)

abbrev pub Sorted : SortMode → List Row → Type 0
Sorted mode [] = Unit
Sorted mode (r ∷ []) = Unit
Sorted mode (r ∷ s ∷ rest) = InOrder mode r s × Sorted mode (s ∷ rest)

before-InOrder : (mode : SortMode) (a b : Row) → goes_before mode a b ≡ true → InOrder mode a b
unfolding goes_before
before-InOrder deadline a b h = ground (arith, h)
before-InOrder importance a b h = ground (arith, h)
before-InOrder adaptive a b h = (λ z. ground (arith, h, z), λ e f. ground (arith, h, e, f))

Ordered-Sorted : (mode : SortMode) (rs : List Row) → Ordered (goes_before mode) rs → Sorted mode rs
unfolding Ordered
Ordered-Sorted mode [] h = tt
Ordered-Sorted mode (r ∷ []) h = tt
Ordered-Sorted mode (r ∷ s ∷ rest) h =
    (before-InOrder mode r s h.0, Ordered-Sorted mode (s ∷ rest) h.1)

count-insert :
    (p : Row → Bool) (before : Row → Row → Bool) (r : Row) (rs : List Row)
    → count p (insert before r rs) ≡ (if p r then 1 else 0) + count p rs
unfolding insert
count-insert p before r [] = ground arith
count-insert p before r (s ∷ rs) = ground (arith, count-insert p before r rs)

count-sort :
    (p : Row → Bool) (before : Row → Row → Bool) (rs : List Row)
    → count p (sort before rs) ≡ count p rs
unfolding sort
count-sort p before [] = refl
count-sort p before (r ∷ rs) =
    ground (arith, count-insert p before r (sort before rs), count-sort p before rs)

module _ (matches : View → Bool) where
  count-rows :
      (p : Row → Bool) (energy : Energy) (minutes : ℕ) (views : List View)
      → count p (
          map
            (row_of energy minutes)
            (filter matches (filter (λ t. not t.is_priority || t.is_zombie) views)))
        ≡ count (λ t. is_listed matches t && p (row_of energy minutes t)) views
  count-rows p energy minutes [] = refl
  count-rows p energy minutes (t ∷ ts) = ground (arith, count-rows p energy minutes ts)

  -- The list has the rows of exactly the tasks that match the search and have no priority or are
  -- zombies, each as often as the task is there: as many rows have a property as such tasks
  -- have a row with it. And each row and the one behind it are in the order that is chosen.
  pub pending_lem :
      (views : List View) (energy : Energy) (minutes : ℕ) (mode : SortMode)
      → ((p : Row → Bool)
          → count p (pending matches views energy minutes mode)
            ≡ count (λ t. is_listed matches t && p (row_of energy minutes t)) views)
        × Sorted mode (pending matches views energy minutes mode)
  unfolding pending
  pending_lem views energy minutes mode = (
    λ p.
        count-sort p (goes_before mode) (
          map (row_of energy minutes)
            (filter matches (filter (λ t. not t.is_priority || t.is_zombie) views)))
        ∙ count-rows p energy minutes views,
    Ordered-Sorted mode (pending matches views energy minutes mode)
        (pending-Ordered matches views energy minutes mode),
  )
