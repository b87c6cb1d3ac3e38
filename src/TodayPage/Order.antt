-- ===== src/TodayPage/Order.antt =====
-- TodayTasksPage.jsx: the order of the list.
use task_manger_project.Common.{
  ℕ, inl, inr, Bool, true, false, not, List, [], map, arith, Bool-cases, filter, ◌≡◌, ◌||◌, ◌∷◌,
}
use task_manger_project.Backend.{Energy}
use task_manger_project.TodayPage.{
  View, Row, SortMode, adaptive, deadline, importance, row_of, goes_before, insert, sort, pending,
}

-- Every row may stand before the next.
unfoldable pub Ordered : (Row → Row → Bool) → List Row → Type 0
Ordered before [] = Unit
Ordered before (r ∷ []) = Unit
Ordered before (r ∷ s ∷ rest) = (before r s ≡ true) × Ordered before (s ∷ rest)

insert-Ordered :
    (before : Row → Row → Bool) (r : Row) (rs : List Row)
    → ((a b : Row) → before a b ≡ false → before b a ≡ true)
    → Ordered before rs
    → Ordered before (insert before r rs)
unfolding Ordered insert
insert-Ordered before r [] total h = tt
insert-Ordered before r (s ∷ []) total h = elim (Bool-cases (before r s)) [
  | inl yes' ↦ rw yes' (yes', tt)
  | inr no' ↦ rw no' (total r s no', tt)
]
insert-Ordered before r (s ∷ u ∷ rs) total h = elim (Bool-cases (before r s)) [
  | inl yes' ↦ rw yes' (yes', h)
  | inr no' ↦
      let rest = insert-Ordered before r (u ∷ rs) total h.1 in
      elim (Bool-cases (before r u)) [
        | inl first ↦ rw (no', first) (total r s no', (first, h.1))
        | inr later ↦ rw (no', later) (h.0, rw later at rest)
      ]
]

sort-Ordered :
    (before : Row → Row → Bool) (rs : List Row)
    → ((a b : Row) → before a b ≡ false → before b a ≡ true)
    → Ordered before (sort before rs)
unfolding sort
sort-Ordered before [] total = unfold Ordered in tt
sort-Ordered before (r ∷ rs) total =
    insert-Ordered before r (sort before rs) total (sort-Ordered before rs total)

goes_before-total :
    (mode : SortMode) (a b : Row) → goes_before mode a b ≡ false → goes_before mode b a ≡ true
unfolding goes_before
goes_before-total adaptive a b h = ground arith
goes_before-total deadline a b h = ground arith
goes_before-total importance a b h = ground arith

-- Each row of the list may stand before the one behind it in the order that is chosen.
pub pending-Ordered :
    (matches : View → Bool) (views : List View) (energy : Energy) (minutes : ℕ) (mode : SortMode)
    → Ordered (goes_before mode) (pending matches views energy minutes mode)
unfolding pending
pending-Ordered matches views energy minutes mode =
    sort-Ordered (goes_before mode)
      (map (row_of energy minutes)
        (filter matches (filter (λ t. not t.is_priority || t.is_zombie) views)))
      (goes_before-total mode)
