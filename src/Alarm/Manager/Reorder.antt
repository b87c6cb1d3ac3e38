-- ===== src/Alarm/Manager/Reorder.antt =====
-- AlarmManager.ts: the order of the list after the bell was clicked.
use task_manger_project.Common.{
  ℕ, refl, sym, ap, inl, inr, Bool, false, not, Option, none, some, List, [], arith, Bool-cases,
  filter, any, ◌≡◌, ◌∙◌, ◌≢◌, ◌⊎◌, ◌∷◌, ◌++◌, ◌==◌,
}
use task_manger_project.Alarm.Manager.{
  shows, Child, TodayRow, node_of, dressed, moved, append_rows, animate_task_reordering,
}

-- The last child of those that bear the id of a task.
abbrev pub last_of : List Child → Option Child
last_of [] = none
last_of (c ∷ []) = some c
last_of (c ∷ d ∷ cs) = last_of (d ∷ cs)

abbrev pub bearer : ℕ → List Child → Option Child
bearer id cs = last_of (filter (λ c. shows id c.task) cs)

last_of-cons :
    (c : Child) (cs : List Child) (o : Option Child)
    → last_of cs ≡ o
    → ((o ≡ none) × (cs ≡ []) × (last_of (c ∷ cs) ≡ some c))
      ⊎ ((d : Child) × (o ≡ some d) × (last_of (c ∷ cs) ≡ some d))
last_of-cons c [] o e = inl (sym e, refl, refl)
last_of-cons c (d ∷ cs) none e = absurd (no_last d cs e)
  where
    no_last : (x : Child) (xs : List Child) → last_of (x ∷ xs) ≢ none
    no_last x [] h = cc
    no_last x (y ∷ xs) h = no_last y xs h
last_of-cons c (d ∷ cs) (some x) e = inr (x, refl, e)

node_of_lem : (id : ℕ) (cs : List Child) → node_of id cs ≡ bearer id cs
unfolding node_of
node_of_lem id [] = refl
node_of_lem id (c ∷ cs) = elim (last_of-cons c (filter (λ d. shows id d.task) cs) _ refl) [
  | inl (nothing, empty, alone) ↦ elim (Bool-cases (shows id c.task)) [
    | inl here ↦ rw (node_of_lem id cs, nothing, here, alone) refl
    | inr there ↦ rw (node_of_lem id cs, nothing, there, nothing) refl
  ]
  | inr (d, found, last) ↦ elim (Bool-cases (shows id c.task)) [
    | inl here ↦ rw (node_of_lem id cs, found, here, last) refl
    | inr there ↦ rw (node_of_lem id cs, found, there, found) refl
  ]
]

-- The children of the rows that have one, dressed, in the order of the rows.
abbrev pub picked_one : TodayRow → Option Child → List Child → List Child
picked_one row none rest = rest
picked_one row (some c) rest = dressed row c ∷ rest

unfoldable pub picked : List Child → List TodayRow → List Child
picked all [] = []
picked all (row ∷ rows) = picked_one row (bearer row.task_id all) (picked all rows)

abbrev pub is_node : ℕ → Child → Bool
is_node k c = c.node == k

abbrev pub DistinctNodes : List Child → Type 0
DistinctNodes [] = Unit
DistinctNodes (c ∷ cs) = (any (is_node c.node) cs ≡ false) × DistinctNodes cs

-- The children that are not among some others.
abbrev pub without : List Child → List Child → List Child
without gone cs = filter (λ d. not (any (is_node d.node) gone)) cs

without-append :
    (gone xs ys : List Child) → without gone (xs ++ ys) ≡ without gone xs ++ without gone ys
without-append gone [] ys = refl
without-append gone (x ∷ xs) ys = ground (arith, without-append gone xs ys)

without-cons :
    (c : Child) (k : ℕ) (gone cs : List Child)
    → c.node ≡ k
    → without gone (filter (λ d. not (d.node == k)) cs) ≡ without (c ∷ gone) cs
without-cons c k gone [] e = refl
without-cons c k gone (d ∷ ds) e = elim (Bool-cases (d.node == k)) [
  | inl same ↦ ground (arith, same, e, without-cons c k gone ds e)
  | inr other ↦ ground (arith, other, e, without-cons c k gone ds e)
]

without-nil : (cs : List Child) → without [] cs ++ [] ≡ cs
without-nil [] = refl
without-nil (c ∷ cs) = ap (λ r. c ∷ r) (without-nil cs)

snoc-append : (xs ys : List Child) (y : Child) → xs ++ y ∷ [] ++ ys ≡ xs ++ y ∷ ys
snoc-append [] ys y = refl
snoc-append (x ∷ xs) ys y = ap (λ r. x ∷ r) (snoc-append xs ys y)

dressed-node : (row : TodayRow) (c : Child) → (dressed row c).node ≡ c.node
dressed-node row c = ground arith

-- One row more, where the others are placed as they should be.
row_moved :
    (all : List Child) (rows : List TodayRow) (children : List Child) (row : TodayRow)
    (o : Option Child)
    → (DistinctNodes (picked all rows)
        → (cs : List Child)
        → append_rows all rows cs ≡ without (picked all rows) cs ++ picked all rows)
    → DistinctNodes (picked_one row o (picked all rows))
    → append_rows all rows (moved row o children)
      ≡ without (picked_one row o (picked all rows)) children ++ picked_one row o (picked all rows)
row_moved all rows children row none placed k = placed k children
row_moved all rows children row (some c) placed k =
    let rest = picked all rows in
    let c' = dressed row c in
    let left = filter (λ d. not (d.node == c.node)) children in
    let stays : without rest (c' ∷ []) ≡ c' ∷ [] = rw k.0 refl in
    placed k.1 (moved row (some c) children)
    ∙ ap (λ r. r ++ rest)
        (without-append rest left (c' ∷ [])
          ∙ ap (λ r. r ++ without rest (c' ∷ []))
              (without-cons c' c.node rest children (dressed-node row c))
          ∙ ap (λ r. without (c' ∷ rest) children ++ r) stays)
    ∙ snoc-append (without (c' ∷ rest) children) rest c'

append_rows_lem :
    (all : List Child) (rows : List TodayRow)
    → DistinctNodes (picked all rows)
    → (children : List Child)
    → append_rows all rows children ≡ without (picked all rows) children ++ picked all rows
unfolding append_rows picked
append_rows_lem all [] h children = sym (without-nil children)
append_rows_lem all (row ∷ rows) h children =
    rw (node_of_lem row.task_id all)
      (row_moved all rows children row (bearer row.task_id all) (append_rows_lem all rows) h)

-- A row leads to the last child that bears the id of its task. Where the rows lead to distinct
-- children, the list has the children to which no row leads, in the order in which they were, and
-- behind them those of the rows, in the order of the rows.
pub reorder_lem :
    (rows : List TodayRow) (children : List Child)
    → DistinctNodes (picked children rows)
    → animate_task_reordering rows children
      ≡ without (picked children rows) children ++ picked children rows
unfolding animate_task_reordering
reorder_lem rows children h = append_rows_lem children rows h children
