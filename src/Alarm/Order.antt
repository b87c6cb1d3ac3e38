-- ===== src/Alarm/Order.antt =====
-- ORDER BY, as an insertion sort by a test of which row goes before which.
use task_manger_project.Common.{
  refl, inl, inr, Bool, true, false, List, [], arith, Bool-cases, any, ◌≡◌, ◌||◌, ◌∷◌,
  if◌then◌else◌,
}

module _ {ℓ} {A : Type ℓ} (before : A → A → Bool) where
  unfoldable pub insert : A → List A → List A
  insert x [] = x ∷ []
  insert x (y ∷ ys) = let rest = insert x ys in if before x y then x ∷ y ∷ ys else y ∷ rest

  unfoldable pub order_by : List A → List A
  unfolding insert
  order_by [] = []
  order_by (x ∷ xs) = insert x (order_by xs)

  -- Every row may stand before the next.
  pub Ordered : List A → Type 0
  Ordered [] = Unit
  Ordered (x ∷ []) = Unit
  Ordered (x ∷ y ∷ ys) = (before x y ≡ true) × Ordered (y ∷ ys)

  insert-Ordered :
      ((a b : A) → before a b ≡ false → before b a ≡ true)
      → (x : A) (ys : List A) → Ordered ys
      → Ordered (insert x ys)
  unfolding Ordered insert
  insert-Ordered total x [] h = tt
  insert-Ordered total x (y ∷ []) h = elim (Bool-cases (before x y)) [
    | inl yes' ↦ rw yes' (yes', tt)
    | inr no' ↦ rw no' (total x y no', tt)
  ]
  insert-Ordered total x (y ∷ z ∷ ys) h = elim (Bool-cases (before x y)) [
    | inl yes' ↦ rw yes' (yes', h)
    | inr no' ↦
        let rest = insert-Ordered total x (z ∷ ys) h.1 in
        elim (Bool-cases (before x z)) [
          | inl first ↦ rw (no', first) (total x y no', (first, h.1))
          | inr later ↦ rw (no', later) (h.0, rw later at rest)
        ]
  ]

  pub order_by-Ordered :
      ((a b : A) → before a b ≡ false → before b a ≡ true) → (xs : List A) → Ordered (order_by xs)
  unfolding order_by
  order_by-Ordered total [] = unfold Ordered in tt
  order_by-Ordered total (x ∷ xs) = insert-Ordered total x (order_by xs) (order_by-Ordered total xs)

  -- A row that the list has, the ordered list has.
  any-insert : (p : A → Bool) (x : A) (ys : List A) → any p (insert x ys) ≡ (p x || any p ys)
  unfolding insert
  any-insert p x [] = refl
  any-insert p x (y ∷ ys) = ground (arith, any-insert p x ys)

  pub any-order_by : (p : A → Bool) (xs : List A) → any p (order_by xs) ≡ any p xs
  unfolding order_by
  any-order_by p [] = refl
  any-order_by p (x ∷ xs) = ground (arith, any-insert p x (order_by xs), any-order_by p xs)
