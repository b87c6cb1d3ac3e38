-- ===== src/Dday/RoundTrip.antt =====
-- A label is read back by each of its readers.
use task_manger_project.Common.{
  ℕ, zero, suc, refl, ap, true, some, List, [], arith, ℤ, pos, negsuc, neg_part, sub_ℕ, ltb_ℤ,
  decimal, value_from, all_digits, value-decimal, digits-decimal, ◌≡◌, ◌∙◌, ◌∷◌,
}
use task_manger_project.Dday.{
  label_of_days, dday_num, is_overdue, overdue_days_from_dday, take_digits,
}

take_digits-all : (xs : List ℕ) → all_digits xs ≡ true → take_digits xs ≡ xs
unfolding take_digits all_digits
take_digits-all [] h = refl
take_digits-all (x ∷ xs) h = ground (arith, take_digits-all xs)

no_digits : (n : ℕ) → decimal (suc n) ≡ [] → ⊥
unfolding value_from
no_digits n e = absurd (omega (arith, value-decimal (suc n), ap (value_from 0) e))

-- The digits of a number that is not 0 are a first digit and the rest.
decimal-cons : (n : ℕ) → (c : ℕ) × (cs : List ℕ) × (decimal (suc n) ≡ c ∷ cs)
decimal-cons n = split (decimal (suc n)) refl
  where
    split :
        (xs : List ℕ) → decimal (suc n) ≡ xs → (c : ℕ) × (cs : List ℕ) × (decimal (suc n) ≡ c ∷ cs)
    split [] e = absurd (no_digits n e)
    split (c ∷ cs) e = (c, cs, e)

read_future :
    (c : ℕ) (cs : List ℕ)
    → all_digits (c ∷ cs) ≡ true
    → dday_num (some (b'D' ∷ b'-' ∷ c ∷ cs)) ≡ pos (value_from 0 (c ∷ cs))
unfolding dday_num all_digits
read_future c cs h = ground (arith, take_digits-all (c ∷ cs))

read_past :
    (c : ℕ) (cs : List ℕ)
    → all_digits (c ∷ cs) ≡ true
    → dday_num (some (b'D' ∷ b'+' ∷ c ∷ cs)) ≡ sub_ℕ 0 (value_from 0 (c ∷ cs))
unfolding dday_num all_digits
read_past c cs h = ground (arith, take_digits-all (c ∷ cs))

below_zero : (n : ℕ) → sub_ℕ 0 (suc n) ≡ negsuc n
below_zero n = ground arith

-- `ddayNum` reads from a label the number of days that it was made of.
pub dday_num-label : (days : ℤ) → dday_num (some (label_of_days days)) ≡ days
unfolding label_of_days
dday_num-label (pos zero) = unfold dday_num in refl
dday_num-label (pos (suc n)) =
    let (c, cs, e) = decimal-cons n in
    rw e (
      read_future c cs (rw e at (digits-decimal (suc n)))
      ∙ ap pos (rw e at (value-decimal (suc n))))
dday_num-label (negsuc n) =
    let (c, cs, e) = decimal-cons n in
    rw e (
      read_past c cs (rw e at (digits-decimal (suc n)))
      ∙ ap (sub_ℕ 0) (rw e at (value-decimal (suc n)))
      ∙ below_zero n)

-- Exactly the labels of past days count as overdue, by as many days.
pub overdue-label :
    (days : ℤ)
    → (is_overdue (some (label_of_days days)) ≡ ltb_ℤ days (pos 0))
      × (overdue_days_from_dday (some (label_of_days days)) ≡ neg_part days)
unfolding is_overdue overdue_days_from_dday label_of_days
overdue-label (pos zero) = (refl, refl)
overdue-label (pos (suc n)) = (ground arith, refl)
overdue-label (negsuc n) =
    (ground arith, ground (arith, digits-decimal (suc n), value-decimal (suc n)))
