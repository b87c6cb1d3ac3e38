-- ===== src/Common/Texts.antt =====
-- Texts as lists of character codes, and decimal numbers.
use Prim.Native.Nat.{ℕ, zero, suc, ◌+◌, ◌-◌, ◌*◌, ◌/◌, ◌%◌, ◌<◌}
use Prim.Native.Char.{code}
use Prim.Native.String.{String}
use mathlib.Core.Path.{◌≡◌, refl}
use mathlib.Core.Bool.{Bool, true, false, ◌&&◌}
use mathlib.Core.Logic.{inl, inr}
use mathlib.Core.List.{List, [], ◌∷◌, ◌++◌}
use native.Mathlib.Omega.{arith}
use task_manger_project.Common.Tests.{ltb, leb, ◌==◌, if◌then◌else◌, Bool-cases}

abbrev pub codes : String → List ℕ
codes String.[] = []
codes (String.◌∷◌ c s) = code c ∷ codes s

abbrev pub is_digit : ℕ → Bool
is_digit c = leb 48 c && leb c 57

-- `text.startsWith(prefix)`
abbrev pub starts_with : List ℕ → List ℕ → Bool
starts_with [] text = true
starts_with (c ∷ cs) [] = false
starts_with (c ∷ cs) (d ∷ ds) = c == d && starts_with cs ds

-- The decimal digits of a number, most significant first; the fuel is more than the number.
unfoldable pub decimal_fuel : ℕ → ℕ → List ℕ
decimal_fuel zero n = []
decimal_fuel (suc f) n =
    let rest = decimal_fuel f (n / 10) ++ (48 + n % 10) ∷ [] in
    if ltb n 10 then (48 + n) ∷ [] else rest

unfoldable pub decimal : ℕ → List ℕ
unfolding decimal_fuel
decimal n = decimal_fuel (suc n) n

-- The value of decimal digits read after others.
unfoldable pub value_from : ℕ → List ℕ → ℕ
value_from acc [] = acc
value_from acc (c ∷ cs) = value_from (acc * 10 + (c - 48)) cs

unfoldable pub all_digits : List ℕ → Bool
all_digits [] = true
all_digits (c ∷ cs) = is_digit c && all_digits cs

value_from-append :
    (acc : ℕ) (xs ys : List ℕ) → value_from acc (xs ++ ys) ≡ value_from (value_from acc xs) ys
unfolding value_from
value_from-append acc [] ys = refl
value_from-append acc (x ∷ xs) ys = value_from-append (acc * 10 + (x - 48)) xs ys

all_digits-append :
    (xs ys : List ℕ) → all_digits xs ≡ true → all_digits ys ≡ true → all_digits (xs ++ ys) ≡ true
unfolding all_digits
all_digits-append [] ys h k = k
all_digits-append (x ∷ xs) ys h k = ground (arith, all_digits-append xs ys)

digit_of : (n : ℕ) → n < 10 → all_digits ((48 + n) ∷ []) ≡ true
unfolding all_digits
digit_of n h = ground arith

value-decimal_fuel : (f n : ℕ) → n < f → value_from 0 (decimal_fuel f n) ≡ n
unfolding decimal_fuel
value-decimal_fuel zero n h = absurd (omega arith)
value-decimal_fuel (suc f) n h = elim (Bool-cases (ltb n 10)) [
  | inl small ↦ rw small (unfold value_from in ground arith)
  | inr large ↦
      rw
        (
          large,
          value_from-append 0 (decimal_fuel f (n / 10)) ((48 + n % 10) ∷ []),
          value-decimal_fuel f (n / 10) (ground arith),
        )
        (unfold value_from in omega arith)
]

pub value-decimal : (n : ℕ) → value_from 0 (decimal n) ≡ n
unfolding decimal
value-decimal n = value-decimal_fuel (suc n) n (omega arith)

digits-decimal_fuel : (f n : ℕ) → all_digits (decimal_fuel f n) ≡ true
unfolding decimal_fuel
digits-decimal_fuel zero n = unfold all_digits in refl
digits-decimal_fuel (suc f) n = elim (Bool-cases (ltb n 10)) [
  | inl small ↦ rw small (digit_of n (ground arith))
  | inr large ↦ rw large (
      all_digits-append (decimal_fuel f (n / 10)) ((48 + n % 10) ∷ [])
        (digits-decimal_fuel f (n / 10)) (digit_of (n % 10) (omega arith)))
]

pub digits-decimal : (n : ℕ) → all_digits (decimal n) ≡ true
unfolding decimal
digits-decimal n = digits-decimal_fuel (suc n) n
