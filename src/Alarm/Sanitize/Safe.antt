-- ===== src/Alarm/Sanitize/Safe.antt =====
-- sanitize.ts and mask.ts: what is left of a title.
use task_manger_project.Common.{
  ℕ, zero, suc, inl, inr, false, not, Option, none, some, List, [], arith, Bool-cases, length, take,
  filter, All, ◌≤◌, ◌≡◌, ◌∷◌,
}
use task_manger_project.Alarm.Sanitize.{
  is_control, is_angle, trim_start, trim_end, trim, strip_tags, sanitize_title,
}

-- A unit that is neither an angle bracket nor a control character.
abbrev pub IsSafe : ℕ → Type 0
IsSafe c = (is_angle c ≡ false) × (is_control c ≡ false)

filter_angle-IsSafe :
    (cs : List ℕ)
    → All IsSafe (filter (λ c. not (is_angle c)) (filter (λ c. not (is_control c)) cs))
filter_angle-IsSafe [] = tt
filter_angle-IsSafe (c ∷ cs) = elim (Bool-cases (is_control c)) [
  | inl yes' ↦ rw yes' (filter_angle-IsSafe cs)
  | inr no' ↦ elim (Bool-cases (is_angle c)) [
    | inl angle ↦ rw (no', angle) (filter_angle-IsSafe cs)
    | inr other ↦ rw (no', other) ((other, no'), filter_angle-IsSafe cs)
  ]
]

trim_start-IsSafe : (cs : List ℕ) → All IsSafe cs → All IsSafe (trim_start cs)
unfolding trim_start
trim_start-IsSafe [] h = tt
trim_start-IsSafe (c ∷ cs) h = ground (arith, trim_start-IsSafe cs h.1, h)

trim_end-IsSafe : (cs : List ℕ) → All IsSafe cs → All IsSafe (trim_end cs)
unfolding trim_end
trim_end-IsSafe [] h = tt
trim_end-IsSafe (c ∷ cs) h = ground (arith, trim_end-IsSafe cs h.1, h)

take-IsSafe : (n : ℕ) (cs : List ℕ) → All IsSafe cs → All IsSafe (take n cs)
take-IsSafe zero cs h = tt
take-IsSafe (suc n) [] h = tt
take-IsSafe (suc n) (c ∷ cs) h = (h.0, take-IsSafe n cs h.1)

take-length : (n : ℕ) (cs : List ℕ) → length (take n cs) ≤ n
take-length zero cs = omega arith
take-length (suc n) [] = omega arith
take-length (suc n) (c ∷ cs) = omega (arith, take-length n cs)

-- A title that has been made safe holds no angle bracket and no control character, and is at most as
-- long as the limit.
pub sanitize_title-IsSafe :
    (raw : Option (List ℕ)) (max_len : ℕ)
    → All IsSafe (sanitize_title raw max_len) × (length (sanitize_title raw max_len) ≤ max_len)
unfolding sanitize_title trim
sanitize_title-IsSafe none max_len = (tt, omega arith)
sanitize_title-IsSafe (some raw) max_len = (
  take-IsSafe max_len _
      (trim_end-IsSafe _ (trim_start-IsSafe _ (filter_angle-IsSafe (strip_tags false raw)))),
  take-length max_len _,
)
