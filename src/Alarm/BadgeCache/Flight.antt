-- ===== src/Alarm/BadgeCache/Flight.antt =====
-- notificationBadgeCache.ts: how a request ends, and what it leaves in Redis.
use task_manger_project.Common.{
  ℕ, zero, suc, refl, sym, ap, inl, inr, true, Option, none, some, arith, Bool-cases, Option-cases,
  some_path, some_path, ◌+◌, ◌≤◌, ◌≡◌, ◌∙◌, ◌≢◌,
}
use task_manger_project.Alarm.BadgeCache.{
  Redis, World, compute_locked, wait_for, released, get_or_compute, Served,
}

-- Every call of Redis goes through.
abbrev pub Up : World → Type 0
Up w =
    (w.reads ≡ true)
    × (w.locks ≡ true)
    × (w.stores ≡ true)
    × (w.checks ≡ true)
    × (w.drops ≡ true)
    × ((i : ℕ) → w.polls i ≡ true)

wait_bounds :
    (left i : ℕ) (count : ℕ) (w : World) (r : Redis)
    → let done = wait_for left i (some count) w r in
      (done.redis ≡ r)
      × (done.computed ≤ 1)
      × (done.waited ≤ i + left)
      × (((k : ℕ) → w.polls k ≡ true) → done.answer ≢ none)
unfolding wait_for
wait_bounds zero i count w r = (refl, omega arith, omega arith, λ up e. absurd (cc))
wait_bounds (suc left) i count w r = elim (Bool-cases (w.polls i)) [
  | inr down ↦ rw down (refl, omega arith, omega arith, λ up. absurd (cc (up i, down)))
  | inl fine ↦ elim (Option-cases (w.poll i)) [
    | inl nothing ↦
        let (a, b, c, d) = wait_bounds left (i + 1) count w r in
        rw (fine, nothing) (a, b, omega (arith, c), d)
    | inr (n, some_n) ↦ rw (fine, some_n) (refl, omega arith, omega arith, λ up e. absurd (cc))
  ]
]

not_own : (token : ℕ) (lock : Option ℕ) → released token lock ≢ some token
not_own token none e = cc
not_own token (some t) e = ground (arith, e)

-- What a request that takes the lock has come to.
locked_lem :
    (token count : ℕ) (w : World) (r : Redis)
    → let done = compute_locked token (some count) w (record r { lock = some token }) in
      (w.stores ≡ true
        → w.checks ≡ true
        → w.drops ≡ true
        → (done.answer ≡ some count) × (done.redis.badge ≡ some count))
      × (w.checks ≡ true → w.drops ≡ true → done.redis.lock ≢ some token)
unfolding compute_locked
locked_lem token count w r =
    (λ s c d. rw (s, c, d) (ground arith, refl), λ c d. rw (c, d) (not_own token w.lock_later))

-- A request that can compute computes at most once and pauses at most five times, and it is answered
-- if every call of Redis goes through. A badge that is read is the answer, and nothing is computed.
-- A request that finds the lock of another changes no key. One that takes the lock and can
-- release it does not leave its own token behind, whether or not its badge could be stored; if it
-- could, the badge is what was computed, and so is the answer.
pub get_or_compute_lem :
    (token count : ℕ) (w : World) (r : Redis)
    → let done = get_or_compute token (some count) w r in
      (done.computed ≤ 1)
      × (done.waited ≤ 5)
      × (Up w → done.answer ≢ none)
      × ((n : ℕ) → w.reads ≡ true → r.badge ≡ some n → (done.answer ≡ some n) × (done.computed ≡ 0))
      × ((other : ℕ) → r.lock ≡ some other → done.redis ≡ r)
      × (w.reads ≡ true
          → w.locks ≡ true
          → r.badge ≡ none
          → r.lock ≡ none
          → w.checks ≡ true
          → w.drops ≡ true
          → (done.redis.lock ≢ some token)
            × (w.stores ≡ true → (done.answer ≡ some count) × (done.redis.badge ≡ some count)))
unfolding get_or_compute
get_or_compute_lem token count w r = elim (Bool-cases w.reads) [
  | inr down ↦ rw down (
    omega arith,
    omega arith,
    λ up. absurd (cc (up.0, down)),
    λ n e. absurd (cc),
    λ other e. refl,
    λ e. absurd (cc),
  )
  | inl fine ↦ elim (Option-cases r.badge) [
    | inr (n, hit) ↦
        rw (fine, hit)
          (
            omega arith,
            omega arith,
            λ up e. absurd (cc),
            λ k u e. (e, refl),
            λ other e i. record { badge = hit i; lock = r.lock },
            λ e f g. absurd (cc),
          )
    | inl miss ↦ elim (Bool-cases w.locks) [
      | inr down ↦
          rw (fine, miss, down)
            (
              omega arith,
              omega arith,
              λ up. absurd (cc (up.1, down)),
              λ k u e. absurd (cc),
              λ other e i. record { badge = miss i; lock = r.lock },
              λ e f. absurd (cc),
            )
      | inl able ↦ elim (Option-cases r.lock) [
        | inl free ↦
            let (stored_is, released_is) = locked_lem token count w r in
            rw (fine, miss, able, free)
              (
                unfold compute_locked in omega arith,
                unfold compute_locked in omega arith,
                λ up e. cc ((stored_is up.2 up.3 up.4).0, e),
                λ k u e. absurd (cc),
                λ other e. absurd (cc),
                λ a b c d e f. (released_is e f, λ s. stored_is s e f),
              )
        | inr (other, held) ↦
            let (a, b, c, d) = wait_bounds 5 0 count w r in
            let same : r ≡ record { badge = none; lock = some other } =
              λ i. record { badge = miss i; lock = held i } in
            rw (fine, miss, able, held)
              (
                b,
                omega (arith, c),
                λ up. d up.5,
                λ k u e. absurd (cc),
                λ k e. a ∙ same,
                λ e f g h. absurd (cc),
              )
      ]
    ]
  ]
]

none-some : (k : ℕ) → none ≢ some k
none-some k e = cc

module _ (count : ℕ) (w : World) (seen : (i n : ℕ) → w.poll i ≡ some n → n ≡ count) where
  abbrev IsRight : Served → Type 0
  IsRight done =
      (Up w → done.answer ≡ some count) × ((n : ℕ) → done.redis.badge ≡ some n → n ≡ count)

  wait_for-count :
      (left i : ℕ) (r : Redis)
      → let done = wait_for left i (some count) w r in
        (((k : ℕ) → w.polls k ≡ true) → done.answer ≡ some count) × (done.redis ≡ r)
  unfolding wait_for
  wait_for-count zero i r = (λ up. refl, refl)
  wait_for-count (suc left) i r = elim (Bool-cases (w.polls i)) [
    | inr down ↦ rw down (λ up. absurd (cc (up i, down)), refl)
    | inl fine ↦ elim (Option-cases (w.poll i)) [
      | inl nothing ↦ rw (fine, nothing) (wait_for-count left (i + 1) r)
      | inr (n, some_n) ↦ rw (fine, some_n) (λ up. ap some (seen i n some_n), refl)
    ]
  ]

  locked-count :
      (token : ℕ) (r : Redis)
      → r.badge ≡ none
      → IsRight (compute_locked token (some count) w (record r { lock = some token }))
  unfolding compute_locked
  locked-count token r miss = elim (Bool-cases w.stores) [
    | inl kept ↦ rw kept (λ up. rw (up.3, up.4) (ground arith), λ k e. some_path (sym e))
    | inr lost ↦ rw lost (λ up. absurd (cc (up.2)), λ k e. absurd (none-some k (sym miss ∙ e)))
  ]

  -- Where each badge that a request sees is the count, so is the badge that it leaves, and its
  -- answer where every call of Redis goes through.
  pub get_or_compute-count :
      (token : ℕ) (r : Redis)
      → ((n : ℕ) → r.badge ≡ some n → n ≡ count)
      → IsRight (get_or_compute token (some count) w r)
  unfolding get_or_compute
  get_or_compute-count token r own = elim (Bool-cases w.reads) [
    | inr down ↦ rw down (λ up. absurd (cc (up.0, down)), own)
    | inl fine ↦ elim (Option-cases r.badge) [
      | inr (n, hit) ↦ rw (fine, hit) (λ up. ap some (own n hit), λ k e. own k e)
      | inl miss ↦ elim (Bool-cases w.locks) [
        | inr down ↦ rw (fine, miss, down) (λ up. absurd (cc (up.1, down)), λ k e. absurd (cc))
        | inl able ↦ elim (Option-cases r.lock) [
          | inl free ↦
              let right = locked-count token r miss in
              rw (fine, miss, able, free)
                (λ up. right.0 (fine, able, up.2, up.3, up.4, up.5), right.1)
          | inr (other, held) ↦
              let (a, b) = wait_for-count 5 0 r in
              rw (fine, miss, able, held)
                (λ up. a up.5, λ k e. own k (ap (λ x. x.badge) (sym b) ∙ e))
        ]
      ]
    ]
  ]
