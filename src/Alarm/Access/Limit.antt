-- ===== src/Alarm/Access/Limit.antt =====
-- rateLimit.ts: how many requests of one key pass.
use task_manger_project.Common.{
  ℕ, refl, sym, ap, inl, inr, Bool, true, Option, none, some, List, [], arith, leb, ==_iff,
  Bool-cases, length, filter, All, ◌-◌, ◌≡◌, ◌&&◌, ◌∷◌, if◌then◌else◌,
}
use task_manger_project.Alarm.Access.{
  Payload, authenticate, authenticate_jwt, authenticate_socket, Limits, Request, Key, Subject,
  of_user, of_ip, anon, same_subject, same_key, key_of, passes_of, rate_limit, count_of,
}

abbrev pub min : ℕ → ℕ → ℕ
min a b = if leb a b then a else b

subject_path : (a b : Subject) → same_subject a b ≡ true → a ≡ b
subject_path (of_user a) (of_user b) e = ap of_user ((==_iff a b).0 e)
subject_path (of_ip a) (of_ip b) e = ap of_ip ((==_iff a b).0 e)
subject_path anon anon e = refl
subject_path (of_user a) (of_ip b) e = absurd (cc)
subject_path (of_user a) anon e = absurd (cc)
subject_path (of_ip a) (of_user b) e = absurd (cc)
subject_path (of_ip a) anon e = absurd (cc)
subject_path anon (of_user b) e = absurd (cc)
subject_path anon (of_ip b) e = absurd (cc)

-- The number of the requests that have a key.
pub asked : Limits → Key → List Request → ℕ
asked l k rs = length (filter (λ r. same_key k (key_of l r)) rs)

-- The copy of the middleware in alarmRoutes.ts answers as the middleware does, and the sockets' as
-- well, with the token of the handshake for the header.
pub authenticate_same :
    (verify : List ℕ → Option Payload) (token : Option (List ℕ))
    → (authenticate_jwt verify token ≡ authenticate verify token)
      × (authenticate_socket verify token token ≡ authenticate verify token)
unfolding authenticate_jwt authenticate authenticate_socket
authenticate_same verify none = (refl, refl)
authenticate_same verify (some []) = (refl, refl)
authenticate_same verify (some (c ∷ cs)) = (ground arith, refl)

and_left : (a b : Bool) → (a && b) ≡ true → (a ≡ true) × (b ≡ true)
and_left a b e = ground (arith, e)

key_path : (a b : Key) → same_key a b ≡ true → a ≡ b
key_path a b e =
    let (routes, rest) = and_left _ _ e in
    let (subjects, windows) = and_left _ _ rest in
    let p = (==_iff a.route b.route).0 routes in
    let q = subject_path a.subject b.subject subjects in
    let r = (==_iff a.window b.window).0 windows in
    λ i. record { route = p i; subject = q i; window = r i }

-- Where Redis answers, the requests of one key that pass are the first ones of its window, up to the
-- limit: as many as there are, or as the limit leaves over those that were counted before.
pub passes_lem :
    (l : Limits) (k : Key) (rs : List Request) (hits : List Key)
    → All (λ r. r.redis ≡ true) rs
    → passes_of l k rs hits ≡ min (asked l k rs) (l.max - count_of k hits)
unfolding passes_of rate_limit count_of asked
passes_lem l k [] hits h = ground arith
passes_lem l k (r ∷ rs) hits h =
    let rest = passes_lem l k rs (key_of l r ∷ hits) h.1 in
    elim (Bool-cases (same_key k (key_of l r))) [
      | inl same ↦
          let count : count_of (key_of l r) hits ≡ count_of k hits =
            ap (λ x. count_of x hits) (sym (key_path k (key_of l r) same)) in
          rw (h.0, same, count) (ground (arith, rest, same))
      | inr other ↦ rw (h.0, other) (ground (arith, rest, other))
    ]
