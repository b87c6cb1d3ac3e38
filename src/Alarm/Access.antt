-- ===== src/Alarm/Access.antt =====
-- alarm-system/src/middleware: who a request is from (auth.ts, and the copies of it in
-- realtime/socketHandler.ts and routes/alarmRoutes.ts) and how many requests may pass (rateLimit.ts).
pub mod Limit
mod Tests
use task_manger_project.Common.{
  ℕ, zero, suc, Bool, true, false, not, Option, none, some, List, [], ltb, truthy, length, drop,
  filter, codes, starts_with, codes, starts_with, ◌+◌, ◌-◌, ◌/◌, ◌&&◌, ◌∷◌, ◌==◌, if◌then◌else◌,
}

-- What `jwt.verify` finds in a token; the fields are numbers or their texts.
pub record Payload : Type 0 where
  pub user_id : Option ℕ
  pub sub : Option ℕ

pub data Auth : Type 0 where
  authenticated : ℕ → Auth
  token_required invalid_payload invalid_token : Auth

-- `a || b` of numbers.
abbrev pub or_number : Option ℕ → Option ℕ → Option ℕ
or_number a b = if truthy a then a else b

abbrev pub with_user : Option ℕ → Auth
with_user none = invalid_payload
with_user (some zero) = invalid_payload
with_user (some (suc n)) = authenticated (suc n)

abbrev pub of_payload : Option Payload → Auth
of_payload none = invalid_token
of_payload (some p) = with_user (or_number p.user_id p.sub)

-- `header.startsWith('Bearer ') ? header.slice(7) : header`
unfoldable pub bare_token : List ℕ → List ℕ
bare_token header = if starts_with (codes "Bearer ") header then drop 7 header else header

-- `verify` is `jwt.verify` with the key and RS256; `none` is what it throws. An empty header is false.
module _ (verify : List ℕ → Option Payload) where
  unfoldable pub authenticate : Option (List ℕ) → Auth
  unfolding bare_token
  authenticate none = token_required
  authenticate (some []) = token_required
  authenticate (some (c ∷ cs)) = of_payload (verify (bare_token (c ∷ cs)))

  -- `authenticateJWT` of routes/alarmRoutes.ts
  unfoldable pub authenticate_jwt : Option (List ℕ) → Auth
  unfolding bare_token
  authenticate_jwt none = token_required
  authenticate_jwt (some header) =
      if length header == 0 then token_required else of_payload (verify (bare_token header))

  -- The middleware of the sockets: the token of the handshake, or the header.
  unfoldable pub authenticate_socket : Option (List ℕ) → Option (List ℕ) → Auth
  unfolding authenticate
  authenticate_socket (some (c ∷ cs)) header = authenticate (some (c ∷ cs))
  authenticate_socket token header = authenticate header

-- `req.userId ?? req.ip ?? 'anon'`
pub data Subject : Type 0 where
  of_user of_ip : ℕ → Subject
  anon : Subject

unfoldable pub subject_of : Option ℕ → Option ℕ → Subject
subject_of (some user) ip = of_user user
subject_of none (some ip) = of_ip ip
subject_of none none = anon

abbrev pub same_subject : Subject → Subject → Bool
same_subject (of_user a) (of_user b) = a == b
same_subject (of_ip a) (of_ip b) = a == b
same_subject anon anon = true
same_subject _ _ = false

-- The key of a counter; a route is the number of its text.
pub record Key : Type 0 where
  pub route : ℕ
  pub subject : Subject
  pub window : ℕ

abbrev pub same_key : Key → Key → Bool
same_key a b = a.route == b.route && (same_subject a.subject b.subject && a.window == b.window)

pub record Limits : Type 0 where
  pub window_sec : ℕ
  pub max : ℕ

pub record Request : Type 0 where
  pub user_id : Option ℕ
  pub ip : Option ℕ
  pub route : ℕ
  pub now : ℕ
  pub redis : Bool

unfoldable pub key_of : Limits → Request → Key
unfolding subject_of
key_of l r = record {
  route = r.route;
  subject = subject_of r.user_id r.ip;
  window = r.now / 1000 / l.window_sec;
}

-- The headers are those that the limiter sets; a request that passes goes to the next handler.
pub record Answer : Type 0 where
  pub passes : Bool
  pub remaining : Option ℕ
  pub retry_after : Option ℕ

-- The counters of Redis as the keys that INCR was called with: a counter is the number of its
-- calls. It runs out a whole window after the first of them, when its window is over.
unfoldable pub count_of : Key → List Key → ℕ
count_of k hits = length (filter (same_key k) hits)

unfoldable pub rate_limit : Limits → Request → List Key → Answer × List Key
unfolding key_of count_of
rate_limit l r hits =
    let count = count_of (key_of l r) hits + 1 in
    if r.redis
    then (
      record {
        passes = not (ltb l.max count);
        remaining = some (l.max - count);
        retry_after = if ltb l.max count then some l.window_sec else none;
      },
      key_of l r ∷ hits,
    )
    else (record { passes = true; remaining = none; retry_after = none }, hits)

-- A run of requests, and how many of those with a key pass.
unfoldable pub passes_of : Limits → Key → List Request → List Key → ℕ
unfolding rate_limit
passes_of l k [] hits = 0
passes_of l k (r ∷ rs) hits =
    let (answer, hits') = rate_limit l r hits in
    (if same_key k (key_of l r) && answer.passes then 1 else 0) + passes_of l k rs hits'
