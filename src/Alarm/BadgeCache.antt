-- ===== src/Alarm/BadgeCache.antt =====
-- alarm-system/src/cache/notificationBadgeCache.ts: the badge in Redis, computed by one request at a
-- time.
pub mod Flight
mod Tests
use task_manger_project.Common.{
  ℕ, zero, suc, Bool, true, false, not, ◌&&◌, ◌||◌, Option, none, some, ◌+◌, ◌==◌, if◌then◌else◌,
}

-- The keys of one user: the badge and the token of the lock; one that runs out is dropped.
pub record Redis : Type 0 where
  pub badge : Option ℕ
  pub lock : Option ℕ

-- What is in Redis while a request waits or computes, and whether its calls go through: the first
-- read, the SET NX, the write of the badge, the read of the lock, its DEL, and the reads in the loop.
pub record World : Type 0 where
  pub poll : ℕ → Option ℕ
  pub lock_later : Option ℕ
  pub reads : Bool
  pub locks : Bool
  pub stores : Bool
  pub checks : Bool
  pub drops : Bool
  pub polls : ℕ → Bool

-- The answer, or `none` if the computation or a call of Redis threw; the keys; how often it computed, and how often it
-- waited for 50 ms.
pub record Served : Type 0 where
  pub answer : Option ℕ
  pub redis : Redis
  pub computed : ℕ
  pub waited : ℕ

unfoldable pub set : ℕ → Redis → Redis
set count r = record r { badge = some count }

unfoldable pub invalidate : Redis → Redis
invalidate r = record r { badge = none }

-- What the `try` has come to after `compute` and `set`, and what `set` leaves.
abbrev pub tried : Bool → Option ℕ → Option ℕ
tried stores none = none
tried stores (some count) = if stores then some count else none

abbrev pub stored : Option ℕ → Redis → Redis
stored none r = r
stored (some count) r = record r { badge = some count }

-- The lock is released only if it has the request's own token.
abbrev pub holds : ℕ → Option ℕ → Bool
holds token none = false
holds token (some t) = t == token

abbrev pub released : ℕ → Option ℕ → Option ℕ
released token lock = if holds token lock then none else lock

-- An exception of the `finally` replaces the answer.
unfoldable pub compute_locked : ℕ → Option ℕ → World → Redis → Served
compute_locked token computes w r =
    let answer = tried w.stores computes in
    let r' = stored answer r in
    let own = holds token w.lock_later in
    record {
      answer = if w.checks && (not own || w.drops) then answer else none;
      redis = record r' {
        lock = if w.checks && w.drops then released token w.lock_later else w.lock_later;
      };
      computed = 1;
      waited = 0;
    }

abbrev pub fails : Redis → ℕ → Served
fails r waited = record { answer = none; redis = r; computed = 0; waited = waited }

-- A count that a round finds is the answer, after the pauses so far.
abbrev pub found_or : Bool → Option ℕ → Redis → ℕ → Served → Served
found_or false found r waited rest = fails r waited
found_or true none r waited rest = rest
found_or true (some count) r waited rest = record {
  answer = some count;
  redis = r;
  computed = 0;
  waited = waited;
}

-- The loop of the other requests: `left` rounds, and then a computation of its own.
unfoldable pub wait_for : ℕ → ℕ → Option ℕ → World → Redis → Served
wait_for zero i computes w r = record { answer = computes; redis = r; computed = 1; waited = i }
wait_for (suc left) i computes w r =
    let rest = wait_for left (i + 1) computes w r in found_or (w.polls i) (w.poll i) r (i + 1) rest

unfoldable pub get_or_compute : ℕ → Option ℕ → World → Redis → Served
unfolding compute_locked wait_for
get_or_compute token computes w r = if not w.reads then fails r 0 else elim r.badge [
  | some count ↦ record { answer = some count; redis = r; computed = 0; waited = 0 }
  | none ↦ elim w.locks [
    | false ↦ fails r 0
    | true ↦ elim r.lock [
      | none ↦ compute_locked token computes w (record r { lock = some token })
      | some other ↦ wait_for 5 0 computes w r
    ]
  ]
]
