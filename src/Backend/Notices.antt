-- ===== src/Backend/Notices.antt =====
-- mock.js: the notices about late tasks, and their pages.
use task_manger_project.Common.{
  ℕ, inl, inr, Bool, true, not, Option, none, some, List, [], arith, ltb, leb, Bool-cases, length,
  take, filter, All, map_option, ◌≤◌, ◌<◌, ◌≢◌, ◌&&◌, ◌||◌, ◌∷◌, ◌==◌, if◌then◌else◌,
}
use task_manger_project.Backend.{
  Server, Notice, completed, archived, was_completed, was_deleted, change,
}

unfoldable pub insert_latest : Notice → List Notice → List Notice
insert_latest n [] = n ∷ []
insert_latest n (m ∷ ms) =
    if leb m.created_at n.created_at then n ∷ m ∷ ms else m ∷ insert_latest n ms

-- The stable sort by descending time.
unfoldable pub latest_first : List Notice → List Notice
latest_first [] = []
latest_first (n ∷ ns) = insert_latest n (latest_first ns)

abbrev pub is_unread : Notice → Bool
is_unread n = not n.is_dismissed && not n.is_read

abbrev pub is_listed : Bool → Notice → Bool
is_listed unread_only n = not n.is_dismissed && (not unread_only || not n.is_read)

unfoldable pub listed : Server → Bool → List Notice
listed s unread_only = latest_first (filter (is_listed unread_only) s.notices)

abbrev pub after_cursor : Option ℕ → List Notice → List Notice
after_cursor none ns = ns
after_cursor (some c) ns = filter (λ n. ltb n.created_at c) ns

-- `page[page.length - 1].created_at`
unfoldable pub last_time : List Notice → Option ℕ
last_time [] = none
last_time (n ∷ []) = some n.created_at
last_time (n ∷ m ∷ ms) = last_time (m ∷ ms)

pub record Listing : Type 0 where
  pub notifications : List Notice
  pub unread_count : ℕ
  pub next_cursor : Option ℕ

-- `none` is the TypeError of a page of no entries of which there are more.
unfoldable pub get_notifications : Server → Bool → Option ℕ → ℕ → Option Listing
get_notifications s unread_only cursor limit =
    let start = after_cursor cursor (listed s unread_only) in
    let page = take limit start in
    let unread = length (filter is_unread s.notices) in
    if length page == limit && ltb (length page) (length start)
    then map_option
        (λ c. record { notifications = page; unread_count = unread; next_cursor = some c })
        (last_time page)
    else some (record { notifications = page; unread_count = unread; next_cursor = none })

unfoldable pub change_notice : (Notice → Bool) → (Notice → Notice) → List Notice → List Notice
change_notice p f [] = []
change_notice p f (n ∷ ns) = (if p n then f n else n) ∷ change_notice p f ns

unfoldable pub mark_notification_read : Server → ℕ → Server
mark_notification_read s id = record s {
  notices = change_notice (λ n. n.id == id) (λ n. record n { is_read = true }) s.notices;
}

unfoldable pub dismiss_notification : Server → ℕ → Server
dismiss_notification s id = record s {
  notices = change_notice (λ n. n.id == id) (λ n. record n { is_dismissed = true }) s.notices;
}

-- The answer to "delete?": whether it was `COMPLETE`.
unfoldable pub resolve_delete_confirm : Server → ℕ → Bool → Server
resolve_delete_confirm s task_id complete = record s {
  notices =
      change_notice (λ n. n.task_id == task_id && not n.is_dismissed)
        (λ n. record n {
          is_dismissed = true;
          action_taken = if complete then was_completed else was_deleted;
        })
        s.notices;
  tasks =
      change task_id (λ t. record t { status = if complete then completed else archived }) s.tasks;
}

-- Times go down.
abbrev pub Descending : List Notice → Type 0
Descending [] = Unit
Descending (n ∷ ns) = All (λ m. m.created_at < n.created_at) ns × Descending ns

-- No two notices were made at the same time.
abbrev pub DistinctTimes : List Notice → Type 0
DistinctTimes [] = Unit
DistinctTimes (n ∷ ns) = All (λ m. m.created_at ≢ n.created_at) ns × DistinctTimes ns

All-insert :
    (P : Notice → Type 0) (n : Notice) (ns : List Notice)
    → P n
    → All P ns
    → All P (insert_latest n ns)
unfolding insert_latest
All-insert P n [] p h = (p, tt)
All-insert P n (m ∷ ms) p h = elim (Bool-cases (leb m.created_at n.created_at)) [
  | inl before ↦ rw before (p, h)
  | inr after ↦ rw after (h.0, All-insert P n ms p h.1)
]

All-sort : (P : Notice → Type 0) (ns : List Notice) → All P ns → All P (latest_first ns)
unfolding latest_first
All-sort P [] h = h
All-sort P (n ∷ ns) h = All-insert P n (latest_first ns) h.0 (All-sort P ns h.1)

All-below :
    (a b : ℕ) (ns : List Notice)
    → a ≤ b
    → All (λ m. m.created_at < a) ns
    → All (λ m. m.created_at < b) ns
All-below a b [] le h = tt
All-below a b (n ∷ ns) le h = (omega (arith, h.0), All-below a b ns le h.1)

insert-Descending :
    (n : Notice) (ns : List Notice)
    → Descending ns
    → All (λ m. m.created_at ≢ n.created_at) ns
    → Descending (insert_latest n ns)
unfolding insert_latest
insert-Descending n [] d h = (tt, tt)
insert-Descending n (m ∷ ms) d h = elim (Bool-cases (leb m.created_at n.created_at)) [
  | inl before ↦
      let less : m.created_at < n.created_at = ground (arith, h.0) in
      rw before ((less, All-below m.created_at n.created_at ms (omega arith) d.0), d)
  | inr after ↦
      let less : n.created_at < m.created_at = ground arith in
      rw after (
        All-insert (λ k. k.created_at < m.created_at) n ms less d.0,
        insert-Descending n ms d.1 h.1,
      )
]

pub latest_first-Descending : (ns : List Notice) → DistinctTimes ns → Descending (latest_first ns)
unfolding latest_first
latest_first-Descending [] h = tt
latest_first-Descending (n ∷ ns) h =
    insert-Descending n (latest_first ns) (latest_first-Descending ns h.1)
      (All-sort (λ m. m.created_at ≢ n.created_at) ns h.0)
