-- ===== src/Backend/Pages.antt =====
-- mock.js: what two pages of notices show together.
use task_manger_project.Common.{
  ℕ, zero, suc, refl, sym, ap, inl, inr, Bool, Option, none, some, List, [], arith, ltb, Bool-cases,
  Option-cases, length, take, drop, filter, All, some_path, ◌+◌, ◌<◌, ◌≡◌, ◌∙◌, ◌&&◌, ◌∷◌, ◌++◌,
  ◌==◌,
}
use task_manger_project.Backend.{Server, Notice}
use task_manger_project.Backend.Notices.{
  latest_first, latest_first-Descending, Descending, DistinctTimes, is_listed, listed, after_cursor,
  last_time, Listing, get_notifications,
}

last-below :
    (b c k : ℕ) (ns : List Notice)
    → All (λ n. n.created_at < b) ns
    → last_time (take k ns) ≡ some c
    → c < b
unfolding last_time
last-below b c zero ns h e = absurd (cc)
last-below b c (suc k) [] h e = absurd (cc)
last-below b c (suc zero) (n ∷ ns) h e = ground (arith, h.0)
last-below b c (suc (suc k)) (n ∷ []) h e = ground (arith, h.0)
last-below b c (suc (suc k)) (n ∷ m ∷ ns) h e = last-below b c (suc k) (m ∷ ns) h.1 e

filter_below :
    (c : ℕ) (ns : List Notice)
    → All (λ n. n.created_at < c) ns
    → filter (λ n. ltb n.created_at c) ns ≡ ns
filter_below c [] h = refl
filter_below c (n ∷ ns) h = ground (arith, filter_below c ns h.1, h.0)

-- Behind the last of the first `k` entries there are the others.
cut :
    (c k : ℕ) (ns : List Notice)
    → Descending ns
    → last_time (take k ns) ≡ some c
    → filter (λ n. ltb n.created_at c) ns ≡ drop k ns
unfolding last_time
cut c zero ns d e = absurd (cc)
cut c (suc k) [] d e = absurd (cc)
cut c (suc zero) (n ∷ ns) d e =
    let same : n.created_at ≡ c = some_path e in
    ground (arith, filter_below n.created_at ns d.0, same)
cut c (suc (suc k)) (n ∷ []) d e = ground arith
cut c (suc (suc k)) (n ∷ m ∷ ns) d e =
    ground (arith, cut c (suc k) (m ∷ ns) d.1 e, last-below n.created_at c (suc k) (m ∷ ns) d.0 e)

take-nil : (k : ℕ) → take {A = Notice} k [] ≡ []
take-nil zero = refl
take-nil (suc k) = refl

take-drop : (k m : ℕ) (ns : List Notice) → take k ns ++ take m (drop k ns) ≡ take (k + m) ns
take-drop zero m ns = let same : m ≡ 0 + m = omega arith in ap (λ k. take k ns) same
take-drop (suc k) m [] = take-nil m ∙ sym (take-nil (suc k + m))
take-drop (suc k) m (n ∷ ns) =
    let next : suc (k + m) ≡ suc k + m = omega arith in
    ap (λ r. n ∷ r) (take-drop k m ns) ∙ ap (λ j. take j (n ∷ ns)) next

listing_shape :
    (s : Server) (unread_only : Bool) (cursor : Option ℕ) (limit : ℕ) (p : Listing)
    → get_notifications s unread_only cursor limit ≡ some p
    → (p.notifications ≡ take limit (after_cursor cursor (listed s unread_only)))
      × ((c : ℕ)
          → p.next_cursor ≡ some c
          → last_time (take limit (after_cursor cursor (listed s unread_only))) ≡ some c)
unfolding get_notifications
listing_shape s unread_only cursor limit p e =
    let start = after_cursor cursor (listed s unread_only) in
    elim (Bool-cases
      (length (take limit start) == limit && ltb (length (take limit start)) (length start))) [
        | inl more ↦ elim (Option-cases (last_time (take limit start))) [
          | inl nothing ↦ ground (arith, more, nothing)
          | inr (t, found) ↦ ground (arith, more, found)
        ]
        | inr all ↦ ground (arith, all)
      ]

-- Where the listed notices have distinct times, a page and the one that its cursor leads to show, one
-- behind the other, the latest notices, as many as the two limits allow and none left out.
pub pages-append :
    (s : Server) (unread_only : Bool) (k m c : ℕ) (p q : Listing)
    → DistinctTimes (filter (is_listed unread_only) s.notices)
    → get_notifications s unread_only none k ≡ some p
    → p.next_cursor ≡ some c
    → get_notifications s unread_only (some c) m ≡ some q
    → p.notifications ++ q.notifications ≡ take (k + m) (listed s unread_only)
unfolding listed
pages-append s unread_only k m c p q d e f g =
    let first = listing_shape s unread_only none k p e in
    let second = listing_shape s unread_only (some c) m q g in
    let all = latest_first (filter (is_listed unread_only) s.notices) in
    let rest =
      cut c k all (latest_first-Descending (filter (is_listed unread_only) s.notices) d)
        (first.1 c f) in
    rw (first.0, second.0, rest) (take-drop k m all)
