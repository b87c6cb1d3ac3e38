-- ===== src/Alarm/NoticeRequests/Badge.antt =====
-- notificationRoutes.ts and notificationDispatcher.ts: the badge in Redis against the notices.
use mathlib.Core.Path.{subst}
use task_manger_project.Common.{
  ℕ, refl, sym, ap, inl, inr, Bool, true, not, Option, none, some, List, [], arith, ==_iff,
  Bool-cases, any, ◌≡◌, ◌∙◌, ◌≢◌, ◌&&◌, ◌∷◌, ◌==◌, if◌then◌else◌,
}
use task_manger_project.Alarm.Notices.{
  Notice, Live, Outside, count_unread, emit_unread_count, dispatch, set_badge, notification_new,
}
use task_manger_project.Alarm.BadgeCache.{World, Redis, get_or_compute}
use task_manger_project.Alarm.BadgeCache.Flight.{Up, get_or_compute-count}
use task_manger_project.Alarm.NoticeRequests.{
  answered, get_badge, sends, is_own, is_about, read_notice, dismiss_notice, update_notices,
  change_notices, post_read, post_dismiss, dismiss_deleted,
}

-- Each badge that is there is the number of the user's unread notices.
unfoldable pub IsFresh : Live → Type 0
IsFresh live = (u n : ℕ) → live.badge u ≡ some n → n ≡ count_unread u live.notices

-- The queries of the count and the writes to Redis go through.
abbrev pub Works : Outside → Type 0
Works o = (o.counts ≡ true) × (o.caches ≡ true)

emitted :
    (o : Outside) (user : ℕ) (live : Live)
    → Works o
    → ((emit_unread_count o user live).notices ≡ live.notices)
      × ((emit_unread_count o user live).badge
          ≡ set_badge user (some (count_unread user live.notices)) live.badge)
unfolding emit_unread_count
emitted o user live (counts, caches) = elim (Bool-cases o.emits) [
  | inl yes' ↦ rw (counts, caches, yes') (refl, refl)
  | inr no' ↦ rw (counts, caches, no') (refl, refl)
]

-- After a change that leaves the notices of all others alone, sending the count makes the badges fresh.
emit-IsFresh :
    (o : Outside) (user : ℕ) (live : Live) (before : List Notice)
    → Works o
    → ((u : ℕ) → u ≢ user → count_unread u live.notices ≡ count_unread u before)
    → ((u n : ℕ) → live.badge u ≡ some n → n ≡ count_unread u before)
    → IsFresh (emit_unread_count o user live)
unfolding IsFresh
emit-IsFresh o user live before works others fresh u n e =
    let (same_notices, badge) = emitted o user live works in
    let e' : set_badge user (some (count_unread user live.notices)) live.badge u ≡ some n =
      ap (λ b. b u) (sym badge) ∙ e in
    elim (Bool-cases (u == user)) [
      | inl same ↦
          let is_user = (==_iff u user).0 same in
          let is_count : n ≡ count_unread user live.notices = ground (arith, same, e') in
          is_count
          ∙ ap (λ k. count_unread k live.notices) (sym is_user)
          ∙ ap (count_unread u) (sym same_notices)
      | inr other ↦
          let kept : live.badge u ≡ some n = ground (arith, other, e') in
          let is_other : u ≢ user = λ h. ground (arith, other, h) in
          fresh u n kept ∙ sym (others u is_other) ∙ ap (count_unread u) (sym same_notices)
    ]

others_count :
    (p : Notice → Bool) (f : Notice → Notice) (user u : ℕ) (ns : List Notice)
    → ((n : Notice) → p n ≡ true → n.user_id ≡ user)
    → ((n : Notice) → (f n).user_id ≡ n.user_id)
    → u ≢ user
    → count_unread u (update_notices p f ns) ≡ count_unread u ns
unfolding count_unread update_notices
others_count p f user u [] own keeps h = refl
others_count p f user u (n ∷ ns) own keeps h = elim (Bool-cases (p n)) [
  | inl yes' ↦
      rw yes' (ground (arith, own n yes', keeps n, others_count p f user u ns own keeps h, h))
  | inr no' ↦ rw no' (ground (arith, others_count p f user u ns own keeps h))
]

change-IsFresh :
    (o : Outside) (user : ℕ) (p : Notice → Bool) (f : Notice → Notice) (live : Live)
    → Works o
    → ((n : Notice) → p n ≡ true → n.user_id ≡ user)
    → ((n : Notice) → (f n).user_id ≡ n.user_id)
    → IsFresh live
    → IsFresh (emit_unread_count o user (record live { notices = update_notices p f live.notices }))
unfolding IsFresh
change-IsFresh o user p f live works own keeps fresh =
    emit-IsFresh o user (record live { notices = update_notices p f live.notices }) live.notices
      works (λ u h. others_count p f user u live.notices own keeps h) fresh

tried-IsFresh :
    (o : Outside) (user : ℕ) (p : Notice → Bool) (f : Notice → Notice) (live : Live)
    → Works o
    → ((n : Notice) → p n ≡ true → n.user_id ≡ user)
    → ((n : Notice) → (f n).user_id ≡ n.user_id)
    → IsFresh live
    → IsFresh (change_notices o user p f live).1
unfolding change_notices
tried-IsFresh o user p f live works own keeps fresh = elim (Bool-cases (any p live.notices)) [
  | inl some' ↦ rw some' (change-IsFresh o user p f live works own keeps fresh)
  | inr none' ↦ rw none' fresh
]

others_new :
    (n : Notice) (user u : ℕ) (ns : List Notice)
    → n.user_id ≡ user
    → u ≢ user
    → count_unread u (n ∷ ns) ≡ count_unread u ns
unfolding count_unread
others_new n user u ns own h = ground (arith, own, h)

dispatched :
    (o : Outside) (user : ℕ) (n : Notice) (live : Live)
    → o.emits ≡ true
    → (dispatch o user n live).1
      ≡ emit_unread_count o user (record live { sent = (user, notification_new n) ∷ live.sent })
unfolding dispatch
dispatched o user n live on = rw on refl

dispatch-IsFresh :
    (o : Outside) (user : ℕ) (n : Notice) (live : Live)
    → Works o
    → o.emits ≡ true
    → n.user_id ≡ user
    → IsFresh live
    → IsFresh (dispatch o user n (record live { notices = n ∷ live.notices })).1
unfolding IsFresh
dispatch-IsFresh o user n live works on own fresh =
    subst IsFresh (sym (dispatched o user n (record live { notices = n ∷ live.notices }) on)) (
      emit-IsFresh o user
        (record live { notices = n ∷ live.notices; sent = (user, notification_new n) ∷ live.sent })
        live.notices works (λ u h. others_new n user u live.notices own h) fresh)

-- Where the query of the count and the write to Redis go through, the requests to read a notice, to
-- dismiss it and to delete its task, and the delivery of a new notice that can be emitted, leave
-- every badge equal to the number of unread notices of its user, if they were so before.
pub requests-IsFresh :
    (o : Outside) (user id now : ℕ) (live : Live)
    → Works o
    → IsFresh live
    → IsFresh (post_read o user id now live).1
      × IsFresh (post_dismiss o user id now live).1
      × IsFresh (dismiss_deleted o user id now live)
      × ((n : Notice)
          → o.emits ≡ true
          → n.user_id ≡ user
          → IsFresh (dispatch o user n (record live { notices = n ∷ live.notices })).1)
unfolding post_read post_dismiss dismiss_deleted
requests-IsFresh o user id now live works fresh = (
  tried-IsFresh o user (is_own id user) (read_notice now) live works (λ n h. ground (arith, h))
      (λ n. refl) fresh,
  tried-IsFresh o user (λ n. is_own id user n && not n.is_dismissed) (dismiss_notice now) live works
      (λ n h. ground (arith, h)) (λ n. refl) fresh,
  change-IsFresh o user (is_about id user)
      (λ n. record (dismiss_notice now n) { was_deleted = true }) live works
      (λ n h. ground (arith, h)) (λ n. refl) fresh,
  λ n on own. dispatch-IsFresh o user n live works on own fresh,
)

-- Where every badge that the request sees is the number of unread notices, and the query of the
-- count goes through, it leaves all badges so; and it answers that number if every call of Redis
-- goes through.
pub get_badge_lem :
    (o : Outside) (token user : ℕ) (w : World) (lock : Option ℕ) (live : Live)
    → o.counts ≡ true
    → ((i n : ℕ) → w.poll i ≡ some n → n ≡ count_unread user live.notices)
    → IsFresh live
    → let (answer, live') = get_badge o token user w lock live in
      (Up w → answer ≡ sends (count_unread user live.notices)) × IsFresh live'
unfolding get_badge IsFresh
get_badge_lem o token user w lock live works seen fresh =
    let count = count_unread user live.notices in
    let redis : Redis = record { badge = live.badge user; lock = lock } in
    let (a, b) = get_or_compute-count count w seen token redis (fresh user) in
    subst
      (λ counts.
        let done = get_or_compute token (if counts then some count else none) w redis in
        (Up w → answered done.answer ≡ sends count)
        × ((u n : ℕ)
            → set_badge user done.redis.badge live.badge u ≡ some n
            → n ≡ count_unread u live.notices))
      (sym works)
      (
        λ up. ap answered (a up),
        λ u n e. elim (Bool-cases (u == user)) [
          | inl same ↦
              let is_user = (==_iff u user).0 same in
              subst (λ k. n ≡ count_unread k live.notices) (sym is_user)
                (b n (ground (arith, e, same)))
          | inr other ↦ fresh u n (ground (arith, e, other))
        ],
      )
