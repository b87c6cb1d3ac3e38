-- ===== src/PrimaryTab/Election.antt =====
-- primaryTab.js: who is elected.
use task_manger_project.Common.{
  ℕ, refl, sym, ap, inl, inr, false, none, some, [], arith, Bool-cases, Option-cases, All, Dict,
  get, put, get-put_self, ◌-◌, ◌≤◌, ◌<◌, ◌≡◌, ◌∙◌, ◌∷◌, ◌==◌, ◌or◌,
}
use mathlib.Core.Path.{subst}
use task_manger_project.PrimaryTab.{
  Tab, drop_expired, is_expired, first_key, recompute, on_message, beat, is_primary,
}

-- What a tab hears: its own interval, and the ids of tabs, each with the time.
pub data Event : Type 0 where
  beats : ℕ → Event
  hears : ℕ → ℕ → Event

unfoldable pub step : Tab → Event → Tab
unfolding on_message beat
step t (beats now) = (beat t now).0
step t (hears pid now) = (on_message t pid now).0

abbrev pub time_of : Event → ℕ
time_of (beats now) = now
time_of (hears pid now) = now

-- What a tab has written down after an event, before it forgets the expired.
abbrev pub heard : Tab → Event → Dict ℕ
heard t (beats now) = put t.id now t.peers
heard t (hears pid now) = put pid now t.peers

none_found : (d : Dict ℕ) (p : ℕ) → first_key d ≡ none → get p d ≡ none
unfolding first_key get
none_found [] p e = refl
none_found ((q, u) ∷ d) p e = cc

first_key-le : (d : Dict ℕ) (k p ts : ℕ) → first_key d ≡ some k → get p d ≡ some ts → k ≤ p
unfolding first_key get
first_key-le [] k p ts e g = cc
first_key-le ((q, u) ∷ d) k p ts e g = elim (Option-cases (first_key d)) [
  | inl nothing ↦ ground (arith, nothing, none_found d p nothing)
  | inr (j, found) ↦ ground (arith, found, first_key-le d j p ts found)
]

-- The own entry stays.
get-drop_expired :
    (id now p : ℕ) (d : Dict ℕ) (ts : ℕ)
    → get p d ≡ some ts
    → is_expired id now p ts ≡ false
    → get p (drop_expired id now d) ≡ some ts
unfolding drop_expired get
get-drop_expired id now p [] ts g l = g
get-drop_expired id now p ((q, u) ∷ d) ts g l = ground (arith, get-drop_expired id now p d ts)

first_key-some : (d : Dict ℕ) (p ts : ℕ) → get p d ≡ some ts → (k : ℕ) × (first_key d ≡ some k)
unfolding first_key get
first_key-some [] p ts g = cc
first_key-some ((q, u) ∷ d) p ts g = (_, refl)

first_key-get : (d : Dict ℕ) (k : ℕ) → first_key d ≡ some k → (ts : ℕ) × (get k d ≡ some ts)
unfolding first_key get
first_key-get [] k e = cc
first_key-get ((q, u) ∷ d) k e = elim (Bool-cases (q == k)) [
  | inl same ↦ (u, rw same refl)
  | inr other ↦ elim (Option-cases (first_key d)) [
    | inl nothing ↦ absurd (ground (arith, nothing, other))
    | inr (j, found) ↦
        let tail : k ≡ j = ground (arith, found, other) in
        let (ts, g) = first_key-get d j found in
        (ts, rw other (subst (λ i. get i d ≡ some ts) (sym tail) g))
  ]
]

drop_expired-All :
    (id now : ℕ) (d : Dict ℕ) → All (λ p. is_expired id now p.0 p.1 ≡ false) (drop_expired id now d)
unfolding drop_expired
drop_expired-All id now [] = tt
drop_expired-All id now ((q, u) ∷ d) = elim (Bool-cases (is_expired id now q u)) [
  | inl old ↦ rw old (drop_expired-All id now d)
  | inr live ↦ rw live (live, drop_expired-All id now d)
]

step-peers : (t : Tab) (e : Event) → (step t e).peers ≡ drop_expired t.id (time_of e) (heard t e)
unfolding step on_message beat recompute
step-peers t (beats now) = refl
step-peers t (hears pid now) = refl

step-id : (t : Tab) (e : Event) → (step t e).id ≡ t.id
unfolding step on_message beat recompute
step-id t (beats now) = refl
step-id t (hears pid now) = refl

step-primary :
    (t : Tab) (e : Event) → (step t e).primary ≡ (first_key (step t e).peers or t.primary)
unfolding step on_message beat recompute
step-primary t (beats now) = refl
step-primary t (hears pid now) = refl

-- After every message and every beat no tab that was heard of in the last 1500 ms, the tab itself
-- included, has a smaller id than the one that is taken for primary.
pub elected-least :
    (t : Tab) (e : Event) (p ts : ℕ)
    → get p (heard t e) ≡ some ts
    → is_expired t.id (time_of e) p ts ≡ false
    → (step t e).primary ≤ p
elected-least t e p ts g l =
    let kept : get p (step t e).peers ≡ some ts =
      subst (λ d. get p d ≡ some ts) (sym (step-peers t e))
        (get-drop_expired t.id (time_of e) p (heard t e) ts g l) in
    let (k, first) = first_key-some (step t e).peers p ts kept in
    let least = first_key-le (step t e).peers k p ts first kept in
    let same : (step t e).primary ≡ k = step-primary t e ∙ ap (λ o. o or t.primary) first in
    omega (arith, least, same)

newest_live :
    (t : Tab) (e : Event)
    → (p : ℕ) × (ts : ℕ) × (get p (heard t e) ≡ some ts)
      × (is_expired t.id (time_of e) p ts ≡ false)
newest_live t (beats now) = (t.id, now, get-put_self t.id now t.peers, ground arith)
newest_live t (hears pid now) = (pid, now, get-put_self pid now t.peers, ground arith)

-- After every message and every beat the tab that is taken for primary is one of those written down,
-- and all of those but the tab itself were heard of in the last 1500 ms.
pub elected-live :
    (t : Tab) (e : Event)
    → ((ts : ℕ) × (get (step t e).primary (step t e).peers ≡ some ts))
      × All (λ p. is_expired t.id (time_of e) p.0 p.1 ≡ false) (step t e).peers
elected-live t e =
    let (p, ts, g, l) = newest_live t e in
    let kept : get p (step t e).peers ≡ some ts =
      subst (λ d. get p d ≡ some ts) (sym (step-peers t e))
        (get-drop_expired t.id (time_of e) p (heard t e) ts g l) in
    let (k, first) = first_key-some (step t e).peers p ts kept in
    let same : (step t e).primary ≡ k = step-primary t e ∙ ap (λ o. o or t.primary) first in
    (
      subst (λ j. (u : ℕ) × (get j (step t e).peers ≡ some u)) (sym same)
          (first_key-get (step t e).peers k first),
      subst (All (λ q. is_expired t.id (time_of e) q.0 q.1 ≡ false)) (sym (step-peers t e))
          (drop_expired-All t.id (time_of e) (heard t e)),
    )

-- A tab that has heard of a tab with a smaller id in the last 1500 ms is not primary.
pub yields :
    (t : Tab) (e : Event) (p ts : ℕ)
    → p < t.id
    → get p (heard t e) ≡ some ts
    → time_of e - ts ≤ 1500
    → is_primary (step t e) ≡ false
yields t e p ts less g fresh =
    let alive : is_expired t.id (time_of e) p ts ≡ false = ground arith in
    let least = elected-least t e p ts g alive in
    let own : (step t e).id ≡ t.id = step-id t e in unfold is_primary in ground (arith, own, least)
