-- ===== src/TimerStore/Hidden.antt =====
-- TimerContext.jsx: what a timer accounts for while its tab is hidden.
use task_manger_project.Common.{
  ℕ, refl, ap, true, Option, none, some, List, [], arith, Dict, get, get-put_self, get-map_entries,
  ℤ, sub_ℕ, ◌>>=◌, ◌+◌, ◌-◌, ◌≤◌, ◌≡◌, ◌∙◌, ◌≢◌, ◌∷◌, if◌then◌else◌,
}
use task_manger_project.Timer.{Timer, is_ticking, tick, apply_hidden_gap}
use task_manger_project.Timer.Drift.{tick_all, tick_all-tick, Ascending, last_of, last_of-ge}
use task_manger_project.TimerStore.{
  State, Page, hidden, visible, on_visibility, reducer, ticks, tick_timers, gap_timers,
}

-- The interval's ticks, which a browser slows down and does not stop in a hidden tab.
unfoldable pub tick_page : Page → List ℕ → Option Page
tick_page p [] = some p
tick_page p (n ∷ ns) = do s ← reducer p.state (ticks n); tick_page (record p { state = s }) ns

-- The tab is hidden at `from`, ticks come at the times `ns`, and it is shown again at `to`.
unfoldable pub away : Page → ℕ → List ℕ → ℕ → Option Page
away p from ns to = do
  q ← on_visibility p hidden from from
  r ← tick_page q ns
  on_visibility r visible to to

get-tick_timers :
    (n a : ℕ) (t : Timer) (timers : Dict Timer)
    → get a timers ≡ some t
    → is_ticking t ≡ true
    → get a (tick_timers n timers) ≡ some (tick t n)
unfolding tick_timers
get-tick_timers n a t timers e h =
    ground (arith, get-map_entries (λ _ u. if is_ticking u then tick u n else u) a timers)

tick-is_ticking : (t : Timer) (n : ℕ) → is_ticking t ≡ true → is_ticking (tick t n) ≡ true
unfolding tick
tick-is_ticking t n h = ground arith

-- The ticks leave the active task and the time of hiding alone, and tick its timer.
tick_page_lem :
    (p : Page) (ns : List ℕ) (a : ℕ) (t : Timer)
    → get a p.state.timers ≡ some t
    → is_ticking t ≡ true
    → (timers : Dict Timer) × (tick_page p ns
        ≡ some (record {
          state = record { active = p.state.active; timers = timers };
          hidden_at = p.hidden_at;
        }))
      × (get a timers ≡ some (tick_all t ns))
unfolding tick_page reducer tick_all
tick_page_lem p [] a t e h = (p.state.timers, refl, e)
tick_page_lem p (n ∷ ns) a t e h =
    tick_page_lem
      (record p {
        state = record { active = p.state.active; timers = tick_timers n p.state.timers };
      })
      ns a (tick t n) (get-tick_timers n a t p.state.timers e h) (tick-is_ticking t n h)

gap-get :
    (s : State) (a : ℕ) (t : Timer) (gap : ℤ) (now : ℕ)
    → a ≢ 0
    → get a s.timers ≡ some t
    → get a (gap_timers s gap now (some a)) ≡ some (apply_hidden_gap t gap (some now))
unfolding gap_timers
gap-get s a t gap now p e =
    ground (arith, get-put_self a (apply_hidden_gap t gap (some now)) s.timers)

counted_gap :
    (t : Timer) (n from to : ℕ)
    → is_ticking t ≡ true
    → t.last_tick_at ≤ from
    → from ≤ n
    → n ≤ to
    → (apply_hidden_gap (tick t n) (sub_ℕ to from) (some to)).elapsed
      ≡ t.elapsed + (to - t.last_tick_at) + (n - from)
unfolding apply_hidden_gap tick
counted_gap t n from to h p q r = ground arith

-- The page with the given tasks, the first of them active.
abbrev pub page : ℕ → Dict Timer → Page
page a timers = record { state = record { active = some a; timers = timers }; hidden_at = none }

-- The active timer, of a task whose id is not 0, ticks at least once while its tab is hidden, with
-- clock readings that do not go back. When the tab is shown again, the timer's elapsed time has
-- grown by the real time since its last tick and, once more, by the time from the hiding to the
-- last of the ticks: the hidden stretch is counted twice.
pub hidden_counted_twice :
    (timers : Dict Timer) (a : ℕ) (t : Timer) (from n : ℕ) (ns : List ℕ) (to : ℕ)
    → a ≢ 0
    → get a timers ≡ some t
    → is_ticking t ≡ true
    → t.last_tick_at ≤ from
    → Ascending from (n ∷ ns)
    → last_of n ns ≤ to
    → (p : Page) × (u : Timer) × (away (page a timers) from (n ∷ ns) to ≡ some p)
      × (get a p.state.timers ≡ some u)
      × (u.elapsed ≡ t.elapsed + (to - t.last_tick_at) + (last_of n ns - from))
unfolding away on_visibility reducer
hidden_counted_twice timers a t from n ns to nz e h le up ends =
    let (after, ticked, found) =
      tick_page_lem (record (page a timers) { hidden_at = some from }) (n ∷ ns) a t e h in
    let settled : tick_all t (n ∷ ns) ≡ tick t (last_of n ns) =
      tick_all-tick t n ns h (omega arith, up.1) in
    let s : State = record { active = some a; timers = after } in
    (
      record {
        state = record s { timers = gap_timers s (sub_ℕ to from) to (some a) };
        hidden_at = none;
      },
      apply_hidden_gap (tick t (last_of n ns)) (sub_ℕ to from) (some to),
      rw ticked,
      gap-get s a (tick t (last_of n ns)) (sub_ℕ to from) to nz (found ∙ ap some settled),
      counted_gap t (last_of n ns) from to h le (omega (arith, last_of-ge n ns up.1)) ends,
    )
