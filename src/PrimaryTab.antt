-- ===== src/PrimaryTab.antt =====
-- frontend/src/lib/primaryTab.js: the election of one tab among those that are open. Ids are numbers
-- that stand for their random texts in the order of `sort`. The call of `onChange` is the second part
-- of a handler's result; the tab's own id, which `beat` posts on the channel, is left out.
pub mod Election
mod Tests
use task_manger_project.Common.{
  ℕ, Bool, true, not, Option, none, some, [], ltb, leb, Dict, put, ◌-◌, ◌&&◌, ◌∷◌, ◌==◌, ◌or◌,
  if◌then◌else◌,
}

-- A tab with a channel, and the times at which it has heard of the tabs.
pub record Tab : Type 0 where
  pub id : ℕ
  pub peers : Dict ℕ
  pub primary : ℕ

unfoldable pub new_tab : ℕ → ℕ → Tab
new_tab id now = record { id = id; peers = (id, now) ∷ []; primary = id }

-- `pid !== id && now - ts > 1500`
abbrev pub is_expired : ℕ → ℕ → ℕ → ℕ → Bool
is_expired id now pid ts = not (pid == id) && ltb 1500 (now - ts)

unfoldable pub drop_expired : ℕ → ℕ → Dict ℕ → Dict ℕ
drop_expired id now [] = []
drop_expired id now ((pid, ts) ∷ d) =
    let rest = drop_expired id now d in if is_expired id now pid ts then rest else (pid, ts) ∷ rest

abbrev pub min : ℕ → ℕ → ℕ
min a b = if leb a b then a else b

-- `[...peers.keys()].sort()[0]`
unfoldable pub first_key : Dict ℕ → Option ℕ
first_key [] = none
first_key ((pid, ts) ∷ d) = some (elim (first_key d) [ none ↦ pid | some k ↦ min pid k ])

abbrev pub differs : Option ℕ → ℕ → Bool
differs none primary = true
differs (some k) primary = not (k == primary)

-- The tab, and what `onChange` is given if it is called. The tab's own entry is always there, so
-- there is a first key.
unfoldable pub recompute : Tab → ℕ → Tab × Option Bool
unfolding drop_expired first_key
recompute t now =
    let peers = drop_expired t.id now t.peers in
    let next = first_key peers in
    let primary = next or t.primary in
    (
      record t { peers = peers; primary = primary },
      if differs next t.primary then some (primary == t.id) else none,
    )

-- `channel.onmessage`, for a message with an id.
unfoldable pub on_message : Tab → ℕ → ℕ → Tab × Option Bool
unfolding recompute
on_message t pid now = recompute (record t { peers = put pid now t.peers }) now

-- The interval's callback, which also posts the tab's id.
unfoldable pub beat : Tab → ℕ → Tab × Option Bool
unfolding recompute
beat t now = recompute (record t { peers = put t.id now t.peers }) now

unfoldable pub is_primary : Tab → Bool
is_primary t = t.primary == t.id
