-- ===== src/Alarm/Sockets/Replay.antt =====
-- socketHandler.ts: a socket that connects gets what its user has missed.
use mathlib.Core.Path.{subst}
use task_manger_project.Common.{
  ℕ, suc, refl, sym, inl, inr, Bool, true, false, not, some, List, [], arith, Bool-cases, filter,
  any, All, ◌≡◌, ◌∙◌, ◌&&◌, ◌||◌, ◌∷◌, ◌++◌, ◌==◌, if◌then◌else◌,
}
use task_manger_project.Alarm.Order.{order_by, any-order_by}
use task_manger_project.Alarm.Sockets.{
  Alarm, Message, alarm_triggered, unread_count, Service, earlier, is_pending, pending_alarms,
  emit_unread_count, delivered, all_delivered, replayed, replay_pending_alarms, on_connection,
}

abbrev pub is_event : ℕ → Message → Bool
is_event id (alarm_triggered a) = a.alarm_id == id
is_event id (unread_count n) = false

-- What of all that was sent went to a socket.
unfoldable pub received : ℕ → List (ℕ × Message) → List Message
received socket [] = []
received socket ((k, m) ∷ rest) =
    let others = received socket rest in if k == socket then m ∷ others else others

abbrev pub got : ℕ → ℕ → List (ℕ × Message) → Bool
got id socket sent = any (is_event id) (received socket sent)

got-append :
    (id socket : ℕ) (xs ys : List (ℕ × Message))
    → got id socket (xs ++ ys) ≡ (got id socket xs || got id socket ys)
unfolding received
got-append id socket [] ys = refl
got-append id socket ((k, m) ∷ xs) ys = ground (arith, got-append id socket xs ys)

abbrev has_id : ℕ → Alarm → Bool
has_id id a = a.alarm_id == id

got-replayed :
    (deadline_of : ℕ → ℕ) (id socket : ℕ) (rows : List Alarm)
    → got id socket (replayed deadline_of socket rows) ≡ any (has_id id) rows
unfolding received replayed
got-replayed deadline_of id socket [] = refl
got-replayed deadline_of id socket (a ∷ xs) = ground (arith, got-replayed deadline_of id socket xs)

-- Every alarm of the user that waits is among the rows.
abbrev Covered : ℕ → List Alarm → List Alarm → Type 0
Covered user rows alarms =
    All (λ a. is_pending user a ≡ true → any (has_id a.alarm_id) rows ≡ true) alarms

Covered-weaken :
    (user : ℕ) (x : Alarm) (rows alarms : List Alarm)
    → Covered user rows alarms
    → Covered user (x ∷ rows) alarms
Covered-weaken user x rows [] h = tt
Covered-weaken user x rows (a ∷ xs) h =
    (λ p. ground (arith, h.0 p), Covered-weaken user x rows xs h.1)

Covered-filter :
    (user : ℕ) (alarms : List Alarm) → Covered user (filter (is_pending user) alarms) alarms
Covered-filter user [] = tt
Covered-filter user (a ∷ xs) = elim (Bool-cases (is_pending user a)) [
  | inl yes' ↦
      let rows = filter (is_pending user) xs in
      let same : filter (is_pending user) (a ∷ xs) ≡ a ∷ rows = rw yes' refl in
      subst (λ r. Covered user r (a ∷ xs)) (sym same)
        (λ p. ground arith, Covered-weaken user a rows xs (Covered-filter user xs))
  | inr no' ↦
      let same : filter (is_pending user) (a ∷ xs) ≡ filter (is_pending user) xs = rw no' refl in
      subst (λ r. Covered user r (a ∷ xs)) (sym same)
        (λ p. absurd (ground (arith, p, no')), Covered-filter user xs)
]

Covered-order :
    (user : ℕ) (rows alarms : List Alarm)
    → Covered user rows alarms
    → Covered user (order_by earlier rows) alarms
Covered-order user rows [] h = tt
Covered-order user rows (a ∷ xs) h =
    (λ p. any-order_by earlier (has_id a.alarm_id) rows ∙ h.0 p, Covered-order user rows xs h.1)

-- An update of some rows leaves an alarm waiting only if none of them is its own.
abbrev left_waiting : ℕ → List Alarm → Alarm → Bool
left_waiting user rows a = is_pending user a && not (any (has_id a.alarm_id) rows)

waiting-delivered :
    (user id : ℕ) (rows alarms : List Alarm)
    → any (left_waiting user rows) (delivered id alarms)
      ≡ any (λ a. left_waiting user rows a && not (a.alarm_id == id)) alarms
unfolding delivered
waiting-delivered user id rows [] = refl
waiting-delivered user id rows (a ∷ xs) = elim (Bool-cases (a.alarm_id == id)) [
  | inl same ↦ rw same (ground (arith, waiting-delivered user id rows xs, same))
  | inr other ↦ rw other (ground (arith, waiting-delivered user id rows xs, other))
]

any-same : (p q : Alarm → Bool) (xs : List Alarm) → ((a : Alarm) → p a ≡ q a) → any p xs ≡ any q xs
any-same p q [] h = refl
any-same p q (x ∷ xs) h = rw (h x, any-same p q xs h) refl

waiting-all_delivered :
    (user : ℕ) (rows alarms : List Alarm)
    → any (is_pending user) (all_delivered rows alarms) ≡ any (left_waiting user rows) alarms
unfolding all_delivered
waiting-all_delivered user [] alarms =
    any-same (is_pending user) (left_waiting user []) alarms (λ a. ground arith)
waiting-all_delivered user (r ∷ rs) alarms =
    waiting-all_delivered user rs (delivered r.alarm_id alarms)
    ∙ waiting-delivered user r.alarm_id rs alarms
    ∙ any-same _ (left_waiting user (r ∷ rs)) alarms (λ a. ground arith)

none_left :
    (user : ℕ) (rows alarms : List Alarm)
    → Covered user rows alarms
    → any (left_waiting user rows) alarms ≡ false
none_left user rows [] h = refl
none_left user rows (a ∷ xs) h = elim (Bool-cases (is_pending user a)) [
  | inl yes' ↦ rw (yes', h.0 yes') (none_left user rows xs h.1)
  | inr no' ↦ rw no' (none_left user rows xs h.1)
]

covered : (user : ℕ) (alarms : List Alarm) → Covered user (pending_alarms user alarms) alarms
unfolding pending_alarms
covered user alarms =
    Covered-order user (filter (is_pending user) alarms) alarms (Covered-filter user alarms)

-- Each alarm of the user that waits is among what the socket got.
abbrev AllGot : ℕ → ℕ → List Alarm → List (ℕ × Message) → Type 0
AllGot user socket alarms sent =
    All (λ a. is_pending user a ≡ true → got a.alarm_id socket sent ≡ true) alarms

all_got :
    (deadline_of : ℕ → ℕ) (user socket : ℕ) (rows alarms : List Alarm) (before : List (ℕ × Message))
    → Covered user rows alarms
    → AllGot user socket alarms (before ++ replayed deadline_of socket rows)
all_got deadline_of user socket rows [] before h = tt
all_got deadline_of user socket rows (a ∷ xs) before h = (
  λ p. ground (
    arith,
    got-append a.alarm_id socket before (replayed deadline_of socket rows),
    got-replayed deadline_of a.alarm_id socket rows,
    h.0 p,
  ),
  all_got deadline_of user socket rows xs before h.1,
)

got_more :
    (user socket : ℕ) (alarms : List Alarm) (sent more : List (ℕ × Message))
    → AllGot user socket alarms sent
    → AllGot user socket alarms (sent ++ more)
got_more user socket [] sent more h = tt
got_more user socket (a ∷ xs) sent more h = (
  λ p. ground (arith, got-append a.alarm_id socket sent more, h.0 p),
  got_more user socket xs sent more h.1,
)

-- When a user's socket connects and the alarms can be read, each alarm of the user that waits for
-- delivery is among the events that the socket gets; and if the update goes through too, then no
-- alarm of the user waits any more.
pub connect_delivers :
    (updates counts : Bool) (deadline_of : ℕ → ℕ) (socket user : ℕ) (s : Service)
    → let s' = on_connection true updates counts deadline_of socket (some (suc user)) s in
      All (λ a. is_pending (suc user) a ≡ true → got a.alarm_id socket s'.sent ≡ true) s.alarms
      × (updates ≡ true → any (is_pending (suc user)) s'.alarms ≡ false)
unfolding on_connection replay_pending_alarms emit_unread_count
connect_delivers true true deadline_of socket user s =
    let rows = pending_alarms (suc user) s.alarms in
    let first =
      all_got deadline_of (suc user) socket rows s.alarms s.sent (covered (suc user) s.alarms) in
    (
      got_more (suc user) socket s.alarms (s.sent ++ replayed deadline_of socket rows) _ first,
      λ e.
          waiting-all_delivered (suc user) rows s.alarms
          ∙ none_left (suc user) rows s.alarms (covered (suc user) s.alarms),
    )
connect_delivers true false deadline_of socket user s =
    let rows = pending_alarms (suc user) s.alarms in
    let first =
      all_got deadline_of (suc user) socket rows s.alarms s.sent (covered (suc user) s.alarms) in
    (
      first,
      λ e.
          waiting-all_delivered (suc user) rows s.alarms
          ∙ none_left (suc user) rows s.alarms (covered (suc user) s.alarms),
    )
connect_delivers false true deadline_of socket user s =
    let rows = pending_alarms (suc user) s.alarms in
    let first =
      all_got deadline_of (suc user) socket rows s.alarms s.sent (covered (suc user) s.alarms) in
    (
      got_more (suc user) socket s.alarms (s.sent ++ replayed deadline_of socket rows) _ first,
      λ e. absurd (cc),
    )
connect_delivers false false deadline_of socket user s =
    let rows = pending_alarms (suc user) s.alarms in
    let first =
      all_got deadline_of (suc user) socket rows s.alarms s.sent (covered (suc user) s.alarms) in
    (first, λ e. absurd (cc))
