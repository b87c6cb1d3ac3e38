-- ===== src/Ipc/Client.antt =====
-- frontend/src/api/daemonIpc.js: the client of the channel as a state and its handlers. The socket is
-- seen through its `readyState`; what `ws.send` was given is kept in `sent`, and what `onMessage` was
-- given in `delivered`. A timer that waits is its delay. `_open` is told whether the constructor of
-- the WebSocket throws.
pub mod Queue
pub mod Reconnect
pub mod Backoff
use task_manger_project.Common.{
  ℕ, zero, suc, Bool, true, false, not, Option, none, some, List, [], ltb, length, ◌+◌, ◌&&◌, ◌||◌,
  ◌∷◌, ◌++◌, ◌==◌, if◌then◌else◌,
}
use task_manger_project.Ipc.Protocol.{Decoded, frame, heartbeat, trigger_event}

-- `readyState`
pub data Socket : Type 0 where
  connecting is_open closing : Socket

-- Frames are of type `F`, payloads of type `P`.
pub record Client (F P : Type 0) : Type 0 where
  pub max_queue : ℕ
  pub ws : Option Socket
  pub connected : Bool
  pub queue : List F
  pub attempt : ℕ
  pub stopped : Bool
  pub timer : Option ℕ
  pub sent : List F
  pub delivered : List (ℕ × P)

abbrev pub socket_open : Option Socket → Bool
socket_open (some is_open) = true
socket_open _ = false

-- `shift` drops the oldest.
abbrev pub shift {ℓ} : {A : Type ℓ} → List A → List A
shift [] = []
shift (f ∷ fs) = fs

abbrev pub capped {ℓ} : {A : Type ℓ} → ℕ → List A → List A
capped max_queue queue = if ltb max_queue (length queue) then shift queue else queue

-- BACKOFF_MS, then 5 s.
unfoldable pub backoff_delay : ℕ → ℕ
backoff_delay zero = 100
backoff_delay (suc zero) = 200
backoff_delay (suc (suc zero)) = 400
backoff_delay (suc (suc (suc zero))) = 800
backoff_delay (suc (suc (suc (suc zero)))) = 1600
backoff_delay _ = 5000

abbrev pub is_some : Option Socket → Bool
is_some none = false
is_some (some s) = true

-- `readyState` once the socket has opened, or is being closed.
abbrev pub opened : Option Socket → Option Socket
opened (some connecting) = some is_open
opened ws = ws

abbrev pub closed : Option Socket → Option Socket
closed none = none
closed (some s) = some closing

module _ {F P : Type 0} where
  -- The constructor.
  unfoldable pub new_client : ℕ → Client F P
  new_client max_queue = record {
    max_queue = max_queue;
    ws = none;
    connected = false;
    queue = [];
    attempt = 0;
    stopped = false;
    timer = none;
    sent = [];
    delivered = [];
  }

  unfoldable pub send_frame : Client F P → F → Client F P × Bool
  send_frame c f =
      if c.connected && socket_open c.ws
      then (record c { sent = c.sent ++ f ∷ [] }, true)
      else (record c { queue = capped c.max_queue (c.queue ++ f ∷ []) }, false)

  unfoldable pub send_all : Client F P → List F → Client F P
  unfolding send_frame
  send_all c [] = c
  send_all c (f ∷ fs) = send_all (send_frame c f).0 fs

  unfoldable pub flush : Client F P → Client F P
  unfolding send_all
  flush c = send_all (record c { queue = [] }) c.queue

  unfoldable pub schedule_reconnect : Client F P → Client F P
  unfolding backoff_delay
  schedule_reconnect c =
      if c.stopped
      then c
      else record c { timer = some (backoff_delay c.attempt); attempt = c.attempt + 1 }

  -- `_open`; the fired timer is gone.
  unfoldable pub open_socket : Client F P → Bool → Client F P
  unfolding schedule_reconnect
  open_socket c throws = if throws then schedule_reconnect c else record c { ws = some connecting }

  unfoldable pub on_timer : Client F P → Bool → Client F P
  unfolding open_socket
  on_timer c throws = open_socket (record c { timer = none }) throws

  unfoldable pub connect : Client F P → Bool → Client F P
  unfolding open_socket
  connect c throws =
      if is_some c.ws || (not c.stopped && c.connected)
      then c
      else open_socket (record c { stopped = false }) throws

  unfoldable pub stop : Client F P → Client F P
  stop c = record c { stopped = true; timer = none; ws = none; connected = false }

  -- `onopen`: the socket is open by then, and the flag tells whether it is the one in `ws`.
  unfoldable pub on_open : Client F P → Bool → Client F P
  unfolding flush
  on_open c own =
      flush (record c { ws = if own then opened c.ws else c.ws; connected = true; attempt = 0 })

  -- `onerror` closes its socket.
  unfoldable pub on_error : Client F P → Bool → Client F P
  on_error c own = if own then record c { ws = closed c.ws } else c

  unfoldable pub on_close : Client F P → Client F P
  unfolding schedule_reconnect
  on_close c = schedule_reconnect (record c { connected = false; ws = none })

  -- The frames of the two acknowledgements: that of a heartbeat, and that of a trigger's payload.
  module _ (heartbeat_frame : F) (trigger_frame : P → F) where
    unfoldable pub handle : Client F P → ℕ → P → Client F P
    unfolding send_frame
    handle c type payload =
        let deliver =
          λ (d : Client F P). record d { delivered = d.delivered ++ (type, payload) ∷ [] } in
        if type == heartbeat
        then (send_frame c heartbeat_frame).0
        else if type == trigger_event
        then deliver (send_frame c (trigger_frame payload)).0
        else deliver c

    -- A message that `decodeFrame` refuses is dropped.
    unfoldable pub receive : Client F P → Decoded P → Client F P
    unfolding handle
    receive c (frame type payload) = handle c type payload
    receive c _ = c
