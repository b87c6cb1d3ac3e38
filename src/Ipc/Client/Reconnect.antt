-- ===== src/Ipc/Client/Reconnect.antt =====
-- daemonIpc.js: the handlers as a sequence of calls, what holds after all of them, and when the
-- client tries again.
use task_manger_project.Common.{
  ℕ, Bool, false, none, List, [], arith, length, length-append, ◌≤◌, ◌∷◌, ◌++◌,
}
use task_manger_project.Ipc.Protocol.{Decoded, frame, short, bad_magic, truncated, bad_json}
use task_manger_project.Ipc.Client.{
  Client, capped, send_frame, send_all, flush, on_open, on_error, on_close, stop, connect, on_timer,
  open_socket, schedule_reconnect, receive, handle,
}

pub data Call (F P : Type 0) : Type 0 where
  connects fires : Bool → Call F P
  stops closes : Call F P
  opens errors : Bool → Call F P
  sends : F → Call F P
  gets : Decoded P → Call F P

module _ {F P : Type 0} (heartbeat_frame : F) (trigger_frame : P → F) where
  unfoldable pub apply : Client F P → Call F P → Client F P
  unfolding connect on_timer stop on_open on_error on_close send_frame receive
  apply c (connects throws) = connect c throws
  apply c (fires throws) = on_timer c throws
  apply c stops = stop c
  apply c (opens own) = on_open c own
  apply c (errors own) = on_error c own
  apply c closes = on_close c
  apply c (sends f) = (send_frame c f).0
  apply c (gets d) = receive heartbeat_frame trigger_frame c d

  unfoldable pub apply_all : Client F P → List (Call F P) → Client F P
  unfolding apply
  apply_all c [] = c
  apply_all c (k ∷ ks) = apply_all (apply c k) ks

capped-fits :
    {F : Type 0} (n : ℕ) (f : F) (xs : List F)
    → length xs ≤ n
    → length (capped n (xs ++ f ∷ [])) ≤ n
capped-fits n f [] h = ground arith
capped-fits n f (x ∷ xs) h = ground (arith, length-append xs (f ∷ []))

module _ {F P : Type 0} where
  -- At most `maxQueue` frames wait.
  unfoldable pub Fits : Client F P → Type 0
  Fits c = length c.queue ≤ c.max_queue

  send_frame-Fits : (c : Client F P) (f : F) → Fits c → Fits (send_frame c f).0
  unfolding send_frame Fits
  send_frame-Fits c f h = ground (arith, capped-fits c.max_queue f c.queue h)

  send_all-Fits : (c : Client F P) (fs : List F) → Fits c → Fits (send_all c fs)
  unfolding send_all
  send_all-Fits c [] h = h
  send_all-Fits c (f ∷ fs) h = send_all-Fits (send_frame c f).0 fs (send_frame-Fits c f h)

  on_open-Fits : (c : Client F P) (own : Bool) → Fits c → Fits (on_open c own)
  unfolding on_open flush
  on_open-Fits c own h = send_all-Fits _ c.queue (unfold Fits in omega arith)

  on_error-Fits : (c : Client F P) (own : Bool) → Fits c → Fits (on_error c own)
  unfolding on_error Fits
  on_error-Fits c own h = ground arith

  schedule-Fits : (c : Client F P) → Fits c → Fits (schedule_reconnect c)
  unfolding schedule_reconnect Fits
  schedule-Fits c h = ground arith

  open_socket-Fits : (c : Client F P) (b : Bool) → Fits c → Fits (open_socket c b)
  unfolding open_socket schedule_reconnect Fits
  open_socket-Fits c b h = ground arith

  connect-Fits : (c : Client F P) (b : Bool) → Fits c → Fits (connect c b)
  unfolding connect open_socket schedule_reconnect Fits
  connect-Fits c b h = ground arith

  module _ (heartbeat_frame : F) (trigger_frame : P → F) where
    receive-Fits :
        (c : Client F P) (d : Decoded P) → Fits c → Fits (receive heartbeat_frame trigger_frame c d)
    unfolding receive handle Fits
    receive-Fits c (frame type payload) h =
        ground
          (arith, send_frame-Fits c heartbeat_frame h, send_frame-Fits c (trigger_frame payload) h)
    receive-Fits c short h = h
    receive-Fits c bad_magic h = h
    receive-Fits c truncated h = h
    receive-Fits c bad_json h = h

    apply-Fits :
        (c : Client F P) (k : Call F P) → Fits c → Fits (apply heartbeat_frame trigger_frame c k)
    unfolding apply
    apply-Fits c (connects b) h = connect-Fits c b h
    apply-Fits c (fires b) h =
        unfold on_timer in open_socket-Fits (record c { timer = none }) b (unfold Fits in h)
    apply-Fits c stops h = unfold stop Fits in h
    apply-Fits c (opens own) h = on_open-Fits c own h
    apply-Fits c (errors own) h = on_error-Fits c own h
    apply-Fits c closes h =
        unfold on_close in
        schedule-Fits (record c { connected = false; ws = none }) (unfold Fits in h)
    apply-Fits c (sends f) h = send_frame-Fits c f h
    apply-Fits c (gets d) h = receive-Fits c d h

    -- Whatever is called, in whatever order, at most `maxQueue` frames wait if no more did before.
    pub apply_all-Fits :
        (c : Client F P) (ks : List (Call F P))
        → Fits c
        → Fits (apply_all heartbeat_frame trigger_frame c ks)
    unfolding apply_all
    apply_all-Fits c [] h = h
    apply_all-Fits c (k ∷ ks) h =
        apply_all-Fits (apply heartbeat_frame trigger_frame c k) ks (apply-Fits c k h)
