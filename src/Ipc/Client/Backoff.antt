-- ===== src/Ipc/Client/Backoff.antt =====
-- daemonIpc.js: the delays between attempts, the end of the attempts, and what a message causes.
use task_manger_project.Common.{
  ℕ, zero, suc, refl, sym, ap, inl, inr, Bool, true, false, none, some, List, [], arith, Bool-cases,
  All, ◌+◌, ◌≡◌, ◌∙◌, ◌∷◌, ◌++◌, ◌==◌, if◌then◌else◌,
}
use task_manger_project.Ipc.Protocol.{
  Decoded, frame, short, bad_magic, truncated, bad_json, heartbeat, trigger_event,
}
use task_manger_project.Ipc.Client.{
  Client, on_error, is_open, connecting, send_frame, on_open, on_close, stop, connect, on_timer,
  open_socket, schedule_reconnect, receive, handle, backoff_delay,
}
use mathlib.Core.List.{append-nil}
use task_manger_project.Ipc.Client.Queue.{can_send, on_open_state}
use task_manger_project.Ipc.Client.Reconnect.{
  Call, errors, stops, closes, sends, gets, apply, apply_all,
}

module _ {F P : Type 0} where
  -- `n` times the timer fires and the constructor of the socket throws.
  unfoldable pub failures : ℕ → Client F P → Client F P
  unfolding on_timer open_socket schedule_reconnect
  failures zero c = c
  failures (suc n) c = failures n (on_timer c true)

  failed_once :
      (c : Client F P)
      → c.stopped ≡ false
      → on_timer c true
        ≡ record c { timer = some (backoff_delay c.attempt); attempt = c.attempt + 1 }
  unfolding on_timer open_socket schedule_reconnect
  failed_once c h = rw h refl

  delay_from :
      (c : Client F P) (n : ℕ)
      → c.stopped ≡ false
      → (failures (suc n) c).timer ≡ some (backoff_delay (c.attempt + n))
  unfolding failures
  delay_from c zero h =
      ap (λ d. d.timer) (failed_once c h) ∙ ap (λ k. some (backoff_delay k)) (omega arith)
  delay_from c (suc n) h =
      let failed = record c { timer = some (backoff_delay c.attempt); attempt = c.attempt + 1 } in
      ap (λ d. (failures (suc n) d).timer) (failed_once c h)
      ∙ delay_from failed n h
      ∙ ap (λ k. some (backoff_delay k)) (omega arith)

  lost : Client F P → Client F P
  lost c = record c {
    ws = none;
    connected = false;
    attempt = 1;
    timer = some (backoff_delay 0);
    queue = [];
    sent = c.sent ++ c.queue;
  }

  on_close_state :
      (c : Client F P)
      → c.stopped ≡ false
      → c.ws ≡ some connecting
      → on_close (on_open c true) ≡ lost c
  unfolding lost on_close schedule_reconnect
  on_close_state c h k = ap on_close (on_open_state c k) ∙ rw h refl

  -- After a connection that has opened is lost, and `n` attempts in a row fail at once, a client that
  -- is not stopped waits for the delay at the index `n`.
  pub delay_after :
      (c : Client F P) (n : ℕ)
      → c.stopped ≡ false
      → c.ws ≡ some connecting
      → (failures n (on_close (on_open c true))).timer ≡ some (backoff_delay n)
  unfolding lost
  delay_after c zero h k = unfold failures in ap (λ d. d.timer) (on_close_state c h k)
  delay_after c (suc n) h k =
      ap (λ d. (failures (suc n) d).timer) (on_close_state c h k)
      ∙ delay_from (lost c) n h
      ∙ ap (λ k. some (backoff_delay k)) (omega arith)

  -- What the page and an old socket can still cause: everything but `connect` and `onopen`.
  pub data IsLate : Call F P → Type 0 where
    closes_late : IsLate closes
    errors_late : (own : Bool) → IsLate (errors own)
    stops_late : IsLate stops
    sends_late : (f : F) → IsLate (sends f)
    gets_late : (d : Decoded P) → IsLate (gets d)

  -- Stopped, with no socket and no timer that would open one.
  pub IsDown : Client F P → Type 0
  IsDown c = (c.stopped ≡ true) × (c.timer ≡ none) × (c.ws ≡ none) × (c.connected ≡ false)

  send_frame-IsDown : (c : Client F P) (f : F) → IsDown c → IsDown (send_frame c f).0
  unfolding IsDown send_frame
  send_frame-IsDown c f h = ground arith

  stop-IsDown : (c : Client F P) → IsDown (stop c)
  unfolding IsDown stop
  stop-IsDown c = (refl, refl, refl, refl)

  module _ (heartbeat_frame : F) (trigger_frame : P → F) where
    receive-IsDown :
        (c : Client F P) (d : Decoded P)
        → IsDown c
        → IsDown (receive heartbeat_frame trigger_frame c d)
    unfolding receive handle IsDown
    receive-IsDown c (frame type payload) h = ground (
      arith,
      send_frame-IsDown c heartbeat_frame h,
      send_frame-IsDown c (trigger_frame payload) h,
    )
    receive-IsDown c short h = h
    receive-IsDown c bad_magic h = h
    receive-IsDown c truncated h = h
    receive-IsDown c bad_json h = h

    late-IsDown :
        (c : Client F P) (k : Call F P)
        → IsLate k
        → IsDown c
        → IsDown (apply heartbeat_frame trigger_frame c k)
    unfolding apply
    late-IsDown c k closes_late h = unfold IsDown on_close schedule_reconnect in ground arith
    late-IsDown c k (errors_late own) h = unfold IsDown on_error in ground arith
    late-IsDown c k stops_late h = stop-IsDown c
    late-IsDown c k (sends_late f) h = send_frame-IsDown c f h
    late-IsDown c k (gets_late d) h = receive-IsDown c d h

    late_calls-IsDown :
        (c : Client F P) (ks : List (Call F P))
        → All IsLate ks
        → IsDown c
        → IsDown (apply_all heartbeat_frame trigger_frame c ks)
    unfolding apply_all
    late_calls-IsDown c [] late h = h
    late_calls-IsDown c (k ∷ ks) late h =
        late_calls-IsDown (apply heartbeat_frame trigger_frame c k) ks late.1
          (late-IsDown c k late.0 h)

    -- After `stop` no close event, error, message, frame to send or further `stop`, however many there are,
    -- sets up a timer or a socket again.
    pub stopped_for_good :
        (c : Client F P) (ks : List (Call F P))
        → All IsLate ks
        → IsDown (apply_all heartbeat_frame trigger_frame (stop c) ks)
    stopped_for_good c ks late = late_calls-IsDown (stop c) ks late (stop-IsDown c)

    -- What a message does: a heartbeat is not handed on, every other message is handed on once; and
    -- when the connection is open the answer sent is that of a heartbeat, that of a trigger, or none.
    pub receive_frame :
        (c : Client F P) (type : ℕ) (payload : P)
        → can_send c ≡ true
        → ((receive heartbeat_frame trigger_frame c (frame type payload)).delivered
            ≡ c.delivered ++ (if type == heartbeat then [] else (type, payload) ∷ []))
          × ((receive heartbeat_frame trigger_frame c (frame type payload)).sent
              ≡ c.sent
                ++ (if type == heartbeat
                    then heartbeat_frame ∷ []
                    else if type == trigger_event
                    then trigger_frame payload ∷ []
                    else []))
    unfolding receive handle send_frame
    receive_frame c type payload h = elim (Bool-cases (type == heartbeat)) [
      | inl beat ↦ rw (beat, h) (sym (append-nil c.delivered), refl)
      | inr other ↦ elim (Bool-cases (type == trigger_event)) [
        | inl trigger ↦ rw (other, trigger, h) (refl, refl)
        | inr plain ↦ rw (other, plain) (refl, sym (append-nil c.sent))
      ]
    ]

  -- When there is no socket, `connect` does not clear a reconnect timer that waits, and when the
  -- timer fires a further socket takes the place of the one that has opened.
  pub connect_twice :
      (c : Client F P) (delay : ℕ)
      → c.ws ≡ none
      → c.connected ≡ false
      → c.timer ≡ some delay
      → ((on_open (connect c false) true).ws ≡ some is_open)
        × ((on_open (connect c false) true).timer ≡ some delay)
        × ((on_timer (on_open (connect c false) true) false).ws ≡ some connecting)
  unfolding connect open_socket on_timer
  connect_twice c delay h k t =
      let begun : (connect c false).ws ≡ some connecting = ground arith in
      let opened = on_open_state (connect c false) begun in
      let kept : (connect c false).timer ≡ some delay = ground arith in
      (ap (λ d. d.ws) opened, ap (λ d. d.timer) opened ∙ kept, refl)
