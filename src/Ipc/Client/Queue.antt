-- ===== src/Ipc/Client/Queue.antt =====
-- daemonIpc.js: what the outbound queue keeps.
use mathlib.Core.List.{append-nil, append_assoc}
use task_manger_project.Common.{
  ℕ, zero, suc, refl, sym, ap, inl, inr, Bool, true, false, some, List, [], arith, leb, Bool-cases,
  length, drop, length-append, ◌-◌, ◌≤◌, ◌≡◌, ◌∙◌, ◌&&◌, ◌∷◌, ◌++◌,
}
use task_manger_project.Ipc.Client.{
  Client, connecting, is_open, socket_open, capped, send_frame, send_all, on_open, flush,
}

-- The last `n` entries of a list.
pub newest {ℓ} : {A : Type ℓ} → ℕ → List A → List A
newest n xs = drop (length xs - n) xs

module _ {ℓ} {A : Type ℓ} where
  newest-all : (n : ℕ) (xs : List A) → length xs ≤ n → newest n xs ≡ xs
  unfolding newest
  newest-all n xs h =
      let none_over : length xs - n ≡ 0 = omega arith in ap (λ k. drop k xs) none_over

  newest-cons : (n : ℕ) (x : A) (xs : List A) → n ≤ length xs → newest n (x ∷ xs) ≡ newest n xs
  unfolding newest
  newest-cons n x xs h =
      let one_more : suc (length xs) - n ≡ suc (length xs - n) = omega arith in
      ap (λ k. drop k (x ∷ xs)) one_more

  capped-newest :
      (n : ℕ) (f : A) (xs : List A) → capped n (newest n xs ++ f ∷ []) ≡ newest n (xs ++ f ∷ [])
  capped-newest zero f [] = unfold newest in refl
  capped-newest (suc n) f [] = unfold newest in ground arith
  capped-newest n f (x ∷ xs) = elim (Bool-cases (leb n (length xs))) [
    | inl full ↦
        rw
          (
            newest-cons n x xs (ground arith),
            newest-cons n x (xs ++ f ∷ []) (ground (arith, length-append xs (f ∷ []))),
          )
          (capped-newest n f xs)
    | inr room ↦
        let short : length (x ∷ xs) ≤ n = ground arith in
        elim (Bool-cases (leb (suc n) (suc (length (xs ++ f ∷ []))))) [
          | inl over ↦
              let exact : n ≡ length (xs ++ f ∷ []) = ground (arith, length-append xs (f ∷ [])) in
              rw
                (
                  newest-all n (x ∷ xs) short,
                  newest-cons n x (xs ++ f ∷ []) (omega arith),
                  newest-all n (xs ++ f ∷ []) (omega arith),
                )
                (ground arith)
          | inr fits ↦
              rw (newest-all n (x ∷ xs) short, newest-all n (x ∷ (xs ++ f ∷ [])) (ground arith))
                (ground arith)
        ]
  ]

module _ {F P : Type 0} where
  abbrev pub can_send : Client F P → Bool
  can_send c = c.connected && socket_open c.ws

  send_open :
      (c : Client F P) (f : F)
      → can_send c ≡ true
      → (send_frame c f).0 ≡ record c { sent = c.sent ++ f ∷ [] }
  unfolding send_frame
  send_open c f h = rw h refl

  send_closed :
      (c : Client F P) (f : F)
      → can_send c ≡ false
      → (send_frame c f).0 ≡ record c { queue = capped c.max_queue (c.queue ++ f ∷ []) }
  unfolding send_frame
  send_closed c f h = rw h refl

  send_all_open :
      (c : Client F P) (fs : List F)
      → can_send c ≡ true
      → send_all c fs ≡ record c { sent = c.sent ++ fs }
  unfolding send_all
  send_all_open c [] h = λ i. record c { sent = sym (append-nil c.sent) i }
  send_all_open c (f ∷ fs) h =
      ap (λ (d : Client F P). send_all d fs) (send_open c f h)
      ∙ send_all_open (record c { sent = c.sent ++ f ∷ [] }) fs h
      ∙ (λ i. record c { sent = append_assoc c.sent (f ∷ []) fs i })

  send_all_closed :
      (c : Client F P) (told fs : List F)
      → can_send c ≡ false
      → c.queue ≡ newest c.max_queue told
      → send_all c fs ≡ record c { queue = newest c.max_queue (told ++ fs) }
  unfolding send_all
  send_all_closed c told [] h q =
      λ i. record c { queue = (q ∙ ap (newest c.max_queue) (sym (append-nil told))) i }
  send_all_closed c told (f ∷ fs) h q =
      let queue' = capped c.max_queue (c.queue ++ f ∷ []) in
      ap (λ (d : Client F P). send_all d fs) (send_closed c f h)
      ∙ send_all_closed (record c { queue = queue' }) (told ++ f ∷ []) fs h
          (ap (λ r. capped c.max_queue (r ++ f ∷ [])) q ∙ capped-newest c.max_queue f told)
      ∙ (λ i. record c { queue = newest c.max_queue (append_assoc told (f ∷ []) fs i) })

  -- While there is no open connection and the queue is within its bound, nothing is sent, and of
  -- the frames that waited and those that are given the queue keeps the newest, as many as
  -- `maxQueue`, in their order.
  pub queue-send_all :
      (c : Client F P) (fs : List F)
      → can_send c ≡ false
      → length c.queue ≤ c.max_queue
      → ((send_all c fs).queue ≡ newest c.max_queue (c.queue ++ fs))
        × ((send_all c fs).sent ≡ c.sent)
  queue-send_all c fs h fits =
      let all = send_all_closed c c.queue fs h (sym (newest-all c.max_queue c.queue fits)) in
      (ap (λ d. d.queue) all, ap (λ d. d.sent) all)

  pub on_open_state :
      (c : Client F P)
      → c.ws ≡ some connecting
      → on_open c true ≡ record c {
        ws = some is_open;
        connected = true;
        attempt = 0;
        queue = [];
        sent = c.sent ++ c.queue;
      }
  unfolding on_open flush
  on_open_state c h = rw h (
      send_all_open (record c { ws = some is_open; connected = true; attempt = 0; queue = [] })
        c.queue refl)

  -- When the connection of the client's socket opens, all frames that waited are sent behind those sent before, in the order
  -- in which they were given, none waits any more, and the delays start again from the first.
  pub on_open-flushes :
      (c : Client F P)
      → c.ws ≡ some connecting
      → ((on_open c true).sent ≡ c.sent ++ c.queue)
        × ((on_open c true).queue ≡ [])
        × ((on_open c true).attempt ≡ 0)
  on_open-flushes c h =
      let opened = on_open_state c h in
      (ap (λ d. d.sent) opened, ap (λ d. d.queue) opened, ap (λ d. d.attempt) opened)
