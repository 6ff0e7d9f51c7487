-- ===== src/Can/RxTask/Order.antt =====
-- The way of a received frame, from the driver's interrupt over the queue to the task that decodes it.
use mathlib.Core.List.{append-nil, append_assoc}
use meb_commander.Base.{
  map, ℕ, suc, ◌+◌, ◌%◌, ◌^◌, ◌≡◌, refl, sym, ap, ◌∙◌, Bool, true, false, List, [], ◌∷◌, ◌++◌,
  Option, none, some, arith, if◌then◌else◌, inl, inr, Bool-cases, Option-cases, get_or,
}
use meb_commander.State.{AppState}
use meb_commander.Can.{
  Can, Driver, Header, TxSlot, RxMessage, frame_payload_len, rx_done_callback, transmit_fd_frame,
  transmit_slot, alloc_tx_slot, empty_slot, process_rx_message,
}
use meb_commander.Can.Report.{
  ErrorStates, NodeStatus, Reported, report_errors, report_overflow, report_isr_diagnostics,
}
use meb_commander.Can.RxTask.{Reporter, rx_round, report_if_due, process_received}

abbrev as_list : Option RxMessage → List RxMessage
as_list none = []
as_list (some m) = m ∷ []

-- The messages that the task handles, each with the time at which it does.
abbrev at_time : ℕ → Option RxMessage → List (RxMessage × ℕ)
at_time now none = []
at_time now (some m) = (m, now) ∷ []

abbrev pub messages : List (RxMessage × ℕ) → List RxMessage
messages [] = []
messages ((m, now) ∷ handled) = m ∷ messages handled

-- Messages decoded one after another.
abbrev pub decode_all : List (RxMessage × ℕ) → AppState → AppState
decode_all [] s = s
decode_all ((m, now) ∷ handled) s = decode_all handled (process_rx_message m now s).0

messages-append : (xs ys : List (RxMessage × ℕ)) → messages (xs ++ ys) ≡ messages xs ++ messages ys
messages-append [] ys = refl
messages-append ((m, now) ∷ xs) ys = ap (λ t. m ∷ t) (messages-append xs ys)

decode_all-append :
    (xs ys : List (RxMessage × ℕ)) (s : AppState)
    → decode_all (xs ++ ys) s ≡ decode_all ys (decode_all xs s)
decode_all-append [] ys s = refl
decode_all-append ((m, now) ∷ xs) ys s = decode_all-append xs ys (process_rx_message m now s).0

messages-at_time : (now : ℕ) (m : Option RxMessage) → messages (at_time now m) ≡ as_list m
messages-at_time now none = refl
messages-at_time now (some m) = refl

decode_all-at_time :
    (now : ℕ) (m : Option RxMessage) (s : AppState)
    → (process_received m now s).0 ≡ decode_all (at_time now m) s
unfolding process_received
decode_all-at_time now none s = refl
decode_all-at_time now (some m) s = refl

module _ (D : Driver) where
  open D use {World}

  -- The messages in the queue of FreeRTOS, first in first out.
  pub record Fifo : Type 1 where
    pub contents : World → List RxMessage
    pub received : (w : World) → contents (D.receive_from_isr w).1 ≡ contents w
    pub sent :
        (m : RxMessage) (w : World)
        → let (took, w') = D.queue_send m w in
          contents w' ≡ (if took then contents w ++ (m ∷ []) else contents w)
    pub taken :
        (w : World) → contents w ≡ as_list (D.queue_receive w).0 ++ contents (D.queue_receive w).1
    pub transmitted :
        (i wait : ℕ) (s : TxSlot) (w : World) → contents (D.transmit i s wait w).1 ≡ contents w

  -- What happens on the bus: the interrupt for a frame, a round of the receiving task, and a
  -- transmission by another task.
  pub data Step : Type 0 where
    frame_done : Step
    round : ℕ → ℕ → Option NodeStatus → Step
    transmission : ℕ → List ℕ → List ℕ → Step

  pub record Bus : Type 0 where
    pub app : AppState
    pub can : Can
    pub reporter : Reporter
    pub world : World

  -- The message that `rx_done_callback` makes of what the driver hands it.
  abbrev pub message_of : Option (Header × List ℕ) → List RxMessage
  message_of none = []
  message_of (some (header, bytes)) =
      record { header = header; bytes = bytes; len = frame_payload_len D header } ∷ []

-- The messages that the queue took, and the number of those that it did not.
abbrev pub accepted : List (RxMessage × Bool) → List RxMessage
accepted [] = []
accepted ((m, taken) ∷ arrivals) = if taken then m ∷ accepted arrivals else accepted arrivals

abbrev pub refused : List (RxMessage × Bool) → ℕ
refused [] = 0
refused ((m, taken) ∷ arrivals) = if taken then refused arrivals else suc (refused arrivals)

-- A report leaves the count of the frames that the queue refused.
report_errors-overflow_count :
    (S : ErrorStates) (status : Option NodeStatus) (c : Can) (r : Reported)
    → (report_errors S status c r).1.rx_queue_overflow_count ≡ c.rx_queue_overflow_count
unfolding report_errors
report_errors-overflow_count S status c r = ground arith

report_if_due-overflow_count :
    (S : ErrorStates) (period now : ℕ) (status : Option NodeStatus) (c : Can) (r : Reporter)
    → (report_if_due S period now status c r).1.rx_queue_overflow_count ≡ c.rx_queue_overflow_count
unfolding report_if_due report_isr_diagnostics
report_if_due-overflow_count S period now status c r =
    ground (arith, report_errors-overflow_count S status c (report_overflow S c r.reported).1)

module _ (D : Driver) (S : ErrorStates) (period : ℕ) where
  -- What a step does, with the messages made of the frames that arrive, each with whether the queue
  -- takes it, and the messages that the task handles.
  unfoldable pub step : Step D → Bus D → List (RxMessage × Bool) × List (RxMessage × ℕ) × Bus D
  unfolding rx_done_callback rx_round transmit_fd_frame
  step frame_done b =
      let (found, w) = D.receive_from_isr b.world in
      let (c, w') = rx_done_callback D b.world b.can in
      (
        map (λ m. (m, (D.queue_send m w).0)) (message_of D found),
        [],
        record b { can = c; world = w' },
      )
  step (round now_us now status) b =
      let (found, app, events, c, r, w) =
        rx_round D S period now_us now status b.app b.can b.reporter b.world in
      ([], at_time now_us found, record { app = app; can = c; reporter = r; world = w })
  step (transmission id bytes name) b =
      let (e, events, c, w) = transmit_fd_frame D id bytes name b.can b.world in
      ([], [], record b { can = c; world = w })

  unfoldable pub run :
      List (Step D) → Bus D → List (RxMessage × Bool) × List (RxMessage × ℕ) × Bus D
  unfolding step
  run [] b = ([], [], b)
  run (s ∷ steps) b =
      let (arrivals, handled, b') = step s b in
      let (arrivals', handled', b'') = run steps b' in
      (arrivals ++ arrivals', handled ++ handled', b'')

  module _ (W : Fifo D) where
    -- What a step and a run keep.
    abbrev Conserves : Bus D → List (RxMessage × Bool) × List (RxMessage × ℕ) × Bus D → Type 0
    Conserves b (arrivals, handled, b') =
        (W.contents b.world ++ accepted arrivals ≡ messages handled ++ W.contents b'.world)
        × (b'.app ≡ decode_all handled b.app)
        × (b'.can.rx_queue_overflow_count % 2 ^ 32
            ≡ (b.can.rx_queue_overflow_count + refused arrivals) % 2 ^ 32)

    frame_done-Conserves : (b : Bus D) → Conserves b (step frame_done b)
    unfolding step rx_done_callback
    frame_done-Conserves b =
        let w = (D.receive_from_isr b.world).1 in
        let kept = W.received b.world in
        let nil = append-nil (W.contents b.world) in
        elim (Option-cases (D.receive_from_isr b.world).0) [
          | inl nothing ↦ ground (arith, nothing, kept, nil)
          | inr ((header, bytes), found) ↦
              let m : RxMessage = record {
                header = header;
                bytes = bytes;
                len = frame_payload_len D header;
              } in
              elim (Bool-cases (D.queue_send m w).0) [
                | inl taken ↦ ground (arith, found, taken, kept, nil, W.sent m w)
                | inr full ↦ ground (arith, found, full, kept, nil, W.sent m w)
              ]
        ]

    transmission-Conserves :
        (id : ℕ) (bytes name : List ℕ) (b : Bus D)
        → Conserves b (step (transmission id bytes name) b)
    unfolding step transmit_fd_frame transmit_slot
    transmission-Conserves id bytes name b =
        let nil = append-nil (W.contents b.world) in
        let (slot, slots) = alloc_tx_slot D id (some bytes) 8 b.can.tx_slots in
        elim (Option-cases slot) [
          | inl none_free ↦ ground (arith, none_free, nil)
          | inr (i, free) ↦
              ground (arith, free, nil, W.transmitted i 500 (get_or slots i empty_slot) b.world)
        ]

    round-Conserves :
        (now_us now : ℕ) (status : Option NodeStatus) (b : Bus D)
        → Conserves b (step (round now_us now status) b)
    unfolding step rx_round
    round-Conserves now_us now status b = ground (
      arith,
      append-nil (W.contents b.world),
      W.taken b.world,
      messages-at_time now_us (D.queue_receive b.world).0,
      decode_all-at_time now_us (D.queue_receive b.world).0 b.app,
      report_if_due-overflow_count S period now status b.can b.reporter,
    )

    step-Conserves : (s : Step D) (b : Bus D) → Conserves b (step s b)
    step-Conserves frame_done b = frame_done-Conserves b
    step-Conserves (round now_us now status) b = round-Conserves now_us now status b
    step-Conserves (transmission id bytes name) b = transmission-Conserves id bytes name b

    accepted-append :
        (xs ys : List (RxMessage × Bool)) → accepted (xs ++ ys) ≡ accepted xs ++ accepted ys
    accepted-append [] ys = refl
    accepted-append ((m, true) ∷ xs) ys = ap (λ t. m ∷ t) (accepted-append xs ys)
    accepted-append ((m, false) ∷ xs) ys = accepted-append xs ys

    refused-append :
        (xs ys : List (RxMessage × Bool)) → refused (xs ++ ys) ≡ refused xs + refused ys
    refused-append [] ys = omega arith
    refused-append ((m, true) ∷ xs) ys = refused-append xs ys
    refused-append ((m, false) ∷ xs) ys = omega (arith, refused-append xs ys)

    -- In whatever order frames arrive, the receiving task runs and other tasks transmit, the task
    -- handles the messages that the queue took, in the order of their arrival and each once, the rest
    -- of them being in the queue; the shared state is what decoding those it handled, one after another
    -- at the time of each, makes of the first one; and the overflow counter has grown by the number of
    -- the others, modulo 2 ^ 32; under the stated laws of the queue.
    pub run-Conserves :
        (steps : List (Step D)) (b : Bus D)
        → let (arrivals, handled, b') = run steps b in
          (W.contents b.world ++ accepted arrivals ≡ messages handled ++ W.contents b'.world)
          × (b'.app ≡ decode_all handled b.app)
          × (b'.can.rx_queue_overflow_count % 2 ^ 32
              ≡ (b.can.rx_queue_overflow_count + refused arrivals) % 2 ^ 32)
    unfolding run
    run-Conserves [] b = (append-nil (W.contents b.world), refl, ground arith)
    run-Conserves (s ∷ steps) b =
        let (arrivals, handled, b') = step s b in
        let (arrivals', handled', b'') = run steps b' in
        let (order, decoded, count) = step-Conserves s b in
        let (order', decoded', count') = run-Conserves steps b' in
        (
          ap (λ t. W.contents b.world ++ t) (accepted-append arrivals arrivals')
              ∙ sym (append_assoc (W.contents b.world) (accepted arrivals) (accepted arrivals'))
              ∙ ap (λ t. t ++ accepted arrivals') order
              ∙ append_assoc (messages handled) (W.contents b'.world) (accepted arrivals')
              ∙ ap (λ t. messages handled ++ t) order'
              ∙ sym (append_assoc (messages handled) (messages handled') (W.contents b''.world))
              ∙ ap (λ t. t ++ W.contents b''.world) (sym (messages-append handled handled')),
          decoded'
              ∙ ap (λ s. decode_all handled' s) decoded
              ∙ sym (decode_all-append handled handled' b.app),
          omega (arith, count, count', refused-append arrivals arrivals'),
        )
