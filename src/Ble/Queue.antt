-- ===== src/Ble/Queue.antt =====
-- What the commands that clients write put into the queue of main/ble_console.c.
use mathlib.Core.List.{append_assoc, append-nil}
use meb_commander.Base.{
  ℕ, ◌+◌, ◌≡◌, ◌<◌, ◌≤◌, refl, ap, ◌∙◌, sym, true, false, List, [], ◌∷◌, ◌++◌, map, length, take,
  take-length, length-append, arith, All, if-elim, ◌==◌,
}
use meb_commander.Lines.{c_string, lines, complete_all, IsLine}
use meb_commander.Ble.Rx.{
  Inbox, Queued, queue_line, drop_line, gatt_writes, gatt_writes-lines, IsPacket, concat,
  cmd_rx_buf_size,
}

-- BLE_CMD_QUEUE_DEPTH
abbrev pub cmd_queue_depth : ℕ
cmd_queue_depth = 8

length-c_string : (text : List ℕ) → length (c_string text) ≤ length text
unfolding c_string
length-c_string [] = omega arith
length-c_string (c ∷ text) =
    if-elim (λ (t : List ℕ). length t ≤ length (c ∷ text)) (c == 0) (λ e. omega arith)
      (λ e. omega (arith, length-c_string text))

-- No byte is the one that ends a C string.
abbrev pub HasNoZero : List ℕ → Type 0
HasNoZero text = All (λ (c : ℕ). (c == 0) ≡ false) text

c_string-HasNoZero : (text : List ℕ) → HasNoZero text → c_string text ≡ text
unfolding c_string
c_string-HasNoZero [] h = refl
c_string-HasNoZero (c ∷ text) (h, hs) = ground (arith, h, c_string-HasNoZero text hs)

-- The commands of the lines.
abbrev pub commands : List (List ℕ) → List (List ℕ)
commands texts = map (λ text. c_string (b'{' ∷ text)) texts

commands-HasNoZero :
    (texts : List (List ℕ)) → All HasNoZero texts → commands texts ≡ map (λ text. b'{' ∷ text) texts
unfolding c_string
commands-HasNoZero [] h = refl
commands-HasNoZero (text ∷ texts) (h, hs) =
    ap (λ (t : List ℕ). (b'{' ∷ t) ∷ commands texts) (c_string-HasNoZero text h)
    ∙ ap (λ (t : List (List ℕ)). (b'{' ∷ text) ∷ t) (commands-HasNoZero texts hs)

module _ (I : Inbox) where
  -- The queue of FreeRTOS, first in first out: it was created, and takes a line where fewer than its
  -- depth wait in it.
  pub record Fifo : Type 1 where
    pub contents : I.World → List (List ℕ)
    pub made : I.created ≡ true
    pub sent :
        (line : List ℕ) (w : I.World)
        → length (contents w) < cmd_queue_depth
        → (I.queue_send line w).0 ≡ true
    pub appended :
        (line : List ℕ) (w : I.World)
        → (I.queue_send line w).0 ≡ true
        → contents (I.queue_send line w).1 ≡ contents w ++ (line ∷ [])

module _ (I : Inbox) (R : Fifo I) where
  queue_line-sent :
      (text : List ℕ) (q : Queued I)
      → 1 + length text < cmd_rx_buf_size
      → length (R.contents q.world) < cmd_queue_depth
      → queue_line I (b'{' ∷ text) q
        ≡ record q { world = (I.queue_send (c_string (b'{' ∷ text)) q.world).1 }
  unfolding queue_line
  queue_line-sent text q h room =
      let line = c_string (b'{' ∷ text) in
      let whole : take 1023 line ≡ line =
        take-length 1023 line (omega (arith, length-c_string (b'{' ∷ text))) in
      ground (arith, R.made, R.sent line q.world room, whole)

  pub complete_all-contents :
      (texts : List (List ℕ)) (q : Queued I)
      → All (IsLine (queue_line I) (drop_line I) cmd_rx_buf_size) texts
      → length (R.contents q.world) + length texts ≤ cmd_queue_depth
      → let done = complete_all (queue_line I) (drop_line I) texts q in
        (R.contents done.world ≡ R.contents q.world ++ commands texts) × (done.events ≡ q.events)
  unfolding complete_all
  complete_all-contents [] q a room = (sym (append-nil (R.contents q.world)), refl)
  complete_all-contents (text ∷ texts) q ((inner, short), a) room =
      let line = c_string (b'{' ∷ text) in
      let next = queue_line I (b'{' ∷ text) q in
      let free : length (R.contents q.world) < cmd_queue_depth = omega (arith, room) in
      let same = queue_line-sent text q short free in
      let one : R.contents next.world ≡ R.contents q.world ++ (line ∷ []) =
        ap (λ (t : Queued I). R.contents t.world) same
        ∙ R.appended line q.world (R.sent line q.world free) in
      let longer : length (R.contents next.world) ≡ length (R.contents q.world) + 1 =
        ap (λ (t : List (List ℕ)). length t) one ∙ length-append (R.contents q.world) (line ∷ []) in
      let (rest, quiet) = complete_all-contents texts next a (omega (arith, room, longer)) in
      (
        rest
            ∙ ap (λ v. v ++ commands texts) one
            ∙ append_assoc (R.contents q.world) (line ∷ []) (commands texts),
        quiet ∙ ap (λ (t : Queued I). t.events) same,
      )

  -- Commands without a zero byte that fit a line come out of the packets that carry them into the
  -- queue each once, whole and in order, behind the lines that wait there, wherever the packets are cut;
  -- nothing of them stays behind and nothing is reported; where the queue has room for all of them and
  -- no line has been begun.
  pub gatt_writes-contents :
      (rx_handle tx_handle : ℕ) (oms texts : List (List ℕ)) (q : Queued I)
      → All (IsPacket I) oms
      → All (IsLine (queue_line I) (drop_line I) cmd_rx_buf_size) texts
      → All HasNoZero texts
      → concat I oms ≡ lines (queue_line I) (drop_line I) texts
      → length (R.contents q.world) + length texts ≤ cmd_queue_depth
      → let (line, q') = gatt_writes I rx_handle tx_handle oms ([], q) in
        (R.contents q'.world ≡ R.contents q.world ++ map (λ text. b'{' ∷ text) texts)
        × (line ≡ [])
        × (q'.events ≡ q.events)
  gatt_writes-contents rx_handle tx_handle oms texts q packets fit whole e room =
      let received = gatt_writes-lines I rx_handle tx_handle oms texts q packets fit e in
      let (queue, quiet) = complete_all-contents texts q fit room in
      (
        ap (λ (r : List ℕ × Queued I). R.contents r.1.world) received
            ∙ queue
            ∙ ap (λ (v : List (List ℕ)). R.contents q.world ++ v) (commands-HasNoZero texts whole),
        ap (λ (r : List ℕ × Queued I). r.0) received,
        ap (λ (r : List ℕ × Queued I). r.1.events) received ∙ quiet,
      )
