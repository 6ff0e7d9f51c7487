-- ===== src/Rpc/Consoles.antt =====
-- The two consoles: main/ble_console.c hands its lines over a queue to `command_task`, and
-- main/serial_console.c reads its own from the UART.
use meb_commander.Base.{
  ℕ, ◌≡◌, ◌≤◌, refl, ap, ◌∙◌, sym, List, [], ◌∷◌, ◌++◌, map, length, arith, All,
}
use meb_commander.Lines.{c_string, lines, complete_all, IsLine}
use meb_commander.Ble.Queue.{Fifo, commands, complete_all-contents, cmd_queue_depth}
use meb_commander.Ble.Rx.{
  Inbox, Queued, queue_line, drop_line, gatt_writes, gatt_writes-lines, IsPacket, concat,
}
use meb_commander.Ota.Platform.{Platform}
use meb_commander.Settings.{Nvs}
use meb_commander.Rpc.Machine.{Reads, Build}
use meb_commander.Rpc.Uart.{Served, serve, uart_bytes, uart_bytes-lines, cmd_rx_buf_size}

c_string_idem : (text : List ℕ) → c_string (c_string text) ≡ c_string text
unfolding c_string
c_string_idem [] = refl
c_string_idem (c ∷ text) = ground (arith, c_string_idem text)

-- What a host sends does not depend on the console.
lines-same :
    {S T : Type 0} (f g : List ℕ → S → S) (h k : List ℕ → T → T) (texts : List (List ℕ))
    → lines f g texts ≡ lines h k texts
unfolding lines
lines-same f g h k [] = refl
lines-same f g h k (text ∷ texts) =
    ap (λ (v : List ℕ). (b'{' ∷ text) ++ (10 ∷ v)) (lines-same f g h k texts)

module _ (P : Platform) (N : Nvs) (build : Build) (reads : ℕ → Reads) where
  -- `command_task` on the lines that it takes from the queue.
  unfoldable pub command_task : List (List ℕ) → Served P N build reads → Served P N build reads
  unfolding serve
  command_task [] s = s
  command_task (line ∷ queue) s = command_task queue (serve P N build reads line s)

  serve-c_string :
      (line : List ℕ) (s : Served P N build reads)
      → serve P N build reads (c_string line) s ≡ serve P N build reads line s
  unfolding serve
  serve-c_string line s = rw (c_string_idem line) refl

  command_task-commands :
      (texts : List (List ℕ)) (s : Served P N build reads)
      → command_task (map (λ text. c_string (b'{' ∷ text)) texts) s
        ≡ complete_all (serve P N build reads) (serve P N build reads) texts s
  unfolding command_task complete_all
  command_task-commands [] s = refl
  command_task-commands (text ∷ texts) s =
      ap (λ (t : Served P N build reads). command_task (map (λ v. c_string (b'{' ∷ v)) texts) t)
        (serve-c_string (b'{' ∷ text) s)
      ∙ command_task-commands texts (serve P N build reads (b'{' ∷ text) s)

  -- At most eight commands that fit a line do the same and are answered alike whether they come in on
  -- the UART or, in packets cut anywhere, over BLE into an empty queue, which takes eight.
  pub command_task-uart_bytes :
      (I : Inbox) (R : Fifo I) (rx_handle tx_handle : ℕ) (oms texts : List (List ℕ)) (q : Queued I)
      (s : Served P N build reads)
      → All (IsPacket I) oms
      → All (IsLine (queue_line I) (drop_line I) cmd_rx_buf_size) texts
      → concat I oms ≡ lines (queue_line I) (drop_line I) texts
      → R.contents q.world ≡ []
      → length texts ≤ cmd_queue_depth
      → command_task (R.contents (gatt_writes I rx_handle tx_handle oms ([], q)).1.world) s
        ≡ (uart_bytes P N build reads (concat I oms) ([], s)).1
  command_task-uart_bytes I R rx_handle tx_handle oms texts q s packets fit e empty few =
      let received = gatt_writes-lines I rx_handle tx_handle oms texts q packets fit e in
      let none_waits : length (R.contents q.world) ≡ 0 =
        ap (λ (v : List (List ℕ)). length v) empty in
      let (queue, quiet) = complete_all-contents I R texts q fit (omega (arith, none_waits, few)) in
      ap (λ (r : List ℕ × Queued I). command_task (R.contents r.1.world) s) received
      ∙ ap (λ (v : List (List ℕ)). command_task v s)
          (queue ∙ ap (λ (v : List (List ℕ)). v ++ commands texts) empty)
      ∙ command_task-commands texts s
      ∙ sym (
          ap (λ (r : List ℕ × Served P N build reads). r.1)
            (uart_bytes-lines P N build reads texts s fit))
      ∙ ap (λ (v : List ℕ). (uart_bytes P N build reads v ([], s)).1)
          (sym (
            e
            ∙ lines-same (queue_line I) (drop_line I) (serve P N build reads)
                (serve P N build reads) texts))
