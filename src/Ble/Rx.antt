-- ===== src/Ble/Rx.antt =====
-- What clients write, in main/ble_console.c: `gatt_access_cb`, `feed_rx_bytes` and `queue_line`. The
-- command queue of FreeRTOS and the buffers of NimBLE are the parameter `Inbox`.
use meb_commander.Base.{
  ℕ, ◌-◌, ◌≡◌, ◌<◌, refl, ap, ◌∙◌, Bool, true, ◌||◌, not, List, [], ◌∷◌, ◌++◌, Option, none, some,
  ltb, ◌==◌, if◌then◌else◌, length, take, arith, codes, All, ◌≤◌, sym, Option-cases, inl, inr,
}
use meb_commander.Event.{Event, plain}
use meb_commander.Lines.{
  c_string, feed_bytes, feed_bytes-append, feed_bytes-lines, feed_bytes-fits, lines, complete_all,
  IsLine,
}

-- BLE_CMD_RX_BUF_SIZE
abbrev pub cmd_rx_buf_size : ℕ
cmd_rx_buf_size = 1024

-- `s_command_queue != NULL`, whether xQueueSend returns pdPASS, ble_hs_mbuf_to_flat into a buffer of
-- the given size, and whether os_mbuf_append succeeds.
pub record Inbox : Type 1 where
  pub World : Type 0
  pub created : Bool
  pub queue_send : List ℕ → World → Bool × World
  pub to_flat : List ℕ → ℕ → Option (List ℕ)
  pub can_append : List ℕ → Bool

-- The results of `gatt_access_cb`.
pub data AttResult : Type 0 where
  att_ok unlikely invalid_attr_value_len insufficient_res : AttResult

-- The operations of a characteristic access, with the packet of a write.
pub data Access : Type 0 where
  write_chr : List ℕ → Access
  read_chr : Access
  other_op : Access

abbrev ready_text : List ℕ
ready_text = codes "MEB JSON-RPC TX notifications\n"

module _ (I : Inbox) where
  open I use {World}

  -- The queue, and the events that are recorded, in order.
  pub record Queued : Type 0 where
    pub world : World
    pub events : List Event

  -- `line[0] == '\0'`
  abbrev is_blank : List ℕ → Bool
  is_blank [] = true
  is_blank (c ∷ line) = c == 0

  -- queue_line
  unfoldable pub queue_line : List ℕ → Queued → Queued
  unfolding c_string plain
  queue_line line q =
      if not I.created || is_blank line
      then q
      else let (sent, world) = I.queue_send (take (cmd_rx_buf_size - 1) (c_string line)) q.world in
        if sent
        then record q { world = world }
        else record { world = world; events = q.events ++ (plain "ble" "cmd_queue_full" "" ∷ []) }

  unfoldable pub drop_line : List ℕ → Queued → Queued
  unfolding plain
  drop_line line q = record q { events = q.events ++ (plain "ble" "cmd_overlong" "" ∷ []) }

  -- feed_rx_bytes, on the line collected so far
  unfoldable pub feed_rx_bytes : List ℕ → List ℕ × Queued → List ℕ × Queued
  unfolding feed_bytes queue_line drop_line
  feed_rx_bytes input rx = feed_bytes queue_line drop_line cmd_rx_buf_size input rx

  -- gatt_access_cb, where `rx_handle` and `tx_handle` are the handles of the two characteristics
  unfoldable pub gatt_access_cb : ℕ → ℕ → ℕ → Access → List ℕ × Queued → AttResult × List ℕ × Queued
  unfolding feed_rx_bytes
  gatt_access_cb rx_handle tx_handle attr_handle (write_chr om) (line, q) =
      if not (attr_handle == rx_handle)
      then (unlikely, line, q)
      else if length om == 0 || ltb cmd_rx_buf_size (length om)
      then (invalid_attr_value_len, line, q)
      else elim (I.to_flat om cmd_rx_buf_size) [
        | none ↦ (unlikely, line, q)
        | some flat ↦ let (line', q') = feed_rx_bytes flat (line, q) in (att_ok, line', q')
      ]
  gatt_access_cb rx_handle tx_handle attr_handle read_chr (line, q) =
      if attr_handle == tx_handle
      then ((if I.can_append ready_text then att_ok else insufficient_res), line, q)
      else (unlikely, line, q)
  gatt_access_cb rx_handle tx_handle attr_handle other_op (line, q) = (unlikely, line, q)

  -- Writes of a client to the receiving characteristic.
  unfoldable pub gatt_writes : ℕ → ℕ → List (List ℕ) → List ℕ × Queued → List ℕ × Queued
  gatt_writes rx_handle tx_handle [] rx = rx
  gatt_writes rx_handle tx_handle (om ∷ oms) rx =
      let (result, line, q) = gatt_access_cb rx_handle tx_handle rx_handle (write_chr om) rx in
      gatt_writes rx_handle tx_handle oms (line, q)

  -- A packet of an admissible length, which NimBLE copies whole.
  abbrev pub IsPacket : List ℕ → Type 0
  IsPacket om =
      (0 < length om) × (length om ≤ cmd_rx_buf_size) × (I.to_flat om cmd_rx_buf_size ≡ some om)

  abbrev pub concat : List (List ℕ) → List ℕ
  concat [] = []
  concat (xs ∷ xss) = xs ++ concat xss

  gatt_access_cb-packet :
      (rx_handle tx_handle : ℕ) (om : List ℕ) (rx : List ℕ × Queued)
      → IsPacket om
      → gatt_access_cb rx_handle tx_handle rx_handle (write_chr om) rx
        ≡ (att_ok, (feed_rx_bytes om rx).0, (feed_rx_bytes om rx).1)
  unfolding gatt_access_cb
  gatt_access_cb-packet rx_handle tx_handle om (line, q) (some_byte, short, flat) =
      ground (arith, flat)

  gatt_writes-concat :
      (rx_handle tx_handle : ℕ) (oms : List (List ℕ)) (rx : List ℕ × Queued)
      → All IsPacket oms
      → gatt_writes rx_handle tx_handle oms rx ≡ feed_rx_bytes (concat oms) rx
  unfolding gatt_writes feed_rx_bytes feed_bytes
  gatt_writes-concat rx_handle tx_handle [] rx h = refl
  gatt_writes-concat rx_handle tx_handle (om ∷ oms) rx (p, h) =
      simp (gatt_access_cb-packet rx_handle tx_handle om rx p) (
        gatt_writes-concat rx_handle tx_handle oms (feed_rx_bytes om rx) h
        ∙ sym (feed_bytes-append queue_line drop_line cmd_rx_buf_size om (concat oms) rx))

  -- The lines in the packets are completed in order, wherever the packets are cut.
  pub gatt_writes-lines :
      (rx_handle tx_handle : ℕ) (oms texts : List (List ℕ)) (q : Queued)
      → All IsPacket oms
      → All (IsLine queue_line drop_line cmd_rx_buf_size) texts
      → concat oms ≡ lines queue_line drop_line texts
      → gatt_writes rx_handle tx_handle oms ([], q)
        ≡ ([], complete_all queue_line drop_line texts q)
  unfolding feed_rx_bytes
  gatt_writes-lines rx_handle tx_handle oms texts q packets fit e =
      gatt_writes-concat rx_handle tx_handle oms ([], q) packets
      ∙ ap (λ (v : List ℕ). feed_rx_bytes v ([], q)) e
      ∙ feed_bytes-lines queue_line drop_line cmd_rx_buf_size texts q fit

  -- Whatever a client writes, the line that is collected fits its buffer with the terminating zero.
  pub gatt_access_cb-fits :
      (rx_handle tx_handle attr_handle : ℕ) (access : Access) (line : List ℕ) (q : Queued)
      → length line < cmd_rx_buf_size
      → length (gatt_access_cb rx_handle tx_handle attr_handle access (line, q)).1 < cmd_rx_buf_size
  unfolding gatt_access_cb feed_rx_bytes
  gatt_access_cb-fits rx_handle tx_handle attr_handle read_chr line q h = ground (arith, h)
  gatt_access_cb-fits rx_handle tx_handle attr_handle other_op line q h = h
  gatt_access_cb-fits rx_handle tx_handle attr_handle (write_chr om) line q h =
      elim (Option-cases (I.to_flat om cmd_rx_buf_size)) [
        | inl e ↦ ground (arith, e, h)
        | inr (flat, e) ↦ ground (
          arith,
          e,
          h,
          feed_bytes-fits queue_line drop_line cmd_rx_buf_size flat line q (omega arith) h,
        )
      ]
