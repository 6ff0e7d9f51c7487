-- ===== src/Can.antt =====
-- main/can_bus.c: the transmit slots, the callbacks that the TWAI driver makes in interrupts, and the
-- handling of a received frame. A slot and its frame are known by their index in `tx_slots`; a
-- critical section is one step. What the driver, the receive queue and the frame length tables of
-- ESP-IDF do is the parameter `Driver`.
pub mod Pool
pub mod Ownership
pub mod Flags
pub mod Report
pub mod Diagnostics
pub mod Filters
pub mod RxTask
use Prim.Native.Nat.{bit_or}
use meb_commander.Base.{
  ℕ, ◌+◌, ◌-◌, ◌*◌, ◌%◌, ◌^◌, zero, suc, Bool, true, false, not, ◌&&◌, ◌||◌, List, [], ◌∷◌, ◌++◌,
  Option, none, some, ltb, leb, ◌==◌, if◌then◌else◌, length, take, drop, replicate, set, get_or,
  codes,
}
use meb_commander.Config.{
  can_id_diag_req, can_id_diag_resp, can_id_heating_status, can_id_charging_optimization,
  can_id_dynamic, can_id_temperature,
}
use meb_commander.Esp.{EspErr, esp_ok, invalid_state, timeout, is_ok}
use meb_commander.Event.{Event}
use meb_commander.State.{
  AppState, update_diag_response, update_heating_status, update_charging_optimization,
  update_dynamic, update_temperature,
}

-- MEB_TWAI_TX_QUEUE_DEPTH
abbrev pub tx_slot_count : ℕ
tx_slot_count = 8

-- The fields of twai_frame_header_t that the code reads or writes.
pub record Header : Type 0 where
  pub id : ℕ
  pub dlc : ℕ
  pub ide : Bool
  pub fdf : Bool
  pub brs : Bool

-- twai_frame_t, whose buffer is the bytes of its slot.
pub record Frame : Type 0 where
  pub header : Header
  pub buffer_len : ℕ

-- meb_can_tx_slot_t
pub record TxSlot : Type 0 where
  pub frame : Frame
  pub bytes : List ℕ
  pub id : ℕ
  pub in_use : Bool

-- meb_can_rx_message_t
pub record RxMessage : Type 0 where
  pub header : Header
  pub bytes : List ℕ
  pub len : ℕ

-- The static variables of the file, less the lock; `ready` says that `s_twai_node` is not NULL.
pub record Can : Type 0 where
  pub ready : Bool
  pub tx_slots : List TxSlot
  pub rx_queue_overflow_count : ℕ
  pub error_event_count : ℕ
  pub last_error_flags : ℕ
  pub error_flags_seen : ℕ
  pub state_change_count : ℕ
  pub last_old_state : ℕ
  pub last_new_state : ℕ
  pub state_entry_count : List ℕ
  pub tx_failure_count : ℕ
  pub last_tx_failure_id : ℕ
  pub tx_slot_exhaustion_count : ℕ

-- TWAIFD_FRAME_MAX_LEN, TWAI_FRAME_MAX_LEN, twaifd_len2dlc, twaifd_dlc2len, twai_node_transmit of the
-- frame of a slot, twai_node_receive_from_isr, xQueueSendFromISR (whether it returns pdPASS),
-- xQueueReceive (the message that it copies, where it returns pdTRUE) and esp_err_to_name.
pub record Driver : Type 1 where
  pub World : Type 0
  pub fd_frame_max_len : ℕ
  pub classic_frame_max_len : ℕ
  pub len2dlc : ℕ → ℕ
  pub dlc2len : ℕ → ℕ
  pub transmit : ℕ → TxSlot → ℕ → World → EspErr × World
  pub receive_from_isr : World → Option (Header × List ℕ) × World
  pub queue_send : RxMessage → World → Bool × World
  pub queue_receive : World → Option RxMessage × World
  pub err_to_name : EspErr → List ℕ

-- `n++` on a uint32_t
abbrev pub increment : ℕ → ℕ
increment n = (n + 1) % 2 ^ 32

-- A slot of the zeroed static array.
abbrev pub empty_slot : TxSlot
empty_slot = record {
  frame = record {
    header = record { id = 0; dlc = 0; ide = false; fdf = false; brs = false };
    buffer_len = 0;
  };
  bytes = [];
  id = 0;
  in_use = false;
}

-- The static variables at boot, with the node up.
abbrev pub fresh : Can
fresh = record {
  ready = true;
  tx_slots = replicate tx_slot_count empty_slot;
  rx_queue_overflow_count = 0;
  error_event_count = 0;
  last_error_flags = 0;
  error_flags_seen = 0;
  state_change_count = 0;
  last_old_state = 0;
  last_new_state = 0;
  state_entry_count = replicate 4 0;
  tx_failure_count = 0;
  last_tx_failure_id = 0;
  tx_slot_exhaustion_count = 0;
}

-- The loop of `alloc_tx_slot` from the slot with index `i` on: it fills the first free slot.
unfoldable pub claim_from : ℕ → (TxSlot → TxSlot) → List TxSlot → Option ℕ × List TxSlot
claim_from i fill [] = (none, [])
claim_from i fill (slot ∷ slots) =
    let (found, slots') = claim_from (i + 1) fill slots in
    if not slot.in_use then (some i, fill slot ∷ slots) else (found, slot ∷ slots')

unfoldable pub release_at : ℕ → List TxSlot → List TxSlot
release_at i slots = set slots i (record (get_or slots i empty_slot) { in_use = false })

unfoldable pub release_tx_slot : Option ℕ → List TxSlot → List TxSlot
unfolding release_at
release_tx_slot none slots = slots
release_tx_slot (some i) slots = release_at i slots

-- The slot that has the frame, if any: whether one was released, its id, and the slots. An index
-- out of range is the address of some other frame.
unfoldable pub release_tx_slot_from_isr : Option ℕ → List TxSlot → Bool × ℕ × List TxSlot
unfolding release_at
release_tx_slot_from_isr none slots = (false, 0, slots)
release_tx_slot_from_isr (some i) slots =
    if ltb i (length slots)
    then (true, (get_or slots i empty_slot).id, release_at i slots)
    else (false, 0, slots)

-- twai_tx_done_callback
unfoldable pub tx_done_callback : Option ℕ → Bool → Can → Can
unfolding release_tx_slot_from_isr
tx_done_callback done_tx_frame is_tx_success c =
    let (released, done_id, slots) = release_tx_slot_from_isr done_tx_frame c.tx_slots in
    if not is_tx_success
    then record c {
      tx_slots = slots;
      tx_failure_count = increment c.tx_failure_count;
      last_tx_failure_id = done_id;
    }
    else record c { tx_slots = slots }

-- twai_error_callback
unfoldable pub error_callback : ℕ → Can → Can
error_callback flags c = record c {
  error_event_count = increment c.error_event_count;
  last_error_flags = flags;
  error_flags_seen = bit_or c.error_flags_seen flags;
}

-- twai_state_change_callback
unfoldable pub state_change_callback : ℕ → ℕ → Can → Can
state_change_callback old_sta new_sta c = record c {
  state_change_count = increment c.state_change_count;
  last_old_state = old_sta;
  last_new_state = new_sta;
  state_entry_count =
      if ltb new_sta 4
      then set c.state_entry_count new_sta (increment (get_or c.state_entry_count new_sta 0))
      else c.state_entry_count;
}

-- What process_rx_message does at the time `now`, with the events that the state records.
unfoldable pub process_rx_message : RxMessage → ℕ → AppState → AppState × List Event
process_rx_message msg now s =
    if not msg.header.ide
    then (s, [])
    else if msg.header.id == can_id_diag_resp
    then update_diag_response (some msg.bytes) msg.len now s
    else if msg.header.id == can_id_heating_status
    then (update_heating_status (some msg.bytes) msg.len now s, [])
    else if msg.header.id == can_id_charging_optimization
    then (update_charging_optimization (some msg.bytes) msg.len now s, [])
    else if msg.header.id == can_id_dynamic
    then (update_dynamic (some msg.bytes) msg.len now s, [])
    else if msg.header.id == can_id_temperature
    then (update_temperature (some msg.bytes) msg.len now s, [])
    else (s, [])

module _ (D : Driver) where
  open D use {World}

  -- What `alloc_tx_slot` writes into the slot that it finds.
  unfoldable pub fill_slot : ℕ → List ℕ → ℕ → TxSlot → TxSlot
  fill_slot id bytes len slot = record {
    frame = record {
      header = record { id = id; dlc = D.len2dlc len; ide = true; fdf = true; brs = true };
      buffer_len = len;
    };
    bytes = take len bytes ++ drop len slot.bytes;
    id = id;
    in_use = true;
  }

  unfoldable pub alloc_tx_slot : ℕ → Option (List ℕ) → ℕ → List TxSlot → Option ℕ × List TxSlot
  unfolding fill_slot claim_from
  alloc_tx_slot id none len slots = (none, slots)
  alloc_tx_slot id (some bytes) len slots =
      if ltb D.fd_frame_max_len len
      then (none, slots)
      else claim_from 0 (fill_slot id bytes len) slots

  unfoldable pub frame_payload_len : Header → ℕ
  frame_payload_len header =
      if header.fdf
      then D.dlc2len header.dlc
      else if leb header.dlc D.classic_frame_max_len
      then header.dlc
      else D.classic_frame_max_len

  -- twai_rx_done_callback
  unfoldable pub rx_done_callback : World → Can → Can × World
  unfolding frame_payload_len
  rx_done_callback world c =
      let (received, world') = D.receive_from_isr world in
      elim received [
        | none ↦ (c, world')
        | some (header, bytes) ↦
            let message : RxMessage = record {
              header = header;
              bytes = bytes;
              len = frame_payload_len header;
            } in
            let (sent, world'') = D.queue_send message world' in
            if not sent
            then (
              record c { rx_queue_overflow_count = increment c.rx_queue_overflow_count },
              world'',
            )
            else (c, world'')
      ]

  -- The frame of slot `i` goes to the driver; a slot that the driver refuses is free again.
  unfoldable pub transmit_slot : ℕ → List ℕ → Can → World → EspErr × List Event × Can × World
  unfolding release_tx_slot
  transmit_slot i name c world =
      let (e, world') = D.transmit i (get_or c.tx_slots i empty_slot) 500 world in
      if not (is_ok e)
      then (
        e,
        record {
          component = codes "can";
          event = codes "tx_failed";
          detail = name ++ (b':' ∷ []) ++ D.err_to_name e;
        }
            ∷ [],
        record c { tx_slots = release_tx_slot (some i) c.tx_slots },
        world',
      )
      else (e, [], c, world')

  unfoldable pub transmit_fd_frame :
      ℕ → List ℕ → List ℕ → Can → World → EspErr × List Event × Can × World
  unfolding transmit_slot alloc_tx_slot
  transmit_fd_frame id bytes name c world =
      if not c.ready
      then (invalid_state, [], c, world)
      else let (slot, slots) = alloc_tx_slot id (some bytes) 8 c.tx_slots in
        elim slot [
          | none ↦ (
            timeout,
            [],
            record c {
              tx_slots = slots;
              tx_slot_exhaustion_count = increment c.tx_slot_exhaustion_count;
            },
            world,
          )
          | some i ↦ transmit_slot i name (record c { tx_slots = slots }) world
        ]

  -- meb_can_request_diag_session
  unfoldable pub request_diag_session : Can → World → EspErr × List Event × Can × World
  request_diag_session =
      transmit_fd_frame can_id_diag_req (0x02 ∷ 0x10 ∷ 0x03 ∷ 0x00 ∷ 0x00 ∷ 0x00 ∷ 0x00 ∷ 0x00 ∷ [])
        (codes "diag_session")

  -- meb_can_send_heat_request
  unfoldable pub send_heat_request : Can → World → EspErr × List Event × Can × World
  send_heat_request =
      transmit_fd_frame can_id_diag_req (0x07 ∷ 0x2F ∷ 0x80 ∷ 0x37 ∷ 0x03 ∷ 0x00 ∷ 0x05 ∷ 0x32 ∷ [])
        (codes "heat_request")

  -- meb_can_request_bms_soc
  unfoldable pub request_bms_soc : Can → World → EspErr × List Event × Can × World
  request_bms_soc =
      transmit_fd_frame can_id_diag_req (0x03 ∷ 0x22 ∷ 0x02 ∷ 0x8C ∷ 0x55 ∷ 0x55 ∷ 0x55 ∷ 0x55 ∷ [])
        (codes "bms_soc")
