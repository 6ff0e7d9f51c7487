-- ===== src/Can/Report.antt =====
-- `report_isr_diagnostics` in main/can_bus.c: what the counters of the interrupt callbacks say since
-- the last report. The function reads the counters at one time here, between two interrupts. The
-- log lines on the console are left out.
pub mod Quiet
use meb_commander.Base.{
  ℕ, ◌+◌, ◌-◌, ◌/◌, ◌%◌, ◌^◌, ◌≡◌, refl, zero, suc, Bool, true, false, List, [], ◌∷◌, ◌++◌, Option,
  none, some, ltb, ◌==◌, if◌then◌else◌, get_or, set, codes, arith, ◌<◌,
}
use meb_commander.Base.Decimal.{decimal}
use meb_commander.Event.{Event, numbered}
use meb_commander.Can.{Can}
use meb_commander.Can.Flags.{format_error_flags}

-- The values of twai_error_state_t.
pub record ErrorStates : Type 0 where
  pub active : ℕ
  pub warning : ℕ
  pub passive : ℕ
  pub bus_off : ℕ

-- The fields of twai_node_status_t that are reported.
pub record NodeStatus : Type 0 where
  pub state : ℕ
  pub tx_error_count : ℕ
  pub rx_error_count : ℕ

-- The static variables of `report_isr_diagnostics`.
pub record Reported : Type 0 where
  pub last_overflow_count : ℕ
  pub last_error_event_count : ℕ
  pub last_state_change_count : ℕ
  pub last_tx_failure_count : ℕ
  pub last_state_entry_count : List ℕ
  pub last_tx_slot_exhaustion_count : ℕ

-- `a - b` of two uint32_t
abbrev pub since : ℕ → ℕ → ℕ
since a b = (a + 2 ^ 32 - b) % 2 ^ 32

abbrev hex_upper_char : ℕ → ℕ
hex_upper_char d = if ltb d 10 then 48 + d else 55 + d

unfoldable pub hex_from : ℕ → ℕ → List ℕ → List ℕ
hex_from zero n tail = tail
hex_from (suc fuel) n tail =
    let text = hex_upper_char (n % 16) ∷ tail in
    let rest = hex_from fuel (n / 16) text in if n / 16 == 0 then text else rest

-- "%X" of a uint32_t
unfoldable pub hex : ℕ → List ℕ
unfolding hex_from
hex n = hex_from 8 n []

module _ (S : ErrorStates) where
  unfoldable pub state_name_short : ℕ → List ℕ
  unfolding codes
  state_name_short state =
      if state == S.active
      then codes "act"
      else if state == S.warning
      then codes "warn"
      else if state == S.passive
      then codes "pass"
      else if state == S.bus_off
      then codes "off"
      else codes "?"

  unfoldable pub error_detail : Option NodeStatus → ℕ → ℕ → List ℕ
  unfolding codes hex format_error_flags state_name_short decimal
  error_detail status errors flags_seen =
      codes "n="
      ++ decimal errors
      ++ codes " f=0x"
      ++ hex flags_seen
      ++ codes "("
      ++ format_error_flags flags_seen 24
      ++ codes ")"
      ++ elim status [
        | none ↦ []
        | some node ↦
            codes " s="
            ++ state_name_short node.state
            ++ codes " tec="
            ++ decimal node.tx_error_count
            ++ codes " rec="
            ++ decimal node.rx_error_count
      ]

  unfoldable pub state_detail : Option NodeStatus → Can → Reported → List ℕ
  unfolding codes state_name_short decimal
  state_detail status c r =
      codes "n="
      ++ decimal (since c.state_change_count r.last_state_change_count)
      ++ codes " "
      ++ state_name_short c.last_old_state
      ++ codes ">"
      ++ state_name_short c.last_new_state
      ++ codes " a="
      ++ decimal (entries S.active)
      ++ codes " w="
      ++ decimal (entries S.warning)
      ++ codes " p="
      ++ decimal (entries S.passive)
      ++ codes " b="
      ++ decimal (entries S.bus_off)
      ++ elim status [ none ↦ [] | some node ↦ codes " c=" ++ state_name_short node.state ]
    where
      entries : ℕ → ℕ
      entries state =
          since (get_or c.state_entry_count state 0) (get_or r.last_state_entry_count state 0)

  -- The first part, on the receive queue.
  unfoldable pub report_overflow : Can → Reported → List Event × Reported
  report_overflow c r = if c.rx_queue_overflow_count == r.last_overflow_count then ([], r) else (
    numbered "can" "rx_queue_full" "dropped="
          (since c.rx_queue_overflow_count r.last_overflow_count)
        ∷ [],
    record r { last_overflow_count = c.rx_queue_overflow_count },
  )

  -- The second part, on errors, which clears the flags seen.
  unfoldable pub report_errors : Option NodeStatus → Can → Reported → List Event × Can × Reported
  unfolding codes error_detail
  report_errors status c r =
      if c.error_event_count == r.last_error_event_count then ([], c, r) else (
        record {
          component = codes "can";
          event = codes "error";
          detail =
              error_detail status (since c.error_event_count r.last_error_event_count)
                c.error_flags_seen;
        }
            ∷ [],
        record c { error_flags_seen = 0 },
        record r { last_error_event_count = c.error_event_count },
      )

  -- The third part, on state changes.
  unfoldable pub report_states : Option NodeStatus → Can → Reported → List Event × Reported
  unfolding codes state_detail
  report_states status c r =
      if c.state_change_count == r.last_state_change_count then ([], r) else (
        record { component = codes "can"; event = codes "state"; detail = state_detail status c r }
            ∷ [],
        record r {
          last_state_change_count = c.state_change_count;
          last_state_entry_count =
              seen S.active
                (seen S.warning (seen S.passive (seen S.bus_off r.last_state_entry_count)));
        },
      )
    where
      seen : ℕ → List ℕ → List ℕ
      seen state counts = set counts state (get_or c.state_entry_count state 0)

  -- The fourth part, on failed transmissions.
  unfoldable pub report_failures : Can → Reported → List Event × Reported
  unfolding codes decimal hex
  report_failures c r = if c.tx_failure_count == r.last_tx_failure_count then ([], r) else (
    record {
      component = codes "can";
      event = codes "tx_failed_isr";
      detail =
          codes "count="
          ++ decimal (since c.tx_failure_count r.last_tx_failure_count)
          ++ codes " id=0x"
          ++ hex c.last_tx_failure_id;
    }
        ∷ [],
    record r { last_tx_failure_count = c.tx_failure_count },
  )

  -- The last part, on transmissions without a free slot.
  unfoldable pub report_exhaustion : Can → Reported → List Event × Reported
  report_exhaustion c r =
      if c.tx_slot_exhaustion_count == r.last_tx_slot_exhaustion_count then ([], r) else (
        numbered "can" "tx_slots_full" "count="
              (since c.tx_slot_exhaustion_count r.last_tx_slot_exhaustion_count)
            ∷ [],
        record r { last_tx_slot_exhaustion_count = c.tx_slot_exhaustion_count },
      )

  -- report_isr_diagnostics, with the node's status where the driver gives it.
  unfoldable pub report_isr_diagnostics :
      Option NodeStatus → Can → Reported → List Event × Can × Reported
  report_isr_diagnostics status c r =
      let (overflow, r1) = report_overflow c r in
      let (errors, c', r2) = report_errors status c r1 in
      let (states, r3) = report_states status c' r2 in
      let (failures, r4) = report_failures c' r3 in
      let (exhaustion, r5) = report_exhaustion c' r4 in
      (overflow ++ errors ++ states ++ failures ++ exhaustion, c', r5)
