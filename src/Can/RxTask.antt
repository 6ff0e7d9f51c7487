-- ===== src/Can/RxTask.antt =====
-- The loops of main/can_bus.c: a round of `can_rx_task`, and one of `can_test_tx_task`, which only a
-- bench build starts.
pub mod Order
use meb_commander.Base.{
  ℕ, ◌+◌, ◌-◌, ◌%◌, ◌^◌, List, [], ◌∷◌, ◌++◌, Option, none, some, leb, if◌then◌else◌, codes,
}
use meb_commander.Config.{can_test_tx_id}
use meb_commander.Esp.{EspErr}
use meb_commander.Event.{Event}
use meb_commander.State.{AppState}
use meb_commander.Can.{Can, Driver, RxMessage, process_rx_message, transmit_fd_frame}
use meb_commander.Can.Report.{ErrorStates, NodeStatus, Reported, report_isr_diagnostics, since}

-- The local variable of `can_rx_task`, with the static ones of `report_isr_diagnostics`.
pub record Reporter : Type 0 where
  pub last_report_tick : ℕ
  pub reported : Reported

unfoldable pub process_received : Option RxMessage → ℕ → AppState → AppState × List Event
process_received none now s = (s, [])
process_received (some msg) now s = process_rx_message msg now s

-- The second half of a round, at the tick `now`, where `period` is pdMS_TO_TICKS(DIAG_REPORT_PERIOD_MS).
unfoldable pub report_if_due :
    ErrorStates → ℕ → ℕ → Option NodeStatus → Can → Reporter → List Event × Can × Reporter
unfolding report_isr_diagnostics
report_if_due S period now status c r =
    let (events, c', reported) = report_isr_diagnostics S status c r.reported in
    if leb period (since now r.last_report_tick)
    then (events, c', record { last_report_tick = now; reported = reported })
    else ([], c, r)

module _ (D : Driver) (S : ErrorStates) where
  open D use {World}

  -- A round of `can_rx_task`, which takes a message from the queue, if one comes in time, at `now_us`
  -- and looks at the tick `now`: what it took, and what is there then.
  unfoldable pub rx_round :
      ℕ
      → ℕ
      → ℕ
      → Option NodeStatus
      → AppState
      → Can
      → Reporter
      → World
      → Option RxMessage × AppState × List Event × Can × Reporter × World
  unfolding process_received report_if_due
  rx_round period now_us now status s c r world =
      let (received, world') = D.queue_receive world in
      let (s', events) = process_received received now_us s in
      let (reports, c', r') = report_if_due S period now status c r in
      (received, s', events ++ reports, c', r', world')

module _ (D : Driver) where
  -- A round of `can_test_tx_task`, with its counter of 8 bits.
  unfoldable pub test_tx_round : ℕ → Can → D.World → ℕ × List Event × Can × D.World
  test_tx_round counter c world =
      let bytes = 0xCA ∷ 0xFE ∷ 0xBA ∷ 0xBE ∷ counter ∷ (255 - counter) ∷ 0x55 ∷ 0xAA ∷ [] in
      let (e, events, c', world') =
        transmit_fd_frame D can_test_tx_id bytes (codes "test_tx") c world in
      ((counter + 1) % 2 ^ 8, events, c', world')
