-- ===== src/Can/Diagnostics.antt =====
-- main/can_bus.c: what the device reports of the CAN bus. The states of the controller have the
-- numbers of twai_error_state_t, 0 to 3.
use meb_commander.Base.{ℕ, List, take, Bool, if◌then◌else◌}
use meb_commander.Can.{Can}

-- The fields of twai_node_status_t and twai_node_record_t that are reported.
pub record NodeInfo : Type 0 where
  pub state : ℕ
  pub tx_error_count : ℕ
  pub rx_error_count : ℕ
  pub tx_queue_remaining : ℕ
  pub bus_err_num : ℕ

-- meb_can_diagnostics_t
pub record CanDiagnostics : Type 0 where
  pub ready : Bool
  pub arbitration_sample_point_permill : ℕ
  pub data_sample_point_permill : ℕ
  pub data_ssp_permill : ℕ
  pub rx_queue_overflow_count : ℕ
  pub error_event_count : ℕ
  pub state_change_count : ℕ
  pub tx_failure_count : ℕ
  pub last_error_flags : ℕ
  pub last_tx_failure_id : ℕ
  pub state_entry_count : List ℕ
  pub node : NodeInfo

-- What `memset` leaves.
abbrev pub no_info : NodeInfo
no_info = record {
  state = 0;
  tx_error_count = 0;
  rx_error_count = 0;
  tx_queue_remaining = 0;
  bus_err_num = 0;
}

-- meb_can_get_diagnostics, where `info` is what twai_node_get_info makes of the zeroed fields
unfoldable pub get_diagnostics : NodeInfo → Can → CanDiagnostics
get_diagnostics info can = record {
  ready = can.ready;
  arbitration_sample_point_permill = 875;
  data_sample_point_permill = 750;
  data_ssp_permill = 700;
  rx_queue_overflow_count = can.rx_queue_overflow_count;
  error_event_count = can.error_event_count;
  state_change_count = can.state_change_count;
  tx_failure_count = can.tx_failure_count;
  last_error_flags = can.last_error_flags;
  last_tx_failure_id = can.last_tx_failure_id;
  state_entry_count = take 4 can.state_entry_count;
  node = if can.ready then info else no_info;
}
