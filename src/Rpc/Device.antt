-- ===== src/Rpc/Device.antt =====
-- main/serial_console.c: the methods of `device.`.
use meb_commander.Base.{
  ℕ, Bool, not, List, [], ◌∷◌, ◌++◌, ltb, ◌==◌, if◌then◌else◌, codes, get_or, given,
}
use meb_commander.Base.Decimal.{decimal}
use meb_commander.Console.{parse_optional_limit}
use meb_commander.Ota.Platform.{Platform}
use meb_commander.Settings.{Nvs}
use meb_commander.Diag.{get_events}
use meb_commander.Diag.Status.{DiagStatus, reset_reason_name}
use meb_commander.Can.Diagnostics.{CanDiagnostics, get_diagnostics}
use meb_commander.Rpc.{
  invalid_params, server_error, send_rpc_error, send_rpc_result, json_bool, texts,
}
use meb_commander.Rpc.Machine.{Reads, Build, Machine, Outcome, reply, schedule_reboot}
use meb_commander.Rpc.EventLog.{format_event_log_json}

abbrev pub device_reset_delay_ms : ℕ
device_reset_delay_ms = 500

-- DIAG_EVENTS_DEFAULT_LIMIT and DIAG_EVENTS_DIAGNOSTICS_LIMIT
abbrev pub events_default_limit : ℕ
events_default_limit = 8

abbrev pub events_diagnostics_limit : ℕ
events_diagnostics_limit = 5

-- `"uptime_ms":…,"reset":{…}` of a status.
unfoldable pub uptime_text : DiagStatus → List ℕ
unfolding texts codes decimal reset_reason_name
uptime_text status = texts (
    codes "\"uptime_ms\":"
    ∷ decimal status.uptime_ms
    ∷ codes ",\"reset\":{\"reason\":"
    ∷ decimal status.reset_code
    ∷ codes ",\"name\":\""
    ∷ reset_reason_name status.reset_reason
    ∷ codes "\"}"
    ∷ [])

unfoldable pub diagnostics_text : DiagStatus → List ℕ → List ℕ
unfolding uptime_text
diagnostics_text status event_log = texts (
    codes "{"
    ∷ uptime_text status
    ∷ codes ",\"heap\":{\"free\":"
    ∷ decimal status.heap.free
    ∷ codes ",\"minimum_free\":"
    ∷ decimal status.heap.minimum_free
    ∷ codes ",\"free_8bit\":"
    ∷ decimal status.heap.free_8bit
    ∷ codes ",\"minimum_free_8bit\":"
    ∷ decimal status.heap.minimum_free_8bit
    ∷ codes ",\"largest_free_8bit_block\":"
    ∷ decimal status.heap.largest_free_8bit_block
    ∷ codes "},\"event_log\":"
    ∷ event_log
    ∷ codes "}"
    ∷ [])

unfoldable pub can_state_name : ℕ → List ℕ
unfolding codes
can_state_name state =
    if state == 0
    then codes "active"
    else if state == 1
    then codes "warning"
    else if state == 2
    then codes "passive"
    else if state == 3
    then codes "bus_off"
    else codes "unknown"

unfoldable pub can_text : CanDiagnostics → List ℕ
unfolding texts codes decimal json_bool can_state_name
can_text diag = texts (
    codes "{\"ready\":"
    ∷ json_bool diag.ready
    ∷ codes ",\"timing\":{\"arb_sample_point_permill\":"
    ∷ decimal diag.arbitration_sample_point_permill
    ∷ codes ",\"data_sample_point_permill\":"
    ∷ decimal diag.data_sample_point_permill
    ∷ codes ",\"data_ssp_permill\":"
    ∷ decimal diag.data_ssp_permill
    ∷ codes "},\"node\":{\"state\":{\"value\":"
    ∷ decimal diag.node.state
    ∷ codes ",\"name\":\""
    ∷ can_state_name diag.node.state
    ∷ codes "\"},\"tx_error_count\":"
    ∷ decimal diag.node.tx_error_count
    ∷ codes ",\"rx_error_count\":"
    ∷ decimal diag.node.rx_error_count
    ∷ codes ",\"tx_queue_remaining\":"
    ∷ decimal diag.node.tx_queue_remaining
    ∷ codes ",\"bus_error_count\":"
    ∷ decimal diag.node.bus_err_num
    ∷ codes "},\"counters\":{\"rx_queue_overflow\":"
    ∷ decimal diag.rx_queue_overflow_count
    ∷ codes ",\"error_events\":"
    ∷ decimal diag.error_event_count
    ∷ codes ",\"state_changes\":"
    ∷ decimal diag.state_change_count
    ∷ codes ",\"tx_failures\":"
    ∷ decimal diag.tx_failure_count
    ∷ codes "},\"last\":{\"error_flags\":"
    ∷ decimal diag.last_error_flags
    ∷ codes ",\"tx_failure_id\":"
    ∷ decimal diag.last_tx_failure_id
    ∷ codes "},\"state_entries\":{\"active\":"
    ∷ decimal (get_or diag.state_entry_count 0 0)
    ∷ codes ",\"warning\":"
    ∷ decimal (get_or diag.state_entry_count 1 0)
    ∷ codes ",\"passive\":"
    ∷ decimal (get_or diag.state_entry_count 2 0)
    ∷ codes ",\"bus_off\":"
    ∷ decimal (get_or diag.state_entry_count 3 0)
    ∷ codes "}}"
    ∷ [])

-- `interval_ms` is the telemetry interval.
unfoldable pub info_text : Build → ℕ → List ℕ
unfolding texts codes decimal json_bool
info_text build interval_ms = texts (
    codes "{\"version\":\"0.6.1\",\"about\":\"MEB preheat CAN controller\",\"protocol_version\":2,"
    ∷ codes "\"release_build\":"
    ∷ json_bool build.production
    ∷ codes ",\"build_mode\":\""
    ∷ (if build.production then codes "production" else codes "development")
    ∷ codes "\",\"serial\":{\"uart\":0,\"baud_rate\":115200,\"tx_gpio\":11,\"rx_gpio\":12},"
    ∷ codes "\"ble\":{\"name\":\"MEB-Preheat\","
    ∷ codes "\"service_uuid\":\"7e57c000-f8aa-4a1f-9af3-9c0b7fd90e00\","
    ∷ codes "\"rx_uuid\":\"7e57c001-f8aa-4a1f-9af3-9c0b7fd90e00\","
    ∷ codes "\"tx_uuid\":\"7e57c002-f8aa-4a1f-9af3-9c0b7fd90e00\"},\"telemetry_interval_ms\":"
    ∷ decimal interval_ms
    ∷ codes ",\"heating\":{\"safety_auto_off_enabled\":"
    ∷ json_bool build.safety.enabled
    ∷ codes ",\"safety_auto_off_minutes\":"
    ∷ decimal build.safety.minutes
    ∷ codes "},\"can\":{\"tx_gpio\":4,\"rx_gpio\":5,\"bitrate\":500000,\"data_bitrate\":2000000}}"
    ∷ [])

module _ (P : Platform) (N : Nvs) (build : Build) (reads : Reads) where
  unfoldable pub handle_device_uptime : Bool → List ℕ → Machine P N → Outcome P N
  unfolding send_rpc_result uptime_text codes
  handle_device_uptime has_id id_token m =
      reply P N m
        (send_rpc_result has_id id_token (codes "{" ++ (uptime_text reads.status ++ codes "}")))

  unfoldable pub handle_device_reset : Bool → List ℕ → Machine P N → Outcome P N
  unfolding schedule_reboot send_rpc_error send_rpc_result codes
  handle_device_reset has_id id_token m =
      let (scheduled, m') = schedule_reboot P N reads device_reset_delay_ms m in
      if not scheduled
      then reply P N m' (send_rpc_error id_token server_error "Failed to schedule device reset")
      else reply P N m'
          (send_rpc_result has_id id_token (codes "{\"resetting\":true,\"delay_ms\":500}"))

  unfoldable pub handle_device_events : Bool → List ℕ → List ℕ → Machine P N → Outcome P N
  unfolding parse_optional_limit send_rpc_error send_rpc_result format_event_log_json get_events
  handle_device_events has_id id_token cmd m =
      given (parse_optional_limit cmd events_default_limit)
        (reply P N m (send_rpc_error id_token invalid_params "Expected params.limit integer"))
        (λ limit.
          given (format_event_log_json 1200 (get_events m.log) limit)
            (reply P N m
              (send_rpc_error id_token server_error "Diagnostics event response too large"))
            (λ event_log. reply P N m (send_rpc_result has_id id_token event_log)))

  unfoldable pub handle_device_diagnostics : Bool → List ℕ → List ℕ → Machine P N → Outcome P N
  unfolding parse_optional_limit send_rpc_error send_rpc_result format_event_log_json get_events
      diagnostics_text
  handle_device_diagnostics has_id id_token cmd m =
      given (parse_optional_limit cmd events_diagnostics_limit)
        (reply P N m (send_rpc_error id_token invalid_params "Expected params.limit integer"))
        (λ wanted.
          let limit =
            if ltb events_diagnostics_limit wanted then events_diagnostics_limit else wanted in
          given (format_event_log_json 900 (get_events m.log) limit)
            (reply P N m
              (send_rpc_error id_token server_error "Diagnostics event response too large"))
            (λ event_log.
              reply P N m
                (send_rpc_result has_id id_token (diagnostics_text reads.status event_log))))

  unfoldable pub handle_device_can_diagnostics : Bool → List ℕ → Machine P N → Outcome P N
  unfolding send_rpc_result can_text get_diagnostics
  handle_device_can_diagnostics has_id id_token m =
      reply P N m
        (send_rpc_result has_id id_token (can_text (get_diagnostics reads.node_info m.can)))

  unfoldable pub handle_device_info : Bool → List ℕ → Machine P N → Outcome P N
  unfolding send_rpc_result info_text
  handle_device_info has_id id_token m =
      reply P N m
        (send_rpc_result has_id id_token (info_text build m.control.telemetry_interval_ms))
