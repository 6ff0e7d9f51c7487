-- ===== src/Rpc/Handled.antt =====
-- What each method of main/serial_console.c does and replies: here the methods for heating and
-- telemetry.
pub mod DeviceMethods
pub mod FirmwareMethods
use meb_commander.Base.{
  ℕ, ◌≡◌, ◌≤◌, Bool, List, ◌++◌, some, if◌then◌else◌, length, codes, arith, not, ltb, if-elim,
  given-elim,
}
use meb_commander.Base.Int.{ℤ}
use meb_commander.Base.Decimal.{decimal_ℤ, decimal}
use meb_commander.Console.{
  parse_bool_value, parse_uint_value, parse_string_value, parse_optional_limit,
}
use meb_commander.Esp.{
  EspErr, esp_ok, esp_fail, no_mem, invalid_arg, invalid_state, invalid_size, not_found,
  not_supported, timeout, nvs_not_found, nvs_no_free_pages, nvs_new_version_found, ota_checksum,
  ota_protocol, other, is_ok,
}
use meb_commander.Ota.Platform.{Platform}
use meb_commander.Settings.{Nvs}
use meb_commander.State.{get_snapshot, set_heating_enabled, set_auto_off_timer_minutes}
use meb_commander.Rpc.{invalid_params, server_error, send_rpc_error, send_rpc_result, String}
use meb_commander.Rpc.Machine.{Reads, Build, Machine, Outcome, reply, schedule_reboot}
use meb_commander.Rpc.Heating.{
  param, heating_state, send_heating_state_result, handle_heating_set, handle_heating_get,
  handle_heating_set_auto_off_timer,
}
use meb_commander.Rpc.Telemetry.{is_invalid_arg, interval_lines, handle_telemetry_set_interval}
use meb_commander.Rpc.EventLog.{format_event_log_json}
use meb_commander.Rpc.Device.{
  info_text, uptime_text, can_text, diagnostics_text, events_default_limit,
  events_diagnostics_limit, handle_device_info, handle_device_uptime, handle_device_reset,
  handle_device_diagnostics, handle_device_can_diagnostics, handle_device_events,
}
use meb_commander.Rpc.Firmware.{
  err_message, send_ota_error, format_ota_status_result, chunk_text, send_status, finish_update,
  handle_firmware_begin, handle_firmware_write, handle_firmware_end, handle_firmware_cancel,
  handle_firmware_status, handle_firmware_reboot,
}
use meb_commander.Control.{set_interval}
use meb_commander.Diag.{get_events}
use meb_commander.Can.Diagnostics.{get_diagnostics}
use meb_commander.Ota.Session.{
  Device, get_status, update_begin, update_write, update_end, update_cancel,
}
use meb_commander.Rpc.Command.{request_method}
use meb_commander.Rpc.Change.{
  Change, unchanged, heating, auto_off_timer, interval, begin_update, write_chunk, end_update,
  cancel_update, reset, reboot,
}
use meb_commander.Rpc.Answers.{
  Answers, send_rpc_error-Answers, send_rpc_result-Answers, length-decimal_ℤ,
}

module _ (P : Platform) (N : Nvs) (reads : Reads) (cmd : List ℕ) (m : Machine P N) where
  -- A command makes at most one change and is answered.
  pub record Handled (has_id : Bool) (id_token : List ℕ) (r : Outcome P N) : Type 0 where
    pub change : Change P N reads cmd m r.machine
    pub answers : Answers has_id id_token r.lines

module _ (P : Platform) (N : Nvs) (build : Build) (reads : Reads) (has_id : Bool)
    (id_token cmd : List ℕ) (m : Machine P N) (h : length id_token ≤ 63) where
  pub error-Handled :
      (code : ℤ) (message : String) (m' : Machine P N)
      → Change P N reads cmd m m'
      → length (decimal_ℤ code) ≤ 8
      → length (codes message) ≤ 256
      → Handled P N reads cmd m has_id id_token
          (reply P N m' (send_rpc_error id_token code message))
  error-Handled code message m' change k l = record {
    change = change;
    answers = send_rpc_error-Answers has_id id_token code message h k l;
  }

  -- The errors on the parameters.
  pub refused-Handled :
      (message : String)
      → length (codes message) ≤ 256
      → Handled P N reads cmd m has_id id_token
          (reply P N m (send_rpc_error id_token invalid_params message))
  refused-Handled message l = error-Handled invalid_params message m unchanged length-decimal_ℤ.2 l

  pub result-Handled :
      (result : List ℕ) (m' : Machine P N)
      → Change P N reads cmd m m'
      → Handled P N reads cmd m has_id id_token
          (reply P N m' (send_rpc_result has_id id_token result))
  result-Handled result m' change = record {
    change = change;
    answers = send_rpc_result-Answers has_id id_token result h;
  }

  state-Answers :
      (m' : Machine P N)
      → Answers has_id id_token (send_heating_state_result P N build reads has_id id_token m')
  unfolding send_heating_state_result
  state-Answers m' =
      send_rpc_result-Answers has_id id_token
        (heating_state (get_snapshot build.safety reads.snapshot_us m'.state)) h

  pub handle_heating_set-Handled :
      request_method cmd ≡ some (codes "heating.set")
      → Handled P N reads cmd m has_id id_token
          (handle_heating_set P N build reads has_id id_token cmd m)
  unfolding handle_heating_set codes
  handle_heating_set-Handled asked =
      given-elim (Handled P N reads cmd m has_id id_token)
        (parse_bool_value (param cmd (codes "enabled")))
        (refused-Handled "Expected params.enabled boolean" (omega arith))
        (λ enabled parsed. record {
          change = heating enabled asked parsed;
          answers =
              state-Answers
                (record m { state = (set_heating_enabled enabled reads.set_us m.state).0 });
        })

  pub handle_heating_get-Handled :
      Handled P N reads cmd m has_id id_token (handle_heating_get P N build reads has_id id_token m)
  unfolding handle_heating_get
  handle_heating_get-Handled = record { change = unchanged; answers = state-Answers m }

  pub handle_heating_set_auto_off_timer-Handled :
      request_method cmd ≡ some (codes "heating.set_auto_off_timer")
      → Handled P N reads cmd m has_id id_token
          (handle_heating_set_auto_off_timer P N build reads has_id id_token cmd m)
  unfolding handle_heating_set_auto_off_timer codes
  handle_heating_set_auto_off_timer-Handled asked =
      given-elim (Handled P N reads cmd m has_id id_token)
        (parse_uint_value (param cmd (codes "minutes")))
        (refused-Handled "Expected params.minutes integer; 0 disables timer" (omega arith))
        (λ minutes parsed. record {
          change = auto_off_timer minutes asked parsed;
          answers =
              state-Answers
                (record m { state = (set_auto_off_timer_minutes minutes reads.set_us m.state).0 });
        })

  pub handle_telemetry_set_interval-Handled :
      request_method cmd ≡ some (codes "telemetry.set_interval")
      → Handled P N reads cmd m has_id id_token
          (handle_telemetry_set_interval P N has_id id_token cmd m)
  unfolding handle_telemetry_set_interval interval_lines codes
  handle_telemetry_set_interval-Handled asked =
      given-elim (Handled P N reads cmd m has_id id_token)
        (parse_uint_value (param cmd (codes "ms")))
        (refused-Handled "Expected params.ms integer" (omega arith))
        (λ ms parsed. record { change = interval ms asked parsed; answers = reported ms })
    where
      reported :
          (ms : ℕ)
          → Answers has_id id_token
              (interval_lines P N has_id id_token ms (set_interval N ms m.control).0)
      reported ms =
          if-elim (Answers has_id id_token) (is_invalid_arg (set_interval N ms m.control).0)
            (λ bad.
              send_rpc_error-Answers has_id id_token invalid_params
                "params.ms outside allowed range" h length-decimal_ℤ.2 (omega arith))
            (λ fine.
              if-elim (Answers has_id id_token) (not (is_ok (set_interval N ms m.control).0))
                (λ bad.
                  send_rpc_error-Answers has_id id_token server_error
                    "Failed to store telemetry interval" h length-decimal_ℤ.3 (omega arith))
                (λ good.
                  send_rpc_result-Answers has_id id_token
                    (codes "{\"interval_ms\":" ++ (decimal ms ++ codes "}")) h))
