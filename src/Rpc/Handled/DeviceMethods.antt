-- ===== src/Rpc/Handled/DeviceMethods.antt =====
-- What the methods of `device.` of main/serial_console.c do and reply.
use meb_commander.Base.{
  ℕ, ◌≡◌, ◌≤◌, Bool, List, ◌++◌, some, if◌then◌else◌, length, codes, arith, not, ltb, if-elim,
  given-elim,
}
use meb_commander.Console.{parse_optional_limit}
use meb_commander.Ota.Platform.{Platform}
use meb_commander.Settings.{Nvs}
use meb_commander.Rpc.{server_error, send_rpc_error}
use meb_commander.Rpc.Machine.{Reads, Build, Machine, reply, schedule_reboot}
use meb_commander.Rpc.EventLog.{format_event_log_json}
use meb_commander.Rpc.Device.{
  info_text, uptime_text, can_text, diagnostics_text, events_default_limit,
  events_diagnostics_limit, handle_device_info, handle_device_uptime, handle_device_reset,
  handle_device_diagnostics, handle_device_can_diagnostics, handle_device_events,
}
use meb_commander.Diag.{get_events}
use meb_commander.Can.Diagnostics.{get_diagnostics}
use meb_commander.Rpc.Command.{request_method}
use meb_commander.Rpc.Change.{unchanged, reset}
use meb_commander.Rpc.Handled.{Handled, error-Handled, refused-Handled, result-Handled}
use meb_commander.Rpc.Answers.{length-decimal_ℤ}

module _ (P : Platform) (N : Nvs) (build : Build) (reads : Reads) (has_id : Bool)
    (id_token cmd : List ℕ) (m : Machine P N) (h : length id_token ≤ 63) where
  pub handle_device_info-Handled :
      Handled P N reads cmd m has_id id_token (handle_device_info P N build reads has_id id_token m)
  unfolding handle_device_info
  handle_device_info-Handled =
      result-Handled P N build reads has_id id_token cmd m h
        (info_text build m.control.telemetry_interval_ms) m unchanged

  pub handle_device_uptime-Handled :
      Handled P N reads cmd m has_id id_token
        (handle_device_uptime P N build reads has_id id_token m)
  unfolding handle_device_uptime
  handle_device_uptime-Handled =
      result-Handled P N build reads has_id id_token cmd m h
        (codes "{" ++ (uptime_text reads.status ++ codes "}")) m unchanged

  pub handle_device_can_diagnostics-Handled :
      Handled P N reads cmd m has_id id_token
        (handle_device_can_diagnostics P N build reads has_id id_token m)
  unfolding handle_device_can_diagnostics
  handle_device_can_diagnostics-Handled =
      result-Handled P N build reads has_id id_token cmd m h
        (can_text (get_diagnostics reads.node_info m.can)) m unchanged

  pub handle_device_reset-Handled :
      request_method cmd ≡ some (codes "device.reset")
      → Handled P N reads cmd m has_id id_token
          (handle_device_reset P N build reads has_id id_token m)
  unfolding handle_device_reset codes
  handle_device_reset-Handled asked =
      let (scheduled, m') = schedule_reboot P N reads 500 m in
      if-elim (Handled P N reads cmd m has_id id_token) (not scheduled)
        (λ bad.
          error-Handled P N build reads has_id id_token cmd m h server_error
            "Failed to schedule device reset" m' (reset asked) length-decimal_ℤ.3 (omega arith))
        (λ good.
          result-Handled P N build reads has_id id_token cmd m h
            (codes "{\"resetting\":true,\"delay_ms\":500}") m' (reset asked))

  too_large-Handled :
      Handled P N reads cmd m has_id id_token
        (reply P N m (send_rpc_error id_token server_error "Diagnostics event response too large"))
  unfolding codes
  too_large-Handled =
      error-Handled P N build reads has_id id_token cmd m h server_error
        "Diagnostics event response too large" m unchanged length-decimal_ℤ.3 (omega arith)

  pub handle_device_events-Handled :
      Handled P N reads cmd m has_id id_token
        (handle_device_events P N build reads has_id id_token cmd m)
  unfolding handle_device_events codes
  handle_device_events-Handled =
      given-elim (Handled P N reads cmd m has_id id_token)
        (parse_optional_limit cmd events_default_limit)
        (refused-Handled P N build reads has_id id_token cmd m h "Expected params.limit integer"
          (omega arith))
        (λ limit parsed.
          given-elim (Handled P N reads cmd m has_id id_token)
            (format_event_log_json 1200 (get_events m.log) limit) too_large-Handled
            (λ event_log fits.
              result-Handled P N build reads has_id id_token cmd m h event_log m unchanged))

  pub handle_device_diagnostics-Handled :
      Handled P N reads cmd m has_id id_token
        (handle_device_diagnostics P N build reads has_id id_token cmd m)
  unfolding handle_device_diagnostics codes
  handle_device_diagnostics-Handled =
      given-elim (Handled P N reads cmd m has_id id_token)
        (parse_optional_limit cmd events_diagnostics_limit)
        (refused-Handled P N build reads has_id id_token cmd m h "Expected params.limit integer"
          (omega arith))
        (λ wanted parsed.
          given-elim (Handled P N reads cmd m has_id id_token)
            (format_event_log_json 900 (get_events m.log)
              (if ltb events_diagnostics_limit wanted then events_diagnostics_limit else wanted))
            too_large-Handled
            (λ event_log fits.
              result-Handled P N build reads has_id id_token cmd m h
                (diagnostics_text reads.status event_log) m unchanged))
