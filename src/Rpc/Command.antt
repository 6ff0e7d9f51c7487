-- ===== src/Rpc/Command.antt =====
-- main/serial_console.c: `meb_serial_console_process_command`, and the task that reads commands from
-- the UART.
use meb_commander.Base.{
  ℕ, Bool, false, not, List, [], ◌∷◌, Option, none, ◌==◌, if◌then◌else◌, codes, bytes_eq, given,
}
use meb_commander.Console.{skip_ws, parse_required_string_key}
use meb_commander.Ota.Platform.{Platform}
use meb_commander.Settings.{Nvs}
use meb_commander.Rpc.{
  id_buf_size, method_buf_size, invalid_request, method_not_found, parse_id_token, send_rpc_error,
}
use meb_commander.Rpc.Machine.{Reads, Build, Machine, Outcome, reply}
use meb_commander.Rpc.Heating.{
  handle_heating_set, handle_heating_get, handle_heating_set_auto_off_timer,
}
use meb_commander.Rpc.Telemetry.{handle_telemetry_set_interval}
use meb_commander.Rpc.Device.{
  handle_device_info, handle_device_uptime, handle_device_reset, handle_device_diagnostics,
  handle_device_can_diagnostics, handle_device_events,
}
use meb_commander.Rpc.Firmware.{
  handle_firmware_begin, handle_firmware_write, handle_firmware_end, handle_firmware_cancel,
  handle_firmware_status, handle_firmware_reboot,
}

-- The first char that is not blank is `{`.
unfoldable pub starts_object : List ℕ → Bool
unfolding skip_ws
starts_object cmd = elim (skip_ws cmd) [ [] ↦ false | c ∷ rest ↦ c == b'{' ]

-- The method of a request, where it is one of JSON-RPC 2.0.
unfoldable pub request_method : List ℕ → Option (List ℕ)
unfolding parse_required_string_key codes bytes_eq
request_method cmd = given (parse_required_string_key cmd (codes "jsonrpc") 8) none (λ jsonrpc.
    if bytes_eq jsonrpc (codes "2.0")
    then parse_required_string_key cmd (codes "method") method_buf_size
    else none)

module _ (P : Platform) (N : Nvs) (build : Build) (reads : Reads) where
  -- The chain of `strcmp`.
  unfoldable pub dispatch : List ℕ → Bool → List ℕ → List ℕ → Machine P N → Outcome P N
  unfolding bytes_eq codes send_rpc_error handle_heating_set handle_heating_get
      handle_heating_set_auto_off_timer handle_telemetry_set_interval handle_device_info
      handle_device_uptime handle_device_reset handle_device_diagnostics
      handle_device_can_diagnostics handle_device_events handle_firmware_begin handle_firmware_write
      handle_firmware_end handle_firmware_cancel handle_firmware_status handle_firmware_reboot
  dispatch method has_id id_token cmd m =
      if bytes_eq method (codes "heating.set")
      then handle_heating_set P N build reads has_id id_token cmd m
      else if bytes_eq method (codes "heating.get")
      then handle_heating_get P N build reads has_id id_token m
      else if bytes_eq method (codes "heating.set_auto_off_timer")
      then handle_heating_set_auto_off_timer P N build reads has_id id_token cmd m
      else if bytes_eq method (codes "device.info")
      then handle_device_info P N build reads has_id id_token m
      else if bytes_eq method (codes "device.uptime")
      then handle_device_uptime P N build reads has_id id_token m
      else if bytes_eq method (codes "device.reset")
      then handle_device_reset P N build reads has_id id_token m
      else if bytes_eq method (codes "device.diagnostics")
      then handle_device_diagnostics P N build reads has_id id_token cmd m
      else if bytes_eq method (codes "device.can_diagnostics")
      then handle_device_can_diagnostics P N build reads has_id id_token m
      else if bytes_eq method (codes "device.events")
      then handle_device_events P N build reads has_id id_token cmd m
      else if bytes_eq method (codes "telemetry.set_interval")
      then handle_telemetry_set_interval P N has_id id_token cmd m
      else if bytes_eq method (codes "firmware.begin")
      then handle_firmware_begin P N has_id id_token cmd m
      else if bytes_eq method (codes "firmware.write")
      then handle_firmware_write P N has_id id_token cmd m
      else if bytes_eq method (codes "firmware.end")
      then handle_firmware_end P N has_id id_token m
      else if bytes_eq method (codes "firmware.cancel")
      then handle_firmware_cancel P N has_id id_token m
      else if bytes_eq method (codes "firmware.status")
      then handle_firmware_status P N has_id id_token m
      else if bytes_eq method (codes "firmware.reboot")
      then handle_firmware_reboot P N reads has_id id_token m
      else reply P N m (send_rpc_error id_token method_not_found "Method not found")

  -- meb_serial_console_process_command
  unfoldable pub process_command : List ℕ → Machine P N → Outcome P N
  unfolding starts_object parse_id_token request_method dispatch codes
  process_command cmd m =
      if not (starts_object cmd)
      then reply P N m []
      else given (parse_id_token cmd id_buf_size)
          (reply P N m (send_rpc_error (codes "null") invalid_request "Invalid id"))
          (λ (has_id, id_token).
            given (request_method cmd)
              (reply P N m
                (send_rpc_error id_token invalid_request "Expected JSON-RPC 2.0 request"))
              (λ method. dispatch method has_id id_token cmd m))
