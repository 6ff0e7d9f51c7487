-- ===== src/Rpc/Telemetry.antt =====
-- main/serial_console.c: the method telemetry.set_interval.
use meb_commander.Base.{ℕ, Bool, true, false, not, List, ◌++◌, if◌then◌else◌, given, codes}
use meb_commander.Base.Decimal.{decimal}
use meb_commander.Console.{parse_uint_value}
use meb_commander.Esp.{EspErr, invalid_arg, is_ok}
use meb_commander.Ota.Platform.{Platform}
use meb_commander.Settings.{Nvs}
use meb_commander.Control.{set_interval}
use meb_commander.Rpc.{invalid_params, server_error, send_rpc_error, send_rpc_result}
use meb_commander.Rpc.Machine.{Machine, Outcome, reply}
use meb_commander.Rpc.Heating.{param}

-- `err == ESP_ERR_INVALID_ARG`
abbrev pub is_invalid_arg : EspErr → Bool
is_invalid_arg invalid_arg = true
is_invalid_arg _ = false

module _ (P : Platform) (N : Nvs) where
  -- The reply to the result of `meb_control_set_telemetry_interval_ms`.
  unfoldable pub interval_lines : Bool → List ℕ → ℕ → EspErr → List (List ℕ)
  unfolding send_rpc_error send_rpc_result codes decimal
  interval_lines has_id id_token interval_ms e =
      if is_invalid_arg e
      then send_rpc_error id_token invalid_params "params.ms outside allowed range"
      else if not (is_ok e)
      then send_rpc_error id_token server_error "Failed to store telemetry interval"
      else send_rpc_result has_id id_token
          (codes "{\"interval_ms\":" ++ (decimal interval_ms ++ codes "}"))

  unfoldable pub handle_telemetry_set_interval : Bool → List ℕ → List ℕ → Machine P N → Outcome P N
  unfolding param parse_uint_value send_rpc_error interval_lines codes
  handle_telemetry_set_interval has_id id_token cmd m =
      given (parse_uint_value (param cmd (codes "ms")))
        (reply P N m (send_rpc_error id_token invalid_params "Expected params.ms integer"))
        (λ interval_ms.
          let (e, events, control) = set_interval N interval_ms m.control in
          record {
            machine = record m { control = control };
            events = events;
            lines = interval_lines has_id id_token interval_ms e;
          })
