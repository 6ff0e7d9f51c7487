-- ===== src/Rpc/Processed.antt =====
-- What `meb_serial_console_process_command` of main/serial_console.c does with any command.
use meb_commander.Base.{
  ℕ, ◌≡◌, ◌≢◌, ◌≤◌, refl, ap, Bool, true, List, Option, none, some, if◌then◌else◌, given, length,
  codes, arith, All, not, if-elim, given-elim, ◌$◌, ◌∙◌, bytes_eq, bytes_eq→eq, given-cases,
}
use meb_commander.Console.{find_key_value}
use meb_commander.Ota.Platform.{Platform}
use meb_commander.Settings.{Nvs}
use meb_commander.Rpc.{
  id_buf_size, invalid_request, method_not_found, parse_id_token, send_rpc_error,
}
use meb_commander.Rpc.Ids.{parse_id_token-some, reply_id, reply_id-none, reply_id-some}
use meb_commander.Rpc.Machine.{Reads, Build, Machine, Outcome, reply}
use meb_commander.Rpc.Command.{starts_object, request_method, dispatch, process_command}
use meb_commander.Rpc.Change.{Change, unchanged}
use meb_commander.Rpc.Answers.{length-decimal_ℤ, IsReply}
use meb_commander.Rpc.Handled.{
  Handled, error-Handled, handle_heating_set-Handled, handle_heating_get-Handled,
  handle_heating_set_auto_off_timer-Handled, handle_telemetry_set_interval-Handled,
}
use meb_commander.Rpc.Handled.DeviceMethods.{
  handle_device_info-Handled, handle_device_uptime-Handled, handle_device_reset-Handled,
  handle_device_diagnostics-Handled, handle_device_can_diagnostics-Handled,
  handle_device_events-Handled,
}
use meb_commander.Rpc.Handled.FirmwareMethods.{
  handle_firmware_begin-Handled, handle_firmware_write-Handled, handle_firmware_end-Handled,
  handle_firmware_cancel-Handled, handle_firmware_status-Handled, handle_firmware_reboot-Handled,
}

-- How many replies a command is to have at least: one, if it is an object with a key `id`.
unfoldable pub wanted_replies : List ℕ → ℕ
wanted_replies cmd =
    if starts_object cmd then given (find_key_value cmd (codes "id")) 0 (λ value. 1) else 0

some_found : {o : Option (List ℕ)} (value : List ℕ) → o ≡ some value → o ≢ none
some_found value found missing = absurd (ground (arith, found, missing))

module _ (P : Platform) (N : Nvs) (build : Build) (reads : Reads) where
  dispatch-Handled :
      (method : List ℕ) (has_id : Bool) (id_token cmd : List ℕ) (m : Machine P N)
      → length id_token ≤ 63
      → request_method cmd ≡ some method
      → Handled P N reads cmd m has_id id_token
          (dispatch P N build reads method has_id id_token cmd m)
  unfolding dispatch
  dispatch-Handled method has_id id_token cmd m h asked =
      case (codes "heating.set")
        (handle_heating_set-Handled P N build reads has_id id_token cmd m h)
      $ case (codes "heating.get")
          (λ e. handle_heating_get-Handled P N build reads has_id id_token cmd m h)
      $ case (codes "heating.set_auto_off_timer")
          (handle_heating_set_auto_off_timer-Handled P N build reads has_id id_token cmd m h)
      $ case (codes "device.info")
          (λ e. handle_device_info-Handled P N build reads has_id id_token cmd m h)
      $ case (codes "device.uptime")
          (λ e. handle_device_uptime-Handled P N build reads has_id id_token cmd m h)
      $ case (codes "device.reset")
          (handle_device_reset-Handled P N build reads has_id id_token cmd m h)
      $ case (codes "device.diagnostics")
          (λ e. handle_device_diagnostics-Handled P N build reads has_id id_token cmd m h)
      $ case (codes "device.can_diagnostics")
          (λ e. handle_device_can_diagnostics-Handled P N build reads has_id id_token cmd m h)
      $ case (codes "device.events")
          (λ e. handle_device_events-Handled P N build reads has_id id_token cmd m h)
      $ case (codes "telemetry.set_interval")
          (handle_telemetry_set_interval-Handled P N build reads has_id id_token cmd m h)
      $ case (codes "firmware.begin")
          (handle_firmware_begin-Handled P N build reads has_id id_token cmd m h)
      $ case (codes "firmware.write")
          (handle_firmware_write-Handled P N build reads has_id id_token cmd m h)
      $ case (codes "firmware.end")
          (handle_firmware_end-Handled P N build reads has_id id_token cmd m h)
      $ case (codes "firmware.cancel")
          (handle_firmware_cancel-Handled P N build reads has_id id_token cmd m h)
      $ case (codes "firmware.status")
          (λ e. handle_firmware_status-Handled P N build reads has_id id_token cmd m h)
      $ case (codes "firmware.reboot")
          (handle_firmware_reboot-Handled P N build reads has_id id_token cmd m h)
      $ (error-Handled P N build reads has_id id_token cmd m h method_not_found "Method not found" m
          unchanged length-decimal_ℤ.1 (omega arith))
    where
      F : Outcome P N → Type 0
      F r = Handled P N reads cmd m has_id id_token r

      case :
          (name : List ℕ) {x y : Outcome P N}
          → (request_method cmd ≡ some name → F x)
          → F y
          → F (if bytes_eq method name then x else y)
      case name f g =
          if-elim F (bytes_eq method name)
            (λ e. f (asked ∙ ap (λ (v : List ℕ). some v) (bytes_eq→eq method name e))) (λ e. g)

  -- What a command does: at most one change; a reply at most, and one if the command is an object with
  -- a key `id`; and the reply is whole and has the command's id.
  record Processed (cmd : List ℕ) (m : Machine P N) (r : Outcome P N) : Type 0 where
    change : Change P N reads cmd m r.machine
    once : starts_object cmd ≡ true → find_key_value cmd (codes "id") ≢ none → length r.lines ≡ 1
    most : length r.lines ≤ 1
    whole : All (IsReply (reply_id cmd)) r.lines

  -- Where the id was read as `id_token`.
  Handled-Processed :
      (cmd : List ℕ) (m : Machine P N) (has_id : Bool) (id_token : List ℕ) (r : Outcome P N)
      → (find_key_value cmd (codes "id") ≢ none → has_id ≡ true)
      → reply_id cmd ≡ id_token
      → Handled P N reads cmd m has_id id_token r
      → Processed cmd m r
  Handled-Processed cmd m has_id id_token r known same handled = record {
    change = handled.change;
    once = λ object key. handled.answers.once (known key);
    most = handled.answers.most;
    whole = rw same handled.answers.whole;
  }

  process_command-Processed :
      (cmd : List ℕ) (m : Machine P N) → Processed cmd m (process_command P N build reads cmd m)
  unfolding process_command codes
  process_command-Processed cmd m =
      if-elim (Processed cmd m) (not (starts_object cmd))
        (λ other. record {
          change = unchanged;
          once = λ object. absurd (ground (arith, object, other));
          most = omega arith;
          whole = tt;
        })
        (λ object.
          given-cases (Processed cmd m) (parse_id_token cmd id_buf_size)
            (λ bad.
              let same : reply_id cmd ≡ codes "null" = reply_id-none cmd bad in
              Handled-Processed cmd m true (codes "null")
                (reply P N m (send_rpc_error (codes "null") invalid_request "Invalid id"))
                (λ key. refl) same
                (error-Handled P N build reads true (codes "null") cmd m (omega arith)
                  invalid_request "Invalid id" m unchanged length-decimal_ℤ.0 (omega arith)))
            (λ (has_id, id_token) parsed.
              let ok = parse_id_token-some cmd has_id id_token parsed in
              let same : reply_id cmd ≡ id_token = reply_id-some cmd (has_id, id_token) parsed in
              given-elim (Processed cmd m) (request_method cmd)
                (Handled-Processed cmd m has_id id_token
                  (reply P N m
                    (send_rpc_error id_token invalid_request "Expected JSON-RPC 2.0 request"))
                  ok.1 same
                  (error-Handled P N build reads has_id id_token cmd m ok.0 invalid_request
                    "Expected JSON-RPC 2.0 request" m unchanged length-decimal_ℤ.0 (omega arith)))
                (λ method asked.
                  Handled-Processed cmd m has_id id_token
                    (dispatch P N build reads method has_id id_token cmd m) ok.1 same
                    (dispatch-Handled method has_id id_token cmd m ok.0 asked))))

  pub process_command-once :
      (cmd : List ℕ) (m : Machine P N)
      → starts_object cmd ≡ true
      → find_key_value cmd (codes "id") ≢ none
      → length (process_command P N build reads cmd m).lines ≡ 1
  process_command-once cmd m = (process_command-Processed cmd m).once

  -- Whatever the text of a command, at most one reply is printed, and exactly one if the command is an
  -- object with a key `id`; a reply is a whole line of fewer bytes than the output buffer, with the
  -- command's id, or null where the id is missing or cannot be read.
  pub process_command-answers :
      (cmd : List ℕ) (m : Machine P N)
      → let lines = (process_command P N build reads cmd m).lines in
        (wanted_replies cmd ≤ length lines)
        × (length lines ≤ 1)
        × All (IsReply (reply_id cmd)) lines
  unfolding wanted_replies
  process_command-answers cmd m =
      let p = process_command-Processed cmd m in
      let once = p.once in
      let enough : wanted_replies cmd ≤ length (process_command P N build reads cmd m).lines =
        if-elim (λ n. n ≤ length (process_command P N build reads cmd m).lines) (starts_object cmd)
          (λ object.
            given-elim (λ n. n ≤ length (process_command P N build reads cmd m).lines)
              (find_key_value cmd (codes "id")) (omega arith)
              (λ value found.
                omega (arith, process_command-once cmd m object (some_found value found))))
          (λ other. omega arith) in
      (enough, p.most, p.whole)

  -- A command changes the machine by at most one step of the module that its method belongs to, with
  -- the values of its parameters.
  pub process_command-Change :
      (cmd : List ℕ) (m : Machine P N)
      → Change P N reads cmd m (process_command P N build reads cmd m).machine
  process_command-Change cmd m = (process_command-Processed cmd m).change
