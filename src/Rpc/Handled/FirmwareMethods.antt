-- ===== src/Rpc/Handled/FirmwareMethods.antt =====
-- What the methods of `firmware.` of main/serial_console.c do and reply.
use meb_commander.Base.{
  ℕ, ◌≡◌, ◌≤◌, Bool, List, some, length, codes, arith, not, if-elim, given-elim,
}
use meb_commander.Console.{parse_uint_value, parse_string_value}
use meb_commander.Esp.{
  EspErr, esp_ok, esp_fail, no_mem, invalid_arg, invalid_state, invalid_size, not_found,
  not_supported, timeout, nvs_not_found, nvs_no_free_pages, nvs_new_version_found, ota_checksum,
  ota_protocol, other, is_ok,
}
use meb_commander.Ota.Platform.{Platform}
use meb_commander.Settings.{Nvs}
use meb_commander.Rpc.{invalid_params, server_error, send_rpc_error}
use meb_commander.Rpc.Machine.{Reads, Build, Machine, reply, schedule_reboot}
use meb_commander.Rpc.Heating.{param}
use meb_commander.Rpc.Firmware.{
  err_message, send_ota_error, format_ota_status_result, chunk_text, send_status, finish_update,
  handle_firmware_begin, handle_firmware_write, handle_firmware_end, handle_firmware_cancel,
  handle_firmware_status, handle_firmware_reboot,
}
use meb_commander.Ota.Session.{
  Device, get_status, update_begin, update_write, update_end, update_cancel,
}
use meb_commander.Rpc.Command.{request_method}
use meb_commander.Rpc.Change.{
  Change, unchanged, begin_update, write_chunk, end_update, cancel_update, reboot,
}
use meb_commander.Rpc.Handled.{Handled, error-Handled, refused-Handled, result-Handled}
use meb_commander.Rpc.Answers.{length-decimal_ℤ}

module _ (P : Platform) (N : Nvs) (build : Build) (reads : Reads) (has_id : Bool)
    (id_token cmd : List ℕ) (m : Machine P N) (h : length id_token ≤ 63) where
  -- What the update session answers.
  length-err_message : (e : EspErr) → length (codes (err_message e)) ≤ 256
  unfolding codes
  length-err_message esp_ok = omega arith
  length-err_message invalid_arg = omega arith
  length-err_message invalid_size = omega arith
  length-err_message invalid_state = omega arith
  length-err_message not_found = omega arith
  length-err_message no_mem = omega arith
  length-err_message ota_checksum = omega arith
  length-err_message ota_protocol = omega arith
  length-err_message esp_fail = omega arith
  length-err_message not_supported = omega arith
  length-err_message timeout = omega arith
  length-err_message nvs_not_found = omega arith
  length-err_message nvs_no_free_pages = omega arith
  length-err_message nvs_new_version_found = omega arith
  length-err_message (other n) = omega arith

  ota_error-Handled :
      (e : EspErr) (m' : Machine P N)
      → Change P N reads cmd m m'
      → Handled P N reads cmd m has_id id_token (reply P N m' (send_ota_error id_token e))
  unfolding send_ota_error
  ota_error-Handled e m' change =
      error-Handled P N build reads has_id id_token cmd m h server_error (err_message e) m' change
        length-decimal_ℤ.3 (length-err_message e)

  status-Handled :
      (m' : Machine P N)
      → Change P N reads cmd m m'
      → Handled P N reads cmd m has_id id_token
          (reply P N m' (send_status P N has_id id_token m'.ota))
  unfolding send_status
  status-Handled m' change =
      result-Handled P N build reads has_id id_token cmd m h
        (format_ota_status_result 256 (get_status P m'.ota)) m' change

  finish_update-Handled :
      (e : EspErr) (d : Device P)
      → Change P N reads cmd m (record m { ota = d })
      → Handled P N reads cmd m has_id id_token (finish_update P N has_id id_token e d m)
  unfolding finish_update
  finish_update-Handled e d change =
      if-elim (Handled P N reads cmd m has_id id_token) (not (is_ok e))
        (λ bad. ota_error-Handled e (record m { ota = d }) change)
        (λ good. status-Handled (record m { ota = d }) change)

  pub handle_firmware_begin-Handled :
      request_method cmd ≡ some (codes "firmware.begin")
      → Handled P N reads cmd m has_id id_token (handle_firmware_begin P N has_id id_token cmd m)
  unfolding handle_firmware_begin codes
  handle_firmware_begin-Handled asked =
      given-elim (Handled P N reads cmd m has_id id_token)
        (parse_uint_value (param cmd (codes "size"))) refused
        (λ size parsed.
          given-elim (Handled P N reads cmd m has_id id_token)
            (parse_string_value (param cmd (codes "sha256")) 65) refused
            (λ sha256 found.
              let (e, d) = update_begin P size (some sha256) m.ota in
              finish_update-Handled e d (begin_update size sha256 asked parsed found)))
    where
      refused : Handled P N reads cmd m has_id id_token (
          reply P N m
            (send_rpc_error id_token invalid_params "Expected params.size and params.sha256"))
      refused =
          refused-Handled P N build reads has_id id_token cmd m h
            "Expected params.size and params.sha256" (omega arith)

  pub handle_firmware_write-Handled :
      request_method cmd ≡ some (codes "firmware.write")
      → Handled P N reads cmd m has_id id_token (handle_firmware_write P N has_id id_token cmd m)
  unfolding handle_firmware_write codes
  handle_firmware_write-Handled asked =
      given-elim (Handled P N reads cmd m has_id id_token)
        (parse_uint_value (param cmd (codes "offset"))) refused
        (λ offset parsed.
          given-elim (Handled P N reads cmd m has_id id_token)
            (parse_string_value (param cmd (codes "data")) 769) refused
            (λ text found.
              let (e, decoded_len, d) = update_write P offset (some text) m.ota in
              let change = write_chunk offset text asked parsed found in
              if-elim (Handled P N reads cmd m has_id id_token) (not (is_ok e))
                (λ bad. ota_error-Handled e (record m { ota = d }) change)
                (λ good.
                  result-Handled P N build reads has_id id_token cmd m h
                    (chunk_text decoded_len (get_status P d)) (record m { ota = d }) change)))
    where
      refused : Handled P N reads cmd m has_id id_token (
          reply P N m
            (send_rpc_error id_token invalid_params "Expected params.offset and params.data"))
      refused =
          refused-Handled P N build reads has_id id_token cmd m h
            "Expected params.offset and params.data" (omega arith)

  pub handle_firmware_end-Handled :
      request_method cmd ≡ some (codes "firmware.end")
      → Handled P N reads cmd m has_id id_token (handle_firmware_end P N has_id id_token m)
  unfolding handle_firmware_end
  handle_firmware_end-Handled asked =
      let (e, d) = update_end P m.ota in finish_update-Handled e d (end_update asked)

  pub handle_firmware_cancel-Handled :
      request_method cmd ≡ some (codes "firmware.cancel")
      → Handled P N reads cmd m has_id id_token (handle_firmware_cancel P N has_id id_token m)
  unfolding handle_firmware_cancel
  handle_firmware_cancel-Handled asked =
      let (e, d) = update_cancel P m.ota in finish_update-Handled e d (cancel_update asked)

  pub handle_firmware_status-Handled :
      Handled P N reads cmd m has_id id_token (handle_firmware_status P N has_id id_token m)
  unfolding handle_firmware_status
  handle_firmware_status-Handled = status-Handled m unchanged

  pub handle_firmware_reboot-Handled :
      request_method cmd ≡ some (codes "firmware.reboot")
      → Handled P N reads cmd m has_id id_token (handle_firmware_reboot P N reads has_id id_token m)
  unfolding handle_firmware_reboot codes get_status
  handle_firmware_reboot-Handled asked =
      let (scheduled, m') = schedule_reboot P N reads 500 m in
      if-elim (Handled P N reads cmd m has_id id_token) (not m.ota.ota.pending_reboot)
        (λ idle. ota_error-Handled invalid_state m unchanged)
        (λ pending.
          let change = reboot asked (ground (arith, pending)) in
          if-elim (Handled P N reads cmd m has_id id_token) (not scheduled)
            (λ bad. ota_error-Handled no_mem m' change)
            (λ good.
              result-Handled P N build reads has_id id_token cmd m h (codes "{\"rebooting\":true}")
                m' change))
