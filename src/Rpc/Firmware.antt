-- ===== src/Rpc/Firmware.antt =====
-- main/serial_console.c: the methods of `firmware.`, over the update session.
use Prim.Native.String.{String}
use meb_commander.Base.{ℕ, ◌+◌, Bool, not, List, [], ◌∷◌, some, if◌then◌else◌, given, codes}
use meb_commander.Base.Decimal.{decimal}
use meb_commander.Console.{parse_uint_value, parse_string_value}
use meb_commander.Esp.{
  EspErr, esp_ok, no_mem, invalid_arg, invalid_state, invalid_size, not_found, ota_checksum,
  ota_protocol, is_ok,
}
use meb_commander.Ota.Platform.{Platform}
use meb_commander.Ota.Session.{
  Device, OtaStatus, max_base64_chars, update_begin, update_write, update_end, update_cancel,
  get_status,
}
use meb_commander.Settings.{Nvs}
use meb_commander.Rpc.{
  invalid_params, server_error, send_rpc_error, send_rpc_result, json_bool, texts, snprintf,
}
use meb_commander.Rpc.Machine.{Reads, Machine, Outcome, reply, schedule_reboot}
use meb_commander.Rpc.Heating.{param}

-- meb_ota_update_err_message
abbrev pub err_message : EspErr → String
err_message esp_ok = "OK"
err_message invalid_arg = "Invalid OTA argument"
err_message invalid_size = "Invalid OTA size"
err_message invalid_state = "OTA update is not in the required state"
err_message not_found = "No OTA update partition available"
err_message no_mem = "Not enough memory for OTA update"
err_message ota_checksum = "Firmware SHA-256 mismatch"
err_message ota_protocol = "Unexpected firmware chunk offset or payload"
err_message _ = "OTA operation failed"

unfoldable pub send_ota_error : List ℕ → EspErr → List (List ℕ)
unfolding send_rpc_error
send_ota_error id_token e = send_rpc_error id_token server_error (err_message e)

unfoldable pub format_ota_status_result : ℕ → OtaStatus → List ℕ
unfolding texts codes decimal json_bool
format_ota_status_result buf_len status = snprintf buf_len (
    texts (
      codes "{\"active\":"
      ∷ json_bool status.active
      ∷ codes ",\"pending_reboot\":"
      ∷ json_bool status.pending_reboot
      ∷ codes ",\"written\":"
      ∷ decimal status.written
      ∷ codes ",\"expected_size\":"
      ∷ decimal status.expected_size
      ∷ codes ",\"partition\":\""
      ∷ status.partition_label
      ∷ codes "\",\"partition_size\":"
      ∷ decimal status.partition_size
      ∷ codes ",\"has_sha256\":"
      ∷ json_bool status.has_sha256
      ∷ codes ",\"max_base64_chars\":768}"
      ∷ []))

-- The result of `firmware.write`.
unfoldable pub chunk_text : ℕ → OtaStatus → List ℕ
unfolding texts codes decimal
chunk_text decoded_len status = texts (
    codes "{\"received\":"
    ∷ decimal decoded_len
    ∷ codes ",\"written\":"
    ∷ decimal status.written
    ∷ codes ",\"expected_size\":"
    ∷ decimal status.expected_size
    ∷ codes "}"
    ∷ [])

module _ (P : Platform) (N : Nvs) where
  unfoldable pub send_status : Bool → List ℕ → Device P → List (List ℕ)
  unfolding send_rpc_result format_ota_status_result get_status
  send_status has_id id_token d =
      send_rpc_result has_id id_token (format_ota_status_result 256 (get_status P d))

  -- The end of the handlers that change the session: the error, or the status.
  unfoldable pub finish_update : Bool → List ℕ → EspErr → Device P → Machine P N → Outcome P N
  unfolding send_status send_ota_error
  finish_update has_id id_token e d m =
      let m' = record m { ota = d } in
      if not (is_ok e)
      then reply P N m' (send_ota_error id_token e)
      else reply P N m' (send_status has_id id_token d)

  unfoldable pub handle_firmware_begin : Bool → List ℕ → List ℕ → Machine P N → Outcome P N
  unfolding param parse_uint_value parse_string_value finish_update send_rpc_error codes
      update_begin
  handle_firmware_begin has_id id_token cmd m =
      let refused =
        reply P N m
          (send_rpc_error id_token invalid_params "Expected params.size and params.sha256") in
      given (parse_uint_value (param cmd (codes "size"))) refused (λ size.
        given (parse_string_value (param cmd (codes "sha256")) 65) refused (λ sha256.
          let (e, d) = update_begin P size (some sha256) m.ota in
          finish_update has_id id_token e d m))

  unfoldable pub handle_firmware_write : Bool → List ℕ → List ℕ → Machine P N → Outcome P N
  unfolding param parse_uint_value parse_string_value send_ota_error send_rpc_error send_rpc_result
      codes update_write chunk_text get_status
  handle_firmware_write has_id id_token cmd m =
      let refused =
        reply P N m
          (send_rpc_error id_token invalid_params "Expected params.offset and params.data") in
      given (parse_uint_value (param cmd (codes "offset"))) refused (λ offset.
        given (parse_string_value (param cmd (codes "data")) (max_base64_chars + 1)) refused
          (λ text.
            let (e, decoded_len, d) = update_write P offset (some text) m.ota in
            let m' = record m { ota = d } in
            if not (is_ok e)
            then reply P N m' (send_ota_error id_token e)
            else reply P N m'
                (send_rpc_result has_id id_token (chunk_text decoded_len (get_status P d)))))

  unfoldable pub handle_firmware_end : Bool → List ℕ → Machine P N → Outcome P N
  unfolding finish_update update_end
  handle_firmware_end has_id id_token m =
      let (e, d) = update_end P m.ota in finish_update has_id id_token e d m

  unfoldable pub handle_firmware_cancel : Bool → List ℕ → Machine P N → Outcome P N
  unfolding finish_update update_cancel
  handle_firmware_cancel has_id id_token m =
      let (e, d) = update_cancel P m.ota in finish_update has_id id_token e d m

  unfoldable pub handle_firmware_status : Bool → List ℕ → Machine P N → Outcome P N
  unfolding send_status
  handle_firmware_status has_id id_token m = reply P N m (send_status has_id id_token m.ota)

  unfoldable pub handle_firmware_reboot : Reads → Bool → List ℕ → Machine P N → Outcome P N
  unfolding send_ota_error send_rpc_result codes get_status
  handle_firmware_reboot reads has_id id_token m =
      let (scheduled, m') = schedule_reboot P N reads 500 m in
      if not (get_status P m.ota).pending_reboot
      then reply P N m (send_ota_error id_token invalid_state)
      else if not scheduled
      then reply P N m' (send_ota_error id_token no_mem)
      else reply P N m' (send_rpc_result has_id id_token (codes "{\"rebooting\":true}"))
