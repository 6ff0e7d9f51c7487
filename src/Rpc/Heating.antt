-- ===== src/Rpc/Heating.antt =====
-- main/serial_console.c: the methods heating.set, heating.get and heating.set_auto_off_timer.
use meb_commander.Base.{
  ℕ, Bool, List, [], ◌∷◌, Option, none, some, ◌==◌, if◌then◌else◌, given, codes,
}
use meb_commander.Base.Decimal.{decimal}
use meb_commander.Console.{find_key_value, parse_bool_value, parse_uint_value}
use meb_commander.State.{Snapshot, get_snapshot, set_heating_enabled, set_auto_off_timer_minutes}
use meb_commander.Ota.Platform.{Platform}
use meb_commander.Settings.{Nvs}
use meb_commander.Rpc.{
  invalid_params, send_rpc_error, send_rpc_result, json_bool, format_number_or_null,
  format_double_or_null, texts,
}
use meb_commander.Rpc.Machine.{Reads, Build, Machine, Outcome, reply}

-- The key `params`, where its value is an object.
unfoldable pub params_of : List ℕ → Option (List ℕ)
unfolding find_key_value codes
params_of cmd = elim (find_key_value cmd (codes "params")) [
  | none ↦ none
  | some [] ↦ none
  | some (c ∷ params) ↦ if c == b'{' then some (c ∷ params) else none
]

-- The value of a parameter.
unfoldable pub param : List ℕ → List ℕ → Option (List ℕ)
unfolding params_of
param cmd key = elim (params_of cmd) [ none ↦ none | some params ↦ find_key_value params key ]

-- The parts of the result in `send_heating_state_result`.
unfoldable pub heating_parts : Snapshot → List (List ℕ)
unfolding codes json_bool format_number_or_null format_double_or_null decimal
heating_parts s =
    let status = s.heating_status in
    let part = λ (value : ℕ). format_number_or_null status.valid value 16 in
    codes "{\"heating_enabled\":"
    ∷ json_bool s.heating_enabled
    ∷ codes ",\"active\":"
    ∷ part status.active
    ∷ codes ",\"request\":"
    ∷ part status.request
    ∷ codes ",\"cooling_request\":"
    ∷ part status.cooling_request
    ∷ codes ",\"power_w\":"
    ∷ part status.power_w
    ∷ codes ",\"power_req_w\":"
    ∷ part status.power_req_w
    ∷ codes ",\"temperature_status\":"
    ∷ format_number_or_null s.temperature_status_charge.valid s.temperature_status_charge.value 16
    ∷ codes ",\"soc_bms_percent\":"
    ∷ format_double_or_null s.bms_soc_percent.valid s.bms_soc_percent.value 16
    ∷ codes ",\"auto_off_timer_enabled\":"
    ∷ json_bool s.auto_off_timer_enabled
    ∷ codes ",\"auto_off_timer_minutes\":"
    ∷ decimal s.auto_off_timer_minutes
    ∷ codes ",\"auto_off_remaining_minutes\":"
    ∷ format_number_or_null s.auto_off_remaining_minutes.valid s.auto_off_remaining_minutes.value 16
    ∷ codes "}"
    ∷ []

unfoldable pub heating_state : Snapshot → List ℕ
unfolding texts heating_parts
heating_state s = texts (heating_parts s)

module _ (P : Platform) (N : Nvs) (build : Build) (reads : Reads) where
  unfoldable pub send_heating_state_result : Bool → List ℕ → Machine P N → List (List ℕ)
  unfolding send_rpc_result heating_state
  send_heating_state_result has_id id_token m =
      send_rpc_result has_id id_token
        (heating_state (get_snapshot build.safety reads.snapshot_us m.state))

  unfoldable pub handle_heating_set : Bool → List ℕ → List ℕ → Machine P N → Outcome P N
  unfolding param parse_bool_value send_rpc_error send_heating_state_result codes
  handle_heating_set has_id id_token cmd m =
      given (parse_bool_value (param cmd (codes "enabled")))
        (reply P N m (send_rpc_error id_token invalid_params "Expected params.enabled boolean"))
        (λ enabled.
          let (state, events) = set_heating_enabled enabled reads.set_us m.state in
          let m' = record m { state = state } in
          record {
            machine = m';
            events = events;
            lines = send_heating_state_result has_id id_token m';
          })

  unfoldable pub handle_heating_get : Bool → List ℕ → Machine P N → Outcome P N
  unfolding send_heating_state_result
  handle_heating_get has_id id_token m = reply P N m (send_heating_state_result has_id id_token m)

  -- `meb_state_set_auto_off_timer_minutes` always returns ESP_OK.
  unfoldable pub handle_heating_set_auto_off_timer :
      Bool → List ℕ → List ℕ → Machine P N → Outcome P N
  unfolding param parse_uint_value send_rpc_error send_heating_state_result codes
  handle_heating_set_auto_off_timer has_id id_token cmd m =
      given (parse_uint_value (param cmd (codes "minutes")))
        (reply P N m (
          send_rpc_error id_token invalid_params
            "Expected params.minutes integer; 0 disables timer"))
        (λ minutes.
          let (state, events) = set_auto_off_timer_minutes minutes reads.set_us m.state in
          let m' = record m { state = state } in
          record {
            machine = m';
            events = events;
            lines = send_heating_state_result has_id id_token m';
          })
