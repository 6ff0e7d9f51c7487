-- ===== src/Telemetry.antt =====
-- main/control.c: the line that `telemetry_task` prints in each round.
pub mod Size
use meb_commander.Base.{ℕ, suc, ◌/◌, ◌%◌, Bool, List, [], ◌∷◌, ◌++◌, if◌then◌else◌, codes}
use meb_commander.Base.Int.{ℤ, pos, negsuc}
use meb_commander.Base.Decimal.{decimal}
use meb_commander.Config.{Safety}
use meb_commander.State.{AppState, Snapshot, get_snapshot}
use meb_commander.Rpc.{
  snprintf, texts, json_bool, format_number_or_null, format_double_or_null, serial_printf,
}

-- `%.1f` of a number of tenths that may be negative.
unfoldable pub tenths_text : ℤ → List ℕ
unfolding decimal
tenths_text (pos n) = decimal (n / 10) ++ (b'.' ∷ decimal (n % 10))
tenths_text (negsuc n) = 45 ∷ (decimal (suc n / 10) ++ (b'.' ∷ decimal (suc n % 10)))

-- format_double_or_null of a temperature in tenths
unfoldable pub format_signed_or_null : Bool → ℤ → ℕ → List ℕ
unfolding tenths_text codes
format_signed_or_null valid tenths buf_len =
    snprintf buf_len (if valid then tenths_text tenths else codes "null")

-- format_u8_or_null and format_u32_or_null, which print alike.
abbrev pub format_u8_or_null : Bool → ℕ → ℕ → List ℕ
format_u8_or_null = format_number_or_null

abbrev pub format_u32_or_null : Bool → ℕ → ℕ → List ℕ
format_u32_or_null = format_number_or_null

-- The parts of the line for a snapshot, at the time `now_us`.
unfoldable pub telemetry_parts : Snapshot → ℕ → List (List ℕ)
unfolding codes decimal json_bool format_number_or_null format_double_or_null format_signed_or_null
telemetry_parts s now_us =
    let status = s.heating_status in
    let part = λ (value : ℕ). format_u8_or_null status.valid value 16 in
    let limits = s.charge_limits in
    let temperature = s.battery_temperature in
    let remaining = s.auto_off_remaining_minutes in
    codes "{\"v\":2,\"type\":\"telemetry\",\"ts_ms\":"
    ∷ decimal (now_us / 1000)
    ∷ codes ",\"battery\":{\"soc_bms_percent\":"
    ∷ format_double_or_null s.bms_soc_percent.valid s.bms_soc_percent.value 16
    ∷ codes "},\"heating\":{\"active\":"
    ∷ part status.active
    ∷ codes ",\"request\":"
    ∷ part status.request
    ∷ codes ",\"cooling_request\":"
    ∷ part status.cooling_request
    ∷ codes ",\"power_w\":"
    ∷ part status.power_w
    ∷ codes ",\"power_req_w\":"
    ∷ part status.power_req_w
    ∷ codes "},\"thermal\":{\"status\":"
    ∷ format_u8_or_null s.temperature_status_charge.valid s.temperature_status_charge.value 16
    ∷ codes "},\"predicted\":{\"power_kw\":"
    ∷ format_double_or_null limits.valid limits.power_kw 16
    ∷ codes ",\"current_a\":"
    ∷ format_double_or_null limits.valid limits.current_a 16
    ∷ codes "},\"battery_temp_c\":{\"min\":"
    ∷ format_signed_or_null temperature.valid temperature.min_c 16
    ∷ codes ",\"max\":"
    ∷ format_signed_or_null temperature.valid temperature.max_c 16
    ∷ codes "},\"control\":{\"heating_enabled\":"
    ∷ json_bool s.heating_enabled
    ∷ codes ",\"auto_off_timer_minutes\":"
    ∷ decimal s.auto_off_timer_minutes
    ∷ codes ",\"auto_off_remaining_minutes\":"
    ∷ format_u32_or_null remaining.valid remaining.value 16
    ∷ codes "}}\n"
    ∷ []

unfoldable pub telemetry_line : Snapshot → ℕ → List ℕ
unfolding texts telemetry_parts
telemetry_line s now_us = texts (telemetry_parts s now_us)

-- What a round prints, which takes the snapshot at `t` and the time at `t'`.
unfoldable pub telemetry_print : Safety → ℕ → ℕ → AppState → List ℕ
unfolding serial_printf telemetry_line
telemetry_print cfg t t' s = serial_printf (telemetry_line (get_snapshot cfg t s) t')
