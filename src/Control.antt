-- ===== src/Control.antt =====
-- main/control.c: the telemetry interval in memory, and one round of the loops of the control task
-- and, as far as it asks for the state of charge, of the telemetry task, whose line is in `Telemetry`.
pub mod Interval
pub mod Rounds
use meb_commander.Base.{
  ℕ, ◌+◌, ◌*◌, Bool, true, false, ◌&&◌, not, List, [], ◌∷◌, ◌++◌, Option, none, some, ltb, leb,
  ◌==◌, if◌then◌else◌, codes,
}
use meb_commander.Config.{
  Safety, telemetry_period_ms, telemetry_min_period_ms, telemetry_max_period_ms,
  bms_soc_poll_period_ms, temperature_status_under_optimal,
}
use meb_commander.Esp.{EspErr, esp_ok, invalid_arg, nvs_not_found, is_ok}
use meb_commander.Event.{Event, plain, numbered}
use meb_commander.State.{
  AppState, Snapshot, AutoOffReason, not_off, timer, safety, apply_auto_off, get_snapshot,
  take_session_error,
}
use meb_commander.Can.{Can, Driver, request_diag_session, send_heat_request, request_bms_soc}
use meb_commander.Rpc.{serial_printf}
use meb_commander.Settings.{Nvs, Settings, set_telemetry_interval_ms, get_telemetry_interval_ms}

unfoldable pub telemetry_interval_is_valid : ℕ → Bool
telemetry_interval_is_valid interval_ms =
    leb telemetry_min_period_ms interval_ms && leb interval_ms telemetry_max_period_ms

module _ (N : Nvs) where
  -- `s_telemetry_interval_ms` with the settings that it is stored by.
  pub record Control : Type 0 where
    pub telemetry_interval_ms : ℕ
    pub settings : Settings N

  -- The start value of the variable.
  unfoldable pub booted : Settings N → Control
  booted s = record { telemetry_interval_ms = telemetry_period_ms; settings = s }

  -- meb_control_set_telemetry_interval_ms
  unfoldable pub set_interval : ℕ → Control → EspErr × List Event × Control
  unfolding telemetry_interval_is_valid
  set_interval interval_ms c =
      if not (telemetry_interval_is_valid interval_ms)
      then (invalid_arg, [], c)
      else let (e, s) = set_telemetry_interval_ms N interval_ms c.settings in
        if not (is_ok e) then (e, [], record c { settings = s }) else (
          esp_ok,
          numbered "control" "telemetry_interval" "ms=" interval_ms ∷ [],
          record { telemetry_interval_ms = interval_ms; settings = s },
        )

  -- `err == ESP_ERR_NVS_NOT_FOUND`
  abbrev is_not_found : EspErr → Bool
  is_not_found nvs_not_found = true
  is_not_found _ = false

  -- `load_telemetry_interval_setting` with the value read.
  unfoldable pub use_loaded : ℕ → Settings N → Control → EspErr × List Event × Control
  unfolding telemetry_interval_is_valid
  use_loaded interval_ms s c =
      if telemetry_interval_is_valid interval_ms
      then (
        esp_ok,
        numbered "control" "telemetry_interval_loaded" "ms=" interval_ms ∷ [],
        record { telemetry_interval_ms = interval_ms; settings = s },
      )
      else (
        esp_ok,
        numbered "control" "telemetry_interval_invalid" "ms=" interval_ms ∷ [],
        record c { settings = s },
      )

  unfoldable pub load_telemetry_interval_setting : Control → EspErr × List Event × Control
  unfolding use_loaded
  load_telemetry_interval_setting c =
      let (e, value, s) = get_telemetry_interval_ms N (some 0) c.settings in
      if is_not_found e
      then (esp_ok, [], record c { settings = s })
      else if not (is_ok e)
      then (e, [], record c { settings = s })
      else use_loaded (elim value [ none ↦ 0 | some v ↦ v ]) s c

-- The `if` of `control_task`.
unfoldable pub wants_heat : Snapshot → Bool
wants_heat state =
    state.heating_enabled
    && (state.temperature_status_charge.valid
        && state.temperature_status_charge.value == temperature_status_under_optimal)

unfoldable pub auto_off_events : AutoOffReason → List Event
auto_off_events not_off = []
auto_off_events timer = plain "control" "heating_auto_off" "reason=timer" ∷ []
auto_off_events safety = plain "control" "heating_auto_off" "reason=safety" ∷ []

-- What `control_task` prints when heating ends by itself, and when it opens a new session.
unfoldable pub auto_off_lines : AutoOffReason → List (List ℕ)
unfolding codes serial_printf
auto_off_lines not_off = []
auto_off_lines timer =
    serial_printf (codes "{\"v\":2,\"type\":\"control.heating_auto_off\",\"reason\":\"timer\"}\n")
    ∷ []
auto_off_lines safety =
    serial_printf (codes "{\"v\":2,\"type\":\"control.heating_auto_off\",\"reason\":\"safety\"}\n")
    ∷ []

unfoldable pub retry_line : List ℕ
unfolding codes serial_printf
retry_line = serial_printf (codes "{\"v\":2,\"type\":\"control.diag_session_retry\"}\n")

module _ (D : Driver) (cfg : Safety) where
  -- The request that `control_task` makes where it wants heat: the state, the events, the lines that
  -- it prints, and the driver.
  unfoldable pub request_heat :
      AppState → Can → D.World → AppState × List Event × List (List ℕ) × Can × D.World
  unfolding retry_line
  request_heat s can world =
      let (s', failed) = take_session_error s in
      if failed
      then (let (e, events, can', world') = request_diag_session D can world in
          (s', plain "control" "diag_session_retry" "" ∷ events, retry_line ∷ [], can', world'))
      else let (e, events, can', world') = send_heat_request D can world in
        (s', events, [], can', world')

  -- One round of `control_task`, which checks the automatic end at `t` and takes the snapshot at
  -- `t'`. What the other tasks do to the state in between is `between`, and what they do to it from
  -- the snapshot to the request is `later`.
  unfoldable pub control_round :
      ℕ
      → ℕ
      → (AppState → AppState)
      → (AppState → AppState)
      → AppState
      → Can
      → D.World
      → AppState × List Event × List (List ℕ) × Can × D.World
  unfolding request_heat auto_off_events auto_off_lines
  control_round t t' between later s can world =
      let (checked, reason) = apply_auto_off cfg t s in
      let seen = between checked in
      if wants_heat (get_snapshot cfg t' seen)
      then (let (s', events, lines, can', world') = request_heat (later seen) can world in
          (s', auto_off_events reason ++ events, auto_off_lines reason ++ lines, can', world'))
      else (later seen, auto_off_events reason, auto_off_lines reason, can, world)

module _ (D : Driver) where
  -- The part of a round of `telemetry_task` that asks for the state of charge, at the time `now`.
  -- `due` is `last_soc_request_us` plus the period, at first 0.
  unfoldable pub soc_round : ℕ → ℕ → Can → D.World → ℕ × List Event × Can × D.World
  soc_round now due can world =
      if leb due now
      then (let (e, events, can', world') = request_bms_soc D can world in
          ((if is_ok e then now + bms_soc_poll_period_ms * 1000 else due), events, can', world'))
      else (due, [], can, world)
