-- ===== src/Tests/Control.antt =====
-- Rounds and changes of main/control.c at concrete states.
use meb_commander.Base.{ℕ, ◌+◌, ◌≡◌, ◌<◌, ◌⊎◌, refl, true, false, [], ◌∷◌, arith, codes}
use meb_commander.Config.{Safety, temperature_status_under_optimal}
use meb_commander.Esp.{esp_ok}
use meb_commander.State.{
  AppState, set_heating_enabled, apply_auto_off, can_signal_stale_us, minutes_to_us,
}
use meb_commander.Can.{
  fresh, request_bms_soc, transmit_fd_frame, alloc_tx_slot, claim_from, transmit_slot,
}
use meb_commander.State
use meb_commander.Settings.{Nvs, Settings}
use meb_commander.Control.{
  Control, booted, set_interval, load_telemetry_interval_setting, control_round, soc_round,
}
use meb_commander.Control.Rounds.{
  control_round-request, control_round-limit, soc_rounds, soc_round-spacing,
}
use meb_commander.Tests.Can.{keeper, idle_bus}

abbrev pub cell : Nvs
cell = record {
  World = ℕ;
  flash_init = λ w. (esp_ok, w);
  flash_erase = λ w. (esp_ok, 0);
  open_namespace = λ name write w. (esp_ok, 1, w);
  get_u32 = λ h key w. (esp_ok, w, w);
  set_u32 = λ h key v w. (esp_ok, v);
  commit = λ h w. (esp_ok, w);
  close = λ h w. w;
}

abbrev off_settings : Settings cell
off_settings = record { initialized = false; world = 7 }

abbrev pub start : Control cell
start = record { telemetry_interval_ms = 1000; settings = off_settings }

abbrev limit : Safety
limit = record { enabled = true; minutes = 180 }

-- Heating on since the time 5, and the battery under its optimal temperature.
abbrev heating : AppState
heating = record State.init {
  state = record (State.init.state) {
    heating_enabled = true;
    temperature_status_charge = record { valid = true; value = 1 };
  };
  heating_enabled_since_us = 5;
  temperature_status_charge_seen_us = 5;
}

control_round-request_example :
    let (s', events, lines, can', world') =
      control_round keeper limit 10 20 (λ s. s) (λ s. s) heating fresh idle_bus in
    let seen = (apply_auto_off limit 10 heating).0 in
    ((can' ≡ fresh) × (world' ≡ idle_bus))
    ⊎ ((seen.state.heating_enabled ≡ true)
        × (seen.state.temperature_status_charge.value ≡ temperature_status_under_optimal)
        × (20 < seen.temperature_status_charge_seen_us + can_signal_stale_us))
control_round-request_example =
    control_round-request keeper limit 10 20 (λ s. s) (λ s. s) heating fresh idle_bus

control_round-limit_example :
    let t = 5 + minutes_to_us 180 in
    let (s', events, lines, can', world') =
      control_round keeper limit t t (λ s. s) (λ s. s) heating fresh idle_bus in
    ((apply_auto_off limit t heating).0.state.heating_enabled ≡ false)
    × (can' ≡ fresh)
    × (world' ≡ idle_bus)
control_round-limit_example =
    control_round-limit keeper limit (5 + minutes_to_us 180) (5 + minutes_to_us 180) (λ s. s)
      (λ s. s) heating fresh idle_bus refl (omega arith) (ground arith) (ground arith) refl

-- At the limit the round says why heating ends.
limit_reported :
    let (s', events, lines, can', world') =
      control_round keeper limit 20_000_000_000 20_000_000_000
        (λ s. s)
        (λ s. s)
        heating
        fresh
        idle_bus in
    lines ≡ codes "{\"v\":2,\"type\":\"control.heating_auto_off\",\"reason\":\"safety\"}\n" ∷ []
unfolding control_round State.init meb_commander.Control.wants_heat State.get_snapshot
    State.invalidate_stale_can_signals apply_auto_off
limit_reported = refl

soc_round-spacing_example :
    let (due', events, can', world') = soc_round keeper 0 0 fresh idle_bus in
    soc_rounds keeper (1000000 ∷ 4999999 ∷ []) due' can' world' ≡ (due', can', world')
unfolding request_bms_soc transmit_fd_frame alloc_tx_slot claim_from transmit_slot
soc_round-spacing_example =
    soc_round-spacing keeper 0 0 (1000000 ∷ 4999999 ∷ []) fresh idle_bus (omega arith) refl
      (omega arith, (omega arith, tt))
