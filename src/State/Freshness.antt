-- ===== src/State/Freshness.antt =====
-- How long main/app_state.c reports a CAN signal after the frame that carried it.
use meb_commander.Base.{
  ℕ, ◌+◌, ◌≤◌, ◌<◌, ◌≡◌, refl, ◌∙◌, ◌↔◌, Bool, true, List, [], ◌∷◌, some, none, arith, ltb,
}
use meb_commander.Config.{Safety}
use meb_commander.Signals.{HeatingStatus, NullableU8, decode_heating_status}
use meb_commander.State.{
  AppState, can_signal_stale_us, can_signal_is_fresh, invalidate_stale_can_signals, get_snapshot,
  set_heating_enabled, set_auto_off_timer_minutes, apply_auto_off, take_session_error,
  update_diag_response, update_heating_status, update_dynamic, update_temperature,
}
use meb_commander.State.History.{
  Call, enable, set_timer, auto_off, take_error, diag_response, heating_status, charging, dynamic,
  temperature, step, run,
}

-- A call that is neither a heating status frame nor a charging frame.
abbrev pub KeepsStatus : Call → Type 0
KeepsStatus (heating_status d n) = ⊥
KeepsStatus (charging d n) = ⊥
KeepsStatus _ = Unit

abbrev pub AllKeepStatus : List (ℕ × Call) → Type 0
AllKeepStatus [] = Unit
AllKeepStatus ((now, c) ∷ cs) = KeepsStatus c × AllKeepStatus cs

-- What the two frames leave behind.
abbrev pub Stored : Type 0
Stored = HeatingStatus × ℕ × NullableU8 × ℕ

abbrev pub stored : AppState → Stored
stored s = (
  s.state.heating_status, s.heating_status_seen_us, s.state.temperature_status_charge,
  s.temperature_status_charge_seen_us,
)

stored-step :
    (cfg : Safety) (now : ℕ) (c : Call) (s : AppState)
    → KeepsStatus c
    → stored (step cfg now c s) ≡ stored s
unfolding step set_heating_enabled set_auto_off_timer_minutes apply_auto_off take_session_error
    update_diag_response update_dynamic update_temperature
stored-step cfg now (enable b) s k = ground arith
stored-step cfg now (set_timer m) s k = refl
stored-step cfg now auto_off s k = ground arith
stored-step cfg now take_error s k = refl
stored-step cfg now (diag_response none n) s k = refl
stored-step cfg now (diag_response (some d) n) s k = ground arith
stored-step cfg now (heating_status d n) s k = absurd k
stored-step cfg now (charging d n) s k = absurd k
stored-step cfg now (dynamic none n) s k = refl
stored-step cfg now (dynamic (some d) n) s k = ground arith
stored-step cfg now (temperature none n) s k = refl
stored-step cfg now (temperature (some d) n) s k = ground arith

stored-run :
    (cfg : Safety) (cs : List (ℕ × Call)) (s : AppState)
    → AllKeepStatus cs
    → stored (run cfg cs s) ≡ stored s
unfolding run
stored-run cfg [] s k = refl
stored-run cfg ((now, c) ∷ cs) s k =
    stored-run cfg cs (step cfg now c s) k.1 ∙ stored-step cfg now c s k.0

-- When a signal stored with `was_valid` and seen at `seen` is shown.
abbrev pub Shown : ℕ → Bool → ℕ → Bool → Type 0
Shown now was_valid seen is_valid =
    (is_valid ≡ true) ↔ ((was_valid ≡ true) × (0 < seen) × (now < seen + can_signal_stale_us))

-- A snapshot shows a signal as valid exactly when it is stored as valid, was seen at a time after
-- zero, and was seen less than thirty seconds before; this for each of the five signals.
pub get_snapshot_signals :
    (cfg : Safety) (now : ℕ) (s : AppState)
    → let shown = get_snapshot cfg now s in
      let kept = s.state in
      Shown now kept.heating_status.valid s.heating_status_seen_us shown.heating_status.valid
      × Shown now kept.temperature_status_charge.valid s.temperature_status_charge_seen_us
          shown.temperature_status_charge.valid
      × Shown now kept.charge_limits.valid s.charge_limits_seen_us shown.charge_limits.valid
      × Shown now kept.battery_temperature.valid s.battery_temperature_seen_us
          shown.battery_temperature.valid
      × Shown now kept.bms_soc_percent.valid s.bms_soc_percent_seen_us shown.bms_soc_percent.valid
unfolding get_snapshot invalidate_stale_can_signals can_signal_is_fresh
get_snapshot_signals cfg now s = (
  (λ h. ground arith, λ h. ground arith),
  (λ h. ground arith, λ h. ground arith),
  (λ h. ground arith, λ h. ground arith),
  (λ h. ground arith, λ h. ground arith),
  (λ h. ground arith, λ h. ground arith),
)

-- After a heating status frame of at least eight bytes at `t`, and any calls that are no heating
-- status or charging frame, a snapshot at `now` shows the decoded frame, as valid exactly while
-- `now` is less than thirty seconds after `t`.
pub heating_status_lifetime :
    (cfg : Safety) (t now len : ℕ) (d : List ℕ) (cs : List (ℕ × Call)) (s : AppState)
    → 0 < t
    → 8 ≤ len
    → AllKeepStatus cs
    → let shown =
        (get_snapshot cfg now
          (run cfg cs (update_heating_status (some d) len t s))).heating_status in
      shown ≡ record (decode_heating_status d) { valid = ltb now (t + can_signal_stale_us) }
unfolding get_snapshot invalidate_stale_can_signals can_signal_is_fresh update_heating_status
    decode_heating_status
heating_status_lifetime cfg t now len d cs s p h k =
    ground (arith, stored-run cfg cs (update_heating_status (some d) len t s) k)
