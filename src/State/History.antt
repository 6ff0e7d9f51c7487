-- ===== src/State/History.antt =====
-- The calls that other tasks make of main/app_state.c, each under the lock, and a run of them in the
-- order in which they take the lock.
use meb_commander.Base.{ℕ, ◌≤◌, Bool, List, [], ◌∷◌, Option}
use meb_commander.Config.{Safety}
use meb_commander.State.{
  AppState, set_heating_enabled, set_auto_off_timer_minutes, apply_auto_off, take_session_error,
  update_diag_response, update_heating_status, update_charging_optimization, update_dynamic,
  update_temperature,
}

pub data Call : Type 0 where
  enable : Bool → Call
  set_timer : ℕ → Call
  auto_off : Call
  take_error : Call
  diag_response heating_status charging dynamic temperature : Option (List ℕ) → ℕ → Call

module _ (cfg : Safety) where
  unfoldable pub step : ℕ → Call → AppState → AppState
  step now (enable b) s = (set_heating_enabled b now s).0
  step now (set_timer m) s = (set_auto_off_timer_minutes m now s).0
  step now auto_off s = (apply_auto_off cfg now s).0
  step now take_error s = (take_session_error s).0
  step now (diag_response d n) s = (update_diag_response d n now s).0
  step now (heating_status d n) s = update_heating_status d n now s
  step now (charging d n) s = update_charging_optimization d n now s
  step now (dynamic d n) s = update_dynamic d n now s
  step now (temperature d n) s = update_temperature d n now s

  unfoldable pub run : List (ℕ × Call) → AppState → AppState
  run [] s = s
  run ((now, c) ∷ cs) s = run cs (step now c s)

-- The times of a run never fall below `t`.
abbrev pub FromTime : ℕ → List (ℕ × Call) → Type 0
FromTime t [] = Unit
FromTime t ((now, c) ∷ cs) = (t ≤ now) × FromTime now cs

-- The last time of a run that starts at `t`.
abbrev pub end_time : ℕ → List (ℕ × Call) → ℕ
end_time t [] = t
end_time t ((now, c) ∷ cs) = end_time now cs
