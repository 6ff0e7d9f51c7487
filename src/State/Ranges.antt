-- ===== src/State/Ranges.antt =====
-- The signals that the state of main/app_state.c keeps are in the ranges of their bits.
use meb_commander.Base.{
  ◌&&◌, leb→le, ltb, ℕ, ◌<◌, ◌≡◌, refl, List, [], ◌∷◌, none, some, All, arith, if-elim, leb,
}
use meb_commander.Config.{Safety}
use meb_commander.Signals.{byte, decode_soc, decode_battery_temperature}
use meb_commander.Signals.Fields.{IsByte}
use meb_commander.State.{
  is_soc_response, is_rejection, AppState, Snapshot, init, set_heating_enabled,
  set_auto_off_timer_minutes, apply_auto_off, take_session_error, update_diag_response,
  update_heating_status, update_charging_optimization, update_dynamic, update_temperature, Event,
}
use meb_commander.State.History.{
  Call, enable, set_timer, auto_off, take_error, diag_response, heating_status, charging, dynamic,
  temperature, step, run,
}
use meb_commander.Signals.Ranges.{
  IsCharge, IsHeating, IsLimits, IsDegrees, byte-IsByte, decode_heating_status-IsHeating,
  decode_temperature_status-bits, decode_charge_limits-IsLimits, degrees,
}

pub record IsInRange (s : Snapshot) : Type 0 where
  pub charge : IsCharge s.bms_soc_percent
  pub heating : IsHeating s.heating_status
  pub temperature_status : s.temperature_status_charge.value < 8
  pub limits : IsLimits s.charge_limits
  pub min_c : IsDegrees s.battery_temperature.min_c
  pub max_c : IsDegrees s.battery_temperature.max_c

-- The data of a frame is bytes.
abbrev pub HasBytes : Call → Type 0
HasBytes (diag_response (some d) n) = All IsByte d
HasBytes (heating_status (some d) n) = All IsByte d
HasBytes (charging (some d) n) = All IsByte d
HasBytes (dynamic (some d) n) = All IsByte d
HasBytes (temperature (some d) n) = All IsByte d
HasBytes _ = Unit

abbrev pub AllHaveBytes : List (ℕ × Call) → Type 0
AllHaveBytes [] = Unit
AllHaveBytes ((now, c) ∷ cs) = HasBytes c × AllHaveBytes cs

update_diag_response-IsInRange :
    (d : List ℕ) (n now : ℕ) (s : AppState)
    → IsInRange s.state
    → IsInRange (update_diag_response (some d) n now s).0.state
unfolding update_diag_response decode_soc
update_diag_response-IsInRange d n now s v =
    let F : AppState × List Event → Type 0 = λ r. IsInRange r.0.state in
    if-elim F (leb 5 n && is_soc_response d)
      (λ e.
        if-elim F (leb (byte d 4) 250)
          (λ small. record {
            charge = omega (arith, leb→le (byte d 4) 250 small);
            heating = v.heating;
            temperature_status = v.temperature_status;
            limits = v.limits;
            min_c = v.min_c;
            max_c = v.max_c;
          })
          (λ large. v))
      (λ e.
        if-elim F (leb 4 n && is_rejection d)
          (λ rejected. record {
            charge = v.charge;
            heating = v.heating;
            temperature_status = v.temperature_status;
            limits = v.limits;
            min_c = v.min_c;
            max_c = v.max_c;
          })
          (λ other. v))

-- A state whose signals are those of `s`.
same_signals :
    (s t : Snapshot)
    → s.bms_soc_percent ≡ t.bms_soc_percent
    → s.heating_status ≡ t.heating_status
    → s.temperature_status_charge ≡ t.temperature_status_charge
    → s.charge_limits ≡ t.charge_limits
    → s.battery_temperature ≡ t.battery_temperature
    → IsInRange s
    → IsInRange t
same_signals s t p q r u w v = record {
  charge = rw (← p) v.charge;
  heating = rw (← q) v.heating;
  temperature_status = rw (← r) v.temperature_status;
  limits = rw (← u) v.limits;
  min_c = rw (← w) v.min_c;
  max_c = rw (← w) v.max_c;
}

step-IsInRange :
    (cfg : Safety) (now : ℕ) (c : Call) (s : AppState)
    → HasBytes c
    → IsInRange s.state
    → IsInRange (step cfg now c s).state
unfolding step update_heating_status update_charging_optimization update_dynamic update_temperature
    take_session_error set_heating_enabled set_auto_off_timer_minutes apply_auto_off
    decode_battery_temperature update_diag_response
step-IsInRange cfg now (enable b) s h v =
    same_signals s.state (step cfg now (enable b) s).state (ground arith) (ground arith)
      (ground arith) (ground arith) (ground arith) v
step-IsInRange cfg now (set_timer m) s h v =
    same_signals s.state (step cfg now (set_timer m) s).state refl refl refl refl refl v
step-IsInRange cfg now auto_off s h v =
    same_signals s.state (step cfg now auto_off s).state (ground arith) (ground arith)
      (ground arith) (ground arith) (ground arith) v
step-IsInRange cfg now take_error s h v =
    same_signals s.state (step cfg now take_error s).state refl refl refl refl refl v
step-IsInRange cfg now (diag_response none n) s h v = v
step-IsInRange cfg now (diag_response (some d) n) s h v = update_diag_response-IsInRange d n now s v
step-IsInRange cfg now (heating_status none n) s h v = v
step-IsInRange cfg now (heating_status (some d) n) s h v =
    if-elim (λ (t : AppState). IsInRange t.state) (ltb n 8) (λ e. v)
      (λ e. record {
        charge = v.charge;
        heating = decode_heating_status-IsHeating d h;
        temperature_status = v.temperature_status;
        limits = v.limits;
        min_c = v.min_c;
        max_c = v.max_c;
      })
step-IsInRange cfg now (charging none n) s h v = v
step-IsInRange cfg now (charging (some d) n) s h v =
    if-elim (λ (t : AppState). IsInRange t.state) (ltb n 3) (λ e. v)
      (λ e. record {
        charge = v.charge;
        heating = v.heating;
        temperature_status = decode_temperature_status-bits d h;
        limits = v.limits;
        min_c = v.min_c;
        max_c = v.max_c;
      })
step-IsInRange cfg now (dynamic none n) s h v = v
step-IsInRange cfg now (dynamic (some d) n) s h v =
    if-elim (λ (t : AppState). IsInRange t.state) (ltb n 8) (λ e. v)
      (λ e. record {
        charge = v.charge;
        heating = v.heating;
        temperature_status = v.temperature_status;
        limits = decode_charge_limits-IsLimits d h;
        min_c = v.min_c;
        max_c = v.max_c;
      })
step-IsInRange cfg now (temperature none n) s h v = v
step-IsInRange cfg now (temperature (some d) n) s h v =
    if-elim (λ (t : AppState). IsInRange t.state) (ltb n 5) (λ e. v)
      (λ e. record {
        charge = v.charge;
        heating = v.heating;
        temperature_status = v.temperature_status;
        limits = v.limits;
        min_c = degrees (byte d 4) (byte-IsByte d 4 h);
        max_c = degrees (byte d 3) (byte-IsByte d 3 h);
      })

run-IsInRange :
    (cfg : Safety) (cs : List (ℕ × Call)) (s : AppState)
    → AllHaveBytes cs
    → IsInRange s.state
    → IsInRange (run cfg cs s).state
unfolding run
run-IsInRange cfg [] s h v = v
run-IsInRange cfg ((now, c) ∷ cs) s (h, hs) v =
    run-IsInRange cfg cs (step cfg now c s) hs (step-IsInRange cfg now c s h v)

-- After any calls since boot with frames of bytes, of whatever length, every signal of the state is
-- in the range of its bits: a charge of at most 100 %, a flag of one bit, two fields of three bits and
-- the temperature status likewise, two bytes, a power below 819.2 kW and a current below 1638.4 A, and
-- temperatures from -40 to 87.5 degrees.
pub run-init-IsInRange :
    (cfg : Safety) (cs : List (ℕ × Call)) → AllHaveBytes cs → IsInRange (run cfg cs init).state
unfolding init
run-init-IsInRange cfg cs h = run-IsInRange cfg cs init h (record {
  charge = omega arith;
  heating = (omega arith, omega arith, omega arith, omega arith, omega arith);
  temperature_status = omega arith;
  limits = (omega arith, omega arith);
  min_c = (omega arith, omega arith);
  max_c = (omega arith, omega arith);
})
