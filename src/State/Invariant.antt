-- ===== src/State/Invariant.antt =====
-- What holds of the shared state after every call of main/app_state.c.
use meb_commander.Base.{
  ℕ, ◌+◌, ◌^◌, ◌≤◌, ◌<◌, ◌≡◌, Bool, true, false, List, [], ◌∷◌, some, none, arith,
}
use meb_commander.Config.{Safety}
use meb_commander.State.{
  AppState, init, minutes_to_us, set_heating_enabled, set_auto_off_timer_minutes, apply_auto_off,
  take_session_error, update_diag_response, update_heating_status, update_charging_optimization,
  update_dynamic, update_temperature,
}
use meb_commander.State.History.{
  Call, enable, set_timer, auto_off, take_error, diag_response, heating_status, charging, dynamic,
  temperature, step, run, FromTime, end_time,
}

-- The heating bookkeeping at time `now`: while heating is off nothing is scheduled; while it is on
-- it started by now; without a timer there is no user deadline; with one, while heating is on, there
-- is one, the timer's minutes after some time from the start of heating to now. No minute count leaves
-- uint32_t.
pub record IsValid (now : ℕ) (s : AppState) : Type 0 where
  pub off_since : s.state.heating_enabled ≡ false → s.heating_enabled_since_us ≡ 0
  pub off_deadline : s.state.heating_enabled ≡ false → s.user_auto_off_deadline_us ≡ 0
  pub on_since : s.state.heating_enabled ≡ true → 0 < s.heating_enabled_since_us
  pub since_past : s.heating_enabled_since_us ≤ now
  pub no_timer : s.state.auto_off_timer_minutes ≡ 0 → s.user_auto_off_deadline_us ≡ 0
  pub deadline_near :
      s.user_auto_off_deadline_us ≤ now + minutes_to_us s.state.auto_off_timer_minutes
  pub has_deadline :
      s.state.heating_enabled ≡ true
      → 0 < s.state.auto_off_timer_minutes
      → s.heating_enabled_since_us + minutes_to_us s.state.auto_off_timer_minutes
        ≤ s.user_auto_off_deadline_us
  pub timer_u32 : s.state.auto_off_timer_minutes < 2 ^ 32

-- A call's number arguments fit their C types.
abbrev pub InRange : Call → Type 0
InRange (set_timer m) = m < 2 ^ 32
InRange (enable b) = Unit
InRange auto_off = Unit
InRange take_error = Unit
InRange (diag_response d n) = Unit
InRange (heating_status d n) = Unit
InRange (charging d n) = Unit
InRange (dynamic d n) = Unit
InRange (temperature d n) = Unit

abbrev pub AllInRange : List (ℕ × Call) → Type 0
AllInRange [] = Unit
AllInRange ((now, c) ∷ cs) = InRange c × AllInRange cs

pub IsValid-later : {s : AppState} (t now : ℕ) → t ≤ now → IsValid t s → IsValid now s
IsValid-later t now h v = ground arith

pub set_heating_enabled-IsValid :
    (b : Bool) (now : ℕ) {s : AppState}
    → 0 < now
    → IsValid now s
    → IsValid now (set_heating_enabled b now s).0
unfolding set_heating_enabled
set_heating_enabled-IsValid b now h v = ground arith

pub set_auto_off_timer_minutes-IsValid :
    (m now : ℕ) {s : AppState}
    → m < 2 ^ 32
    → IsValid now s
    → IsValid now (set_auto_off_timer_minutes m now s).0
unfolding set_auto_off_timer_minutes
set_auto_off_timer_minutes-IsValid m now h v = ground arith

apply_auto_off-IsValid :
    (cfg : Safety) (now : ℕ) {s : AppState}
    → IsValid now s
    → IsValid now (apply_auto_off cfg now s).0
unfolding apply_auto_off
apply_auto_off-IsValid cfg now v = ground arith

-- Every call keeps the state valid.
pub step-IsValid :
    (cfg : Safety) (now : ℕ) (c : Call) {s : AppState}
    → 0 < now
    → InRange c
    → IsValid now s
    → IsValid now (step cfg now c s)
unfolding step update_diag_response update_heating_status update_charging_optimization
    update_dynamic update_temperature take_session_error
step-IsValid cfg now (enable b) h r v = set_heating_enabled-IsValid b now h v
step-IsValid cfg now (set_timer m) h r v = set_auto_off_timer_minutes-IsValid m now r v
step-IsValid cfg now auto_off h r v = apply_auto_off-IsValid cfg now v
step-IsValid cfg now take_error h r v = ground arith
step-IsValid cfg now (diag_response none n) h r v = v
step-IsValid cfg now (diag_response (some d) n) h r v = ground arith
step-IsValid cfg now (heating_status none n) h r v = v
step-IsValid cfg now (heating_status (some d) n) h r v = ground arith
step-IsValid cfg now (charging none n) h r v = v
step-IsValid cfg now (charging (some d) n) h r v = ground arith
step-IsValid cfg now (dynamic none n) h r v = v
step-IsValid cfg now (dynamic (some d) n) h r v = ground arith
step-IsValid cfg now (temperature none n) h r v = v
step-IsValid cfg now (temperature (some d) n) h r v = ground arith

pub run-IsValid :
    (cfg : Safety) (t : ℕ) (cs : List (ℕ × Call)) {s : AppState}
    → 0 < t
    → FromTime t cs
    → AllInRange cs
    → IsValid t s
    → IsValid (end_time t cs) (run cfg cs s)
unfolding run
run-IsValid cfg t [] h o r v = v
run-IsValid cfg t ((now, c) ∷ cs) h o r v =
    run-IsValid cfg now cs (omega arith) o.1 r.1
      (step-IsValid cfg now c (omega arith) r.0 (IsValid-later t now o.0 v))

pub init-IsValid : (t : ℕ) → IsValid t init
unfolding init
init-IsValid t = ground arith

-- After any calls since boot, at positive times that never go back and with arguments in their C
-- types' range, the heating bookkeeping is valid: while heating is off nothing is scheduled; while it
-- is on its start lies in the past, and a user deadline is set if and only if the timer has minutes,
-- at least these after the start and at most these from now.
pub run-init-IsValid :
    (cfg : Safety) (cs : List (ℕ × Call))
    → FromTime 1 cs
    → AllInRange cs
    → IsValid (end_time 1 cs) (run cfg cs init)
run-init-IsValid cfg cs o r = run-IsValid cfg 1 cs (omega arith) o r (init-IsValid 1)
