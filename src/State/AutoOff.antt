-- ===== src/State/AutoOff.antt =====
-- The automatic end of heating in main/app_state.c.
use meb_commander.Base.{
  ℕ, suc, ◌+◌, ◌≤◌, ◌<◌, ◌≡◌, ◌≢◌, refl, ◌∙◌, ◌↔◌, ◌⊎◌, true, false, List, [], ◌∷◌, some, none,
  arith,
}
use meb_commander.Config.{Safety}
use meb_commander.State.{
  AppState, not_off, timer, safety, minutes_to_us, safety_auto_off_deadline, apply_auto_off,
  set_heating_enabled, set_auto_off_timer_minutes, take_session_error, update_diag_response,
  update_heating_status, update_charging_optimization, update_dynamic, update_temperature,
}
use meb_commander.State.History.{
  Call, enable, set_timer, auto_off, take_error, diag_response, heating_status, charging, dynamic,
  temperature, step,
}

-- A deadline that is set, 0 being none, and that `now` has reached.
abbrev pub Reached : ℕ → ℕ → Type 0
Reached now deadline = (0 < deadline) × (deadline ≤ now)

-- `first` comes no later than `second`, if there is a second.
abbrev pub Before : ℕ → ℕ → Type 0
Before first second = (second ≡ 0) ⊎ (first ≤ second)

-- The check reports the timer exactly when heating is on and the user's deadline is reached and
-- comes no later than the safety limit, and the safety limit exactly when that is reached and comes
-- strictly before any user deadline.
pub apply_auto_off_reason :
    (cfg : Safety) (now : ℕ) (s : AppState)
    → let user = s.user_auto_off_deadline_us in
      let limit = safety_auto_off_deadline cfg s in
      let reason = (apply_auto_off cfg now s).1 in
      ((reason ≡ timer) ↔ ((s.state.heating_enabled ≡ true) × Reached now user × Before user limit))
      × ((reason ≡ safety)
          ↔ ((s.state.heating_enabled ≡ true) × Reached now limit × Before (suc limit) user))
unfolding apply_auto_off
apply_auto_off_reason cfg now s =
    ((λ h. ground arith, λ h. ground arith), (λ h. ground arith, λ h. ground arith))

-- The check either reports nothing and changes nothing, or reports a reason, and then heating is off
-- with nothing scheduled and every other field is as it was.
pub apply_auto_off_effect :
    (cfg : Safety) (now : ℕ) (s : AppState)
    → let (s', reason) = apply_auto_off cfg now s in
      ((reason ≡ not_off) × (s' ≡ s))
      ⊎ ((reason ≢ not_off)
          × (s' ≡ record s {
            state = record (s.state) { heating_enabled = false };
            heating_enabled_since_us = 0;
            user_auto_off_deadline_us = 0;
          }))
unfolding apply_auto_off
apply_auto_off_effect cfg now s = ground arith

-- Heating is on before and after each of the calls.
abbrev pub StaysOn : Safety → List (ℕ × Call) → AppState → Type 0
StaysOn cfg [] s = s.state.heating_enabled ≡ true
StaysOn cfg ((now, c) ∷ cs) s = (s.state.heating_enabled ≡ true) × StaysOn cfg cs (step cfg now c s)

-- A check of the automatic end comes before `limit`; any other call may come at any time.
abbrev pub CheckBefore : ℕ → ℕ → Call → Type 0
CheckBefore limit now auto_off = now < limit
CheckBefore limit now _ = Unit

abbrev pub ChecksBefore : ℕ → List (ℕ × Call) → Type 0
ChecksBefore limit [] = Unit
ChecksBefore limit ((now, c) ∷ cs) = CheckBefore limit now c × ChecksBefore limit cs

-- A call that leaves heating on does not move the time at which it started.
pub since-step :
    (cfg : Safety) (now : ℕ) (c : Call) (s : AppState)
    → s.state.heating_enabled ≡ true
    → (step cfg now c s).state.heating_enabled ≡ true
    → (step cfg now c s).heating_enabled_since_us ≡ s.heating_enabled_since_us
unfolding step set_heating_enabled set_auto_off_timer_minutes apply_auto_off take_session_error
    update_diag_response update_heating_status update_charging_optimization update_dynamic
    update_temperature
since-step cfg now (enable b) s h k = ground arith
since-step cfg now (set_timer m) s h k = refl
since-step cfg now auto_off s h k = ground arith
since-step cfg now take_error s h k = refl
since-step cfg now (diag_response none n) s h k = refl
since-step cfg now (diag_response (some d) n) s h k = ground arith
since-step cfg now (heating_status none n) s h k = refl
since-step cfg now (heating_status (some d) n) s h k = ground arith
since-step cfg now (charging none n) s h k = refl
since-step cfg now (charging (some d) n) s h k = ground arith
since-step cfg now (dynamic none n) s h k = refl
since-step cfg now (dynamic (some d) n) s h k = ground arith
since-step cfg now (temperature none n) s h k = refl
since-step cfg now (temperature (some d) n) s h k = ground arith

-- A check that leaves heating on comes before the safety limit.
check_before_limit :
    (cfg : Safety) (now : ℕ) (s : AppState)
    → cfg.enabled ≡ true
    → 0 < cfg.minutes
    → 0 < s.heating_enabled_since_us
    → (apply_auto_off cfg now s).0.state.heating_enabled ≡ true
    → now < s.heating_enabled_since_us + minutes_to_us cfg.minutes
unfolding apply_auto_off
check_before_limit cfg now s e m p h = ground arith

StaysOn-now :
    (cfg : Safety) (cs : List (ℕ × Call)) (s : AppState)
    → StaysOn cfg cs s
    → s.state.heating_enabled ≡ true
StaysOn-now cfg [] s h = h
StaysOn-now cfg (c ∷ cs) s h = h.0

since-set :
    (now : ℕ) (s : AppState)
    → s.state.heating_enabled ≡ false
    → (set_heating_enabled true now s).0.heating_enabled_since_us ≡ now
unfolding set_heating_enabled
since-set now s off = ground arith

module _ (cfg : Safety) (on : cfg.enabled ≡ true) (some_minutes : 0 < cfg.minutes) where
  step-CheckBefore :
      (now : ℕ) (c : Call) (s : AppState)
      → 0 < s.heating_enabled_since_us
      → (step cfg now c s).state.heating_enabled ≡ true
      → CheckBefore (s.heating_enabled_since_us + minutes_to_us cfg.minutes) now c
  unfolding step
  step-CheckBefore now auto_off s p h = check_before_limit cfg now s on some_minutes p h
  step-CheckBefore now _ s p h = tt

  bounded_from :
      (since : ℕ) (cs : List (ℕ × Call)) (s : AppState)
      → 0 < since
      → s.heating_enabled_since_us ≡ since
      → StaysOn cfg cs s
      → ChecksBefore (since + minutes_to_us cfg.minutes) cs
  bounded_from since [] s p e h = tt
  bounded_from since ((now, c) ∷ cs) s p e h =
      let after = StaysOn-now cfg cs (step cfg now c s) h.1 in
      (
        rw e at (step-CheckBefore now c s (omega arith) after),
        bounded_from since cs (step cfg now c s) p (since-step cfg now c s h.0 after ∙ e) h.1,
      )

-- With the safety limit built in, heating that is switched on at `now` and then stays on through any
-- calls, timer settings and repeated enables among them, meets no check at or after `now` plus the
-- limit: such a check would have ended it.
pub heating_is_bounded :
    (cfg : Safety) (now : ℕ) (s : AppState) (cs : List (ℕ × Call))
    → cfg.enabled ≡ true
    → 0 < cfg.minutes
    → 0 < now
    → s.state.heating_enabled ≡ false
    → StaysOn cfg cs (set_heating_enabled true now s).0
    → ChecksBefore (now + minutes_to_us cfg.minutes) cs
heating_is_bounded cfg now s cs on m h off stays =
    bounded_from cfg on m now cs (set_heating_enabled true now s).0 h (since-set now s off) stays
