-- ===== src/Tests/State.antt =====
-- The shared state of main/app_state.c with the default safety limit.
use meb_commander.Base.{
  ℕ, suc, ◌+◌, ◌-◌, ◌≤◌, ◌<◌, ◌≡◌, ◌≢◌, refl, ◌↔◌, true, List, [], ◌∷◌, some, ltb, arith, ◌^◌,
}
use meb_commander.Config.{Safety}
use meb_commander.Signals.{decode_heating_status}
use meb_commander.State.{
  AppState, init, set_heating_enabled, apply_auto_off, not_off, timer, safety, minutes_to_us,
  get_snapshot, update_heating_status, effective_auto_off_deadline, safety_auto_off_deadline,
  us_per_minute, can_signal_stale_us, remaining_minutes_ceil, set_auto_off_timer_minutes,
  invalidate_stale_can_signals,
}
use meb_commander.State.History.{
  Call, enable, set_timer, auto_off, diag_response, heating_status, step, run,
}
use meb_commander.State.Ranges.{IsInRange, run-init-IsInRange}
use meb_commander.State.Invariant.{IsValid, run-init-IsValid}
use meb_commander.State.AutoOff.{
  apply_auto_off_reason, heating_is_bounded, Reached, Before, ChecksBefore,
}
use meb_commander.State.Countdown.{deadline_bounds, get_snapshot_countdown}
use meb_commander.State.Freshness.{get_snapshot_signals, heating_status_lifetime, Shown}

abbrev default_safety : Safety
default_safety = record { enabled = true; minutes = 180 }

-- Heating on since second 1, with a timer of 30 minutes.
abbrev warm : AppState
warm = record init {
  state = record (init.state) { heating_enabled = true; auto_off_timer_minutes = 30 };
  heating_enabled_since_us = 1_000_000;
  user_auto_off_deadline_us = 1_801_000_000;
}

abbrev calls : List (ℕ × Call)
calls = (5, set_timer 30) ∷ (9, enable true) ∷ (70_000_000, auto_off) ∷ []

warm-IsValid : IsValid 2_000_000 warm
unfolding init
warm-IsValid = ground arith

run-init-IsValid_example : IsValid 70_000_000 (run default_safety calls init)
run-init-IsValid_example = run-init-IsValid default_safety calls (omega arith) (omega arith)

apply_auto_off_reason_example :
    let user = warm.user_auto_off_deadline_us in
    let limit = safety_auto_off_deadline default_safety warm in
    let reason = (apply_auto_off default_safety 1_900_000_000 warm).1 in
    ((reason ≡ timer)
      ↔ ((warm.state.heating_enabled ≡ true) × Reached 1_900_000_000 user × Before user limit))
    × ((reason ≡ safety) ↔ (
        (warm.state.heating_enabled ≡ true)
        × Reached 1_900_000_000 limit
        × Before (suc limit) user))
apply_auto_off_reason_example = apply_auto_off_reason default_safety 1_900_000_000 warm

timer_first : (apply_auto_off default_safety 1_900_000_000 warm).1 ≡ timer
unfolding apply_auto_off init
timer_first = refl

heating_is_bounded_example : ChecksBefore (7 + minutes_to_us 180) calls
unfolding step set_heating_enabled set_auto_off_timer_minutes apply_auto_off init
heating_is_bounded_example =
    heating_is_bounded default_safety 7 init calls refl (omega arith) (omega arith) refl
      (refl, (refl, (refl, refl)))

deadline_bounds_example :
    (1_000_000 + minutes_to_us 180 < 2 ^ 63)
    × (2_000_000 + minutes_to_us 45 < 2 ^ 63)
    × (2_000_000 + minutes_to_us 30 < 2 ^ 63)
    × (effective_auto_off_deadline default_safety warm + us_per_minute < 2 ^ 63)
    × (effective_auto_off_deadline default_safety warm - 2_000_000 ≤ minutes_to_us (2 ^ 32 - 1))
deadline_bounds_example =
    deadline_bounds default_safety 2_000_000 45 warm (omega arith) warm-IsValid (omega arith)
      (omega arith)

get_snapshot_countdown_example :
    let deadline = effective_auto_off_deadline default_safety warm in
    let shown = (get_snapshot default_safety 2_000_000 warm).auto_off_remaining_minutes in
    (shown.valid ≡ true)
    × ((shown.value ≡ 0) ↔ ((apply_auto_off default_safety 2_000_000 warm).1 ≢ not_off))
    × (deadline ≤ 2_000_000 + minutes_to_us shown.value)
    × (minutes_to_us shown.value < (deadline - 2_000_000) + us_per_minute)
unfolding init effective_auto_off_deadline
get_snapshot_countdown_example =
    get_snapshot_countdown default_safety 2_000_000 warm (omega arith) warm-IsValid refl
      (omega arith)

thirty_minutes : (get_snapshot default_safety 2_000_000 warm).auto_off_remaining_minutes.value ≡ 30
unfolding get_snapshot invalidate_stale_can_signals remaining_minutes_ceil init
thirty_minutes = refl

get_snapshot_signals_example :
    let shown = get_snapshot default_safety 2_000_000 warm in
    let kept = warm.state in
    Shown 2_000_000 kept.heating_status.valid 0 shown.heating_status.valid
    × Shown 2_000_000 kept.temperature_status_charge.valid 0 shown.temperature_status_charge.valid
    × Shown 2_000_000 kept.charge_limits.valid 0 shown.charge_limits.valid
    × Shown 2_000_000 kept.battery_temperature.valid 0 shown.battery_temperature.valid
    × Shown 2_000_000 kept.bms_soc_percent.valid 0 shown.bms_soc_percent.valid
unfolding init
get_snapshot_signals_example = get_snapshot_signals default_safety 2_000_000 warm

abbrev frame : List ℕ
frame = 0 ∷ 0 ∷ 0 ∷ 0 ∷ 0x40 ∷ 0x20 ∷ 12 ∷ 13 ∷ []

heating_status_lifetime_example :
    (get_snapshot default_safety 31_000_000
      (run default_safety calls (update_heating_status (some frame) 8 5 init))).heating_status
    ≡ record (decode_heating_status frame) { valid = ltb 31_000_000 (5 + can_signal_stale_us) }
heating_status_lifetime_example =
    heating_status_lifetime default_safety 5 31_000_000 8 frame calls init (omega arith)
      (omega arith) (omega arith)

-- A state of charge, a heating status and one that is too short.
abbrev received : List (ℕ × Call)
received =
    (5, diag_response (some (4 ∷ 0x62 ∷ 2 ∷ 0x8c ∷ 250 ∷ [])) 5)
    ∷ (6, heating_status (some frame) 8)
    ∷ (7, heating_status (some (255 ∷ [])) 1)
    ∷ []

run-init-IsInRange_example : IsInRange (run default_safety received init).state
run-init-IsInRange_example = run-init-IsInRange default_safety received (ground arith)
