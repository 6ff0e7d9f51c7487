-- ===== src/State/Countdown.antt =====
-- The remaining minutes that main/app_state.c reports, against the check that ends heating.
use meb_commander.Base.{ℕ, ◌+◌, ◌-◌, ◌^◌, ◌≤◌, ◌<◌, ◌≡◌, ◌≢◌, ◌↔◌, true, arith}
use meb_commander.Config.{Safety}
use meb_commander.State.{
  AppState, not_off, us_per_minute, minutes_to_us, remaining_minutes_ceil,
  effective_auto_off_deadline, get_snapshot, apply_auto_off,
}
use meb_commander.State.Invariant.{IsValid}

-- The least number of whole minutes that covers the remaining time, while that is short enough for
-- uint32_t.
pub remaining_minutes_ceil_lem :
    (us : ℕ)
    → us ≤ minutes_to_us (2 ^ 32 - 1)
    → (us ≤ minutes_to_us (remaining_minutes_ceil us))
      × (minutes_to_us (remaining_minutes_ceil us) < us + us_per_minute)
unfolding remaining_minutes_ceil
remaining_minutes_ceil_lem us h = ground arith

-- The build option lies in the range of main/Kconfig.projbuild.
abbrev pub InKconfig : Safety → Type 0
InKconfig cfg = (1 ≤ cfg.minutes) × (cfg.minutes ≤ 1440)

remaining_fits :
    (cfg : Safety) (now : ℕ) (s : AppState)
    → InKconfig cfg
    → IsValid now s
    → effective_auto_off_deadline cfg s - now ≤ minutes_to_us (2 ^ 32 - 1)
unfolding effective_auto_off_deadline
remaining_fits cfg now s k v = ground arith

-- With the build option in its range of 1 to 1440 minutes, in a state that is valid at a time below
-- 2 ^ 62 microseconds, no int64_t sum of a deadline overflows: not the safety deadline, not a user
-- deadline set at that time for any minutes of uint32_t or for those of the timer, and not the
-- effective deadline with what is added for rounding up; and the remaining time fits the minutes of
-- uint32_t.
pub deadline_bounds :
    (cfg : Safety) (now minutes : ℕ) (s : AppState)
    → InKconfig cfg
    → IsValid now s
    → now < 2 ^ 62
    → minutes < 2 ^ 32
    → (s.heating_enabled_since_us + minutes_to_us cfg.minutes < 2 ^ 63)
      × (now + minutes_to_us minutes < 2 ^ 63)
      × (now + minutes_to_us s.state.auto_off_timer_minutes < 2 ^ 63)
      × (effective_auto_off_deadline cfg s + us_per_minute < 2 ^ 63)
      × (effective_auto_off_deadline cfg s - now ≤ minutes_to_us (2 ^ 32 - 1))
unfolding effective_auto_off_deadline
deadline_bounds cfg now minutes s k v h m = ground arith

-- While heating is on in a valid state and a deadline is set, the snapshot counts down to the check:
-- it has a number, which is zero exactly when a check at that time would end heating, and the time
-- to the deadline is at most that many minutes and more than one minute less.
pub get_snapshot_countdown :
    (cfg : Safety) (now : ℕ) (s : AppState)
    → InKconfig cfg
    → IsValid now s
    → s.state.heating_enabled ≡ true
    → 0 < effective_auto_off_deadline cfg s
    → let deadline = effective_auto_off_deadline cfg s in
      let shown = (get_snapshot cfg now s).auto_off_remaining_minutes in
      (shown.valid ≡ true)
      × ((shown.value ≡ 0) ↔ ((apply_auto_off cfg now s).1 ≢ not_off))
      × (deadline ≤ now + minutes_to_us shown.value)
      × (minutes_to_us shown.value < (deadline - now) + us_per_minute)
unfolding get_snapshot apply_auto_off
get_snapshot_countdown cfg now s k v on set = (
  ground arith,
  (λ h. ground (arith, ceil), λ h. ground (arith, ceil)),
  ground (arith, ceil),
  ground (arith, ceil),
)
  where
    left : ℕ
    left = effective_auto_off_deadline cfg s - now

    ceil :
        (left ≤ minutes_to_us (remaining_minutes_ceil left))
        × (minutes_to_us (remaining_minutes_ceil left) < left + us_per_minute)
    ceil = remaining_minutes_ceil_lem left (remaining_fits cfg now s k v)
