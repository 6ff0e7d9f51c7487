-- ===== src/State.antt =====
-- main/app_state.c: the state that the CAN, control, telemetry, LED and command tasks share. Each
-- function runs under the state lock, so an operation is one step: it takes the state and the time
-- that `esp_timer_get_time` returns to it, and gives back the new state with its result and the
-- events that it records. Times are microseconds since boot, which the timer never gives as
-- negative; `Countdown` has the bounds of the int64_t sums. A pointer is an option.
pub mod History
pub mod Invariant
pub mod AutoOff
pub mod Freshness
pub mod Countdown
pub mod Ranges
use meb_commander.Base.{
  ℕ, ◌+◌, ◌-◌, ◌*◌, ◌/◌, ◌%◌, ◌^◌, Bool, true, false, ◌&&◌, ◌||◌, List, [], ◌∷◌, Option, none, some,
  ltb, leb, ◌==◌, same, if◌then◌else◌,
}
use meb_commander.Base.Int.{pos}
use meb_commander.Config.{Safety, can_signal_stale_ms}
use meb_commander.Event.{Event, plain, numbered}
use meb_commander.Signals.{
  NullableU8, NullableU32, NullableDouble, HeatingStatus, ChargeLimits, BatteryTemperature, byte,
  decode_soc, decode_heating_status, decode_temperature_status, decode_charge_limits,
  decode_battery_temperature,
}

-- meb_state_snapshot_t
pub record Snapshot : Type 0 where
  pub heating_status : HeatingStatus
  pub temperature_status_charge : NullableU8
  pub charge_limits : ChargeLimits
  pub battery_temperature : BatteryTemperature
  pub bms_soc_percent : NullableDouble
  pub session_error : Bool
  pub heating_enabled : Bool
  pub auto_off_timer_enabled : Bool
  pub auto_off_timer_minutes : ℕ
  pub auto_off_remaining_minutes : NullableU32

-- The static variables of the file, less the lock.
pub record AppState : Type 0 where
  pub state : Snapshot
  pub heating_enabled_since_us : ℕ
  pub user_auto_off_deadline_us : ℕ
  pub heating_status_seen_us : ℕ
  pub temperature_status_charge_seen_us : ℕ
  pub charge_limits_seen_us : ℕ
  pub battery_temperature_seen_us : ℕ
  pub bms_soc_percent_seen_us : ℕ

pub data AutoOffReason : Type 0 where
  not_off timer safety : AutoOffReason

abbrev pub us_per_minute : ℕ
us_per_minute = 60 * 1000 * 1000

abbrev pub can_signal_stale_us : ℕ
can_signal_stale_us = can_signal_stale_ms * 1000

abbrev pub minutes_to_us : ℕ → ℕ
minutes_to_us minutes = minutes * us_per_minute

-- The difference is negative where the frame was seen after `now`, which is below the limit too.
unfoldable pub can_signal_is_fresh : ℕ → ℕ → Bool
can_signal_is_fresh now last_seen = ltb 0 last_seen && ltb (now - last_seen) can_signal_stale_us

-- The C function's argument is `deadline - now`, which is not positive exactly where `-` gives 0.
unfoldable pub remaining_minutes_ceil : ℕ → ℕ
remaining_minutes_ceil remaining =
    if leb remaining 0 then 0 else (remaining + us_per_minute - 1) / us_per_minute % 2 ^ 32

unfoldable pub invalidate_stale_can_signals : AppState → ℕ → Snapshot → Snapshot
invalidate_stale_can_signals s now snapshot = record snapshot {
  heating_status = record heating { valid = heating.valid && fresh s.heating_status_seen_us };
  temperature_status_charge = record status {
    valid = status.valid && fresh s.temperature_status_charge_seen_us;
  };
  charge_limits = record limits { valid = limits.valid && fresh s.charge_limits_seen_us };
  battery_temperature = record temperature {
    valid = temperature.valid && fresh s.battery_temperature_seen_us;
  };
  bms_soc_percent = record soc { valid = soc.valid && fresh s.bms_soc_percent_seen_us };
}
  where
    open snapshot use {
      heating_status as heating, temperature_status_charge as status, charge_limits as limits,
      battery_temperature as temperature, bms_soc_percent as soc,
    }

    fresh : ℕ → Bool
    fresh = can_signal_is_fresh now

-- meb_state_init, where the mutex is created: `memset` clears every field.
unfoldable pub init : AppState
init = record {
  state = record {
    heating_status = record {
      valid = false;
      active = 0;
      request = 0;
      cooling_request = 0;
      power_w = 0;
      power_req_w = 0;
    };
    temperature_status_charge = record { valid = false; value = 0 };
    charge_limits = record { valid = false; power_kw = 0; current_a = 0 };
    battery_temperature = record { valid = false; min_c = pos 0; max_c = pos 0 };
    bms_soc_percent = record { valid = false; value = 0 };
    session_error = false;
    heating_enabled = false;
    auto_off_timer_enabled = false;
    auto_off_timer_minutes = 0;
    auto_off_remaining_minutes = record { valid = false; value = 0 };
  };
  heating_enabled_since_us = 0;
  user_auto_off_deadline_us = 0;
  heating_status_seen_us = 0;
  temperature_status_charge_seen_us = 0;
  charge_limits_seen_us = 0;
  battery_temperature_seen_us = 0;
  bms_soc_percent_seen_us = 0;
}

module _ (cfg : Safety) where
  unfoldable pub safety_auto_off_deadline : AppState → ℕ
  safety_auto_off_deadline s =
      if cfg.enabled && (ltb 0 s.heating_enabled_since_us && ltb 0 cfg.minutes)
      then s.heating_enabled_since_us + minutes_to_us cfg.minutes
      else 0

  unfoldable pub effective_auto_off_deadline : AppState → ℕ
  unfolding safety_auto_off_deadline
  effective_auto_off_deadline s =
      let user = s.user_auto_off_deadline_us in
      let limit = safety_auto_off_deadline s in
      if ltb 0 limit && (user == 0 || ltb limit user) then limit else user

  unfoldable pub get_snapshot : ℕ → AppState → Snapshot
  unfolding effective_auto_off_deadline
  get_snapshot now s =
      let deadline = effective_auto_off_deadline s in
      let snapshot = invalidate_stale_can_signals s now s.state in
      record snapshot {
        auto_off_timer_enabled = ltb 0 s.state.auto_off_timer_minutes;
        auto_off_remaining_minutes =
            if s.state.heating_enabled && ltb 0 deadline
            then record { valid = true; value = remaining_minutes_ceil (deadline - now) }
            else record { valid = false; value = 0 };
      }

  unfoldable pub apply_auto_off : ℕ → AppState → AppState × AutoOffReason
  unfolding effective_auto_off_deadline
  apply_auto_off now s =
      let user = s.user_auto_off_deadline_us in
      let deadline = effective_auto_off_deadline s in
      if s.state.heating_enabled && (ltb 0 deadline && leb deadline now)
      then (
        record s {
          state = record (s.state) { heating_enabled = false };
          heating_enabled_since_us = 0;
          user_auto_off_deadline_us = 0;
        },
        (if ltb 0 user && leb user deadline then timer else safety),
      )
      else (s, not_off)

unfoldable pub set_heating_enabled : Bool → ℕ → AppState → AppState × List Event
set_heating_enabled enabled now s =
    (record started { state = record (s.state) { heating_enabled = enabled } }, recorded)
  where
    started : AppState
    started =
        if enabled
        then (if s.state.heating_enabled then s else record s {
          heating_enabled_since_us = now;
          user_auto_off_deadline_us =
              if ltb 0 s.state.auto_off_timer_minutes
              then now + minutes_to_us s.state.auto_off_timer_minutes
              else 0;
        })
        else record s { heating_enabled_since_us = 0; user_auto_off_deadline_us = 0 }

    recorded : List Event
    recorded =
        if same s.state.heating_enabled enabled
        then []
        else plain "control" "heating_enabled" (if enabled then "enabled=true" else "enabled=false")
          ∷ []

unfoldable pub is_heating_enabled : AppState → Bool
is_heating_enabled s = s.state.heating_enabled

-- The function returns ESP_OK whatever the minutes are.
unfoldable pub set_auto_off_timer_minutes : ℕ → ℕ → AppState → AppState × List Event
set_auto_off_timer_minutes minutes now s = (
  record s {
    state = record (s.state) { auto_off_timer_minutes = minutes };
    user_auto_off_deadline_us =
        if s.state.heating_enabled && ltb 0 minutes then now + minutes_to_us minutes else 0;
  },
  numbered "control" "auto_off_timer" "minutes=" minutes ∷ [],
)

unfoldable pub take_session_error : AppState → AppState × Bool
take_session_error s =
    (record s { state = record (s.state) { session_error = false } }, s.state.session_error)

-- `data[i] == b` for the bytes that a response starts with.
abbrev is_soc_response : List ℕ → Bool
is_soc_response d = byte d 0 == 0x04 && (byte d 1 == 0x62 && (byte d 2 == 0x02 && byte d 3 == 0x8c))

abbrev is_rejection : List ℕ → Bool
is_rejection d = byte d 0 == 0x03 && (byte d 1 == 0x7f && (byte d 2 == 0x2f && byte d 3 == 0x7f))

unfoldable pub update_diag_response : Option (List ℕ) → ℕ → ℕ → AppState → AppState × List Event
update_diag_response none len now s = (s, [])
update_diag_response (some d) len now s =
    if leb 5 len && is_soc_response d
    then (if leb (byte d 4) 250
        then (
          record s {
            state = record (s.state) { bms_soc_percent = decode_soc d };
            bms_soc_percent_seen_us = now;
          },
          [],
        )
        else (s, []))
    else if leb 4 len && is_rejection d
    then (
      record s { state = record (s.state) { session_error = true } },
      plain "can" "diag_negative" "routine rejected" ∷ [],
    )
    else (s, [])

unfoldable pub update_heating_status : Option (List ℕ) → ℕ → ℕ → AppState → AppState
update_heating_status none len now s = s
update_heating_status (some d) len now s = if ltb len 8 then s else record s {
  state = record (s.state) { heating_status = decode_heating_status d };
  heating_status_seen_us = now;
}

unfoldable pub update_charging_optimization : Option (List ℕ) → ℕ → ℕ → AppState → AppState
update_charging_optimization none len now s = s
update_charging_optimization (some d) len now s = if ltb len 3 then s else record s {
  state = record (s.state) { temperature_status_charge = decode_temperature_status d };
  temperature_status_charge_seen_us = now;
}

unfoldable pub update_dynamic : Option (List ℕ) → ℕ → ℕ → AppState → AppState
update_dynamic none len now s = s
update_dynamic (some d) len now s = if ltb len 8 then s else record s {
  state = record (s.state) { charge_limits = decode_charge_limits d };
  charge_limits_seen_us = now;
}

unfoldable pub update_temperature : Option (List ℕ) → ℕ → ℕ → AppState → AppState
update_temperature none len now s = s
update_temperature (some d) len now s = if ltb len 5 then s else record s {
  state = record (s.state) { battery_temperature = decode_battery_temperature d };
  battery_temperature_seen_us = now;
}
