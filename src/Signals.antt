-- ===== src/Signals.antt =====
-- The CAN signals of main/app_state.h, and how main/app_state.c unpacks them from a frame's bytes.
-- A C double is kept in tenths of its unit: every value here is a whole number of them, and
-- telemetry prints them with one decimal.
pub mod Fields
pub mod Ranges
use Prim.Native.Nat.{bit_and, bit_or}
use meb_commander.Base.{ℕ, ◌+◌, ◌*◌, ◌/◌, ◌^◌, Bool, true, List, get_or}
use meb_commander.Base.Int.{ℤ, pos, ◌-ℤ◌}

pub record NullableU8 : Type 0 where
  pub valid : Bool
  pub value : ℕ

pub record NullableU32 : Type 0 where
  pub valid : Bool
  pub value : ℕ

-- `value` in tenths.
pub record NullableDouble : Type 0 where
  pub valid : Bool
  pub value : ℕ

pub record HeatingStatus : Type 0 where
  pub valid : Bool
  pub active : ℕ
  pub request : ℕ
  pub cooling_request : ℕ
  pub power_w : ℕ
  pub power_req_w : ℕ

-- Tenths of a kilowatt and of an ampere.
pub record ChargeLimits : Type 0 where
  pub valid : Bool
  pub power_kw : ℕ
  pub current_a : ℕ

-- Tenths of a degree.
pub record BatteryTemperature : Type 0 where
  pub valid : Bool
  pub min_c : ℤ
  pub max_c : ℤ

-- `data[i]`; the callers read below the length that they checked.
abbrev pub byte : List ℕ → ℕ → ℕ
byte bytes i = get_or bytes i 0

-- `data[4] / 2.5`
unfoldable pub decode_soc : List ℕ → NullableDouble
decode_soc bytes = record { valid = true; value = byte bytes 4 * 4 }

unfoldable pub decode_heating_status : List ℕ → HeatingStatus
decode_heating_status bytes = record {
  valid = true;
  active = bit_and (byte bytes 4) 0x40 / 2 ^ 6;
  request = bit_and (byte bytes 5) 0xe0 / 2 ^ 5;
  cooling_request = bit_and (byte bytes 5) 0x1c / 2 ^ 2;
  power_w = byte bytes 6;
  power_req_w = byte bytes 7;
}

unfoldable pub decode_temperature_status : List ℕ → NullableU8
decode_temperature_status bytes = record {
  valid = true;
  value = bit_or (bit_and (byte bytes 2) 0x03 * 2 ^ 1) (byte bytes 1 / 2 ^ 7);
}

-- Steps of 0.1 kW and of 0.2 A.
unfoldable pub decode_charge_limits : List ℕ → ChargeLimits
decode_charge_limits bytes = record {
  valid = true;
  power_kw = bit_or (byte bytes 7 * 2 ^ 5) (byte bytes 6 / 2 ^ 3);
  current_a = bit_or (bit_and (byte bytes 4) 0x3f * 2 ^ 7) (byte bytes 3 / 2 ^ 1) * 2;
}

-- Half degrees above -40.
unfoldable pub decode_battery_temperature : List ℕ → BatteryTemperature
decode_battery_temperature bytes = record {
  valid = true;
  max_c = pos (byte bytes 3 * 5) -ℤ pos 400;
  min_c = pos (byte bytes 4 * 5) -ℤ pos 400;
}
