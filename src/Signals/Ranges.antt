-- ===== src/Signals/Ranges.antt =====
-- The ranges of the signals of main/app_state.h, as they come out of the bits of a frame.
use meb_commander.Base.{◌/◌, ◌%◌, ℕ, zero, suc, ◌*◌, ◌^◌, ◌≤◌, ◌<◌, List, [], ◌∷◌, All, arith}
use meb_commander.Base.Bits.{
  bit_or-shift, bit_and_0x40, bit_and_0xe0, bit_and_0x1c, bit_and_0x03, bit_and_0x3f,
}
use meb_commander.Base.Int.{ℤ, pos, negsuc, ◌-ℤ◌, ◌≤ℤ◌}
use meb_commander.Signals.{
  HeatingStatus, ChargeLimits, NullableDouble, byte, decode_heating_status,
  decode_temperature_status, decode_charge_limits,
}
use meb_commander.Signals.Fields.{IsByte}

-- A charge of at most 100 %, in tenths.
abbrev pub IsCharge : NullableDouble → Type 0
IsCharge v = v.value ≤ 1000

-- A bit, two fields of three bits, and two bytes.
abbrev pub IsHeating : HeatingStatus → Type 0
IsHeating v =
    (v.active < 2)
    × (v.request < 8)
    × (v.cooling_request < 8)
    × (v.power_w < 256)
    × (v.power_req_w < 256)

-- Thirteen bits each, the current in steps of two tenths.
abbrev pub IsLimits : ChargeLimits → Type 0
IsLimits v = (v.power_kw < 2 ^ 13) × (v.current_a < 2 ^ 14)

-- From -40 to 87.5 degrees, in tenths.
abbrev pub IsDegrees : ℤ → Type 0
IsDegrees t = (negsuc 399 ≤ℤ t) × (t ≤ℤ pos 875)

pub byte-IsByte : (d : List ℕ) (i : ℕ) → All IsByte d → IsByte (byte d i)
byte-IsByte [] i h = omega arith
byte-IsByte (b ∷ d) zero (h, hs) = h
byte-IsByte (b ∷ d) (suc i) (h, hs) = byte-IsByte d i hs

pub decode_heating_status-IsHeating :
    (d : List ℕ) → All IsByte d → IsHeating (decode_heating_status d)
unfolding decode_heating_status
decode_heating_status-IsHeating d h =
    let small = λ (i : ℕ). byte-IsByte d i h in
    (
      omega (arith, bit_and_0x40 (byte d 4) (small 4)),
      omega (arith, bit_and_0xe0 (byte d 5) (small 5)),
      omega (arith, bit_and_0x1c (byte d 5) (small 5)),
      small 6,
      small 7,
    )

pub decode_temperature_status-bits :
    (d : List ℕ) → All IsByte d → (decode_temperature_status d).value < 8
unfolding decode_temperature_status
decode_temperature_status-bits d h =
    let low : byte d 1 / 128 < 2 = omega (arith, byte-IsByte d 1 h) in
    rw (bit_and_0x03 (byte d 2), bit_or-shift 1 (byte d 2 % 4) (byte d 1 / 128) low)
      (omega (arith, low))

pub decode_charge_limits-IsLimits : (d : List ℕ) → All IsByte d → IsLimits (decode_charge_limits d)
unfolding decode_charge_limits
decode_charge_limits-IsLimits d h =
    let low₁ : byte d 6 / 8 < 2 ^ 5 = omega (arith, byte-IsByte d 6 h) in
    let low₂ : byte d 3 / 2 < 2 ^ 7 = omega (arith, byte-IsByte d 3 h) in
    rw
      (
        bit_and_0x3f (byte d 4),
        bit_or-shift 5 (byte d 7) (byte d 6 / 8) low₁,
        bit_or-shift 7 (byte d 4 % 64) (byte d 3 / 2) low₂,
      )
      (omega (arith, low₁, byte-IsByte d 7 h), omega (arith, low₂))

pub degrees : (k : ℕ) → k < 256 → IsDegrees (pos (k * 5) -ℤ pos 400)
unfolding ◌-ℤ◌
degrees k h = ground arith
