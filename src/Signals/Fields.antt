-- ===== src/Signals/Fields.antt =====
-- The unpacked signals of main/app_state.c against the frame read as one little-endian number.
use meb_commander.Base.{ℕ, ◌+◌, ◌*◌, ◌/◌, ◌%◌, ◌^◌, ◌<◌, ◌≡◌, List, [], ◌∷◌, All, arith}
use meb_commander.Base.Bits.{
  bit_or-shift, bit_and_0x40, bit_and_0xe0, bit_and_0x1c, bit_and_0x03, bit_and_0x3f,
}
use meb_commander.Signals.{decode_heating_status, decode_temperature_status, decode_charge_limits}

-- The frame's bytes as one number, the first byte lowest.
abbrev pub little_endian : List ℕ → ℕ
little_endian [] = 0
little_endian (b ∷ bs) = b + 256 * little_endian bs

-- The `width` bits from bit `start` on.
abbrev pub field : ℕ → ℕ → List ℕ → ℕ
field start width bytes = little_endian bytes / 2 ^ start % 2 ^ width

abbrev pub IsByte : ℕ → Type 0
IsByte b = b < 256

-- The heating status of an eight-byte frame holds the fields at bit 38 (one bit), 45 (three bits),
-- 42 (three bits), 48 and 56 (eight bits each).
pub decode_heating_status_fields :
    (a b c d e f g h : ℕ)
    → All IsByte (a ∷ b ∷ c ∷ d ∷ e ∷ f ∷ g ∷ h ∷ [])
    → let bytes = a ∷ b ∷ c ∷ d ∷ e ∷ f ∷ g ∷ h ∷ [] in
      let s = decode_heating_status bytes in
      (s.active ≡ field 38 1 bytes)
      × (s.request ≡ field 45 3 bytes)
      × (s.cooling_request ≡ field 42 3 bytes)
      × (s.power_w ≡ field 48 8 bytes)
      × (s.power_req_w ≡ field 56 8 bytes)
unfolding decode_heating_status
decode_heating_status_fields a b c d e f g h v = omega (
  arith,
  bit_and_0x40 e (omega arith),
  bit_and_0xe0 f (omega arith),
  bit_and_0x1c f (omega arith),
)

-- The temperature status of a frame is its three bits from bit 15 on, across two bytes.
pub decode_temperature_status-field :
    (a b c : ℕ) (rest : List ℕ)
    → All IsByte (a ∷ b ∷ c ∷ [])
    → (decode_temperature_status (a ∷ b ∷ c ∷ rest)).value ≡ field 15 3 (a ∷ b ∷ c ∷ rest)
unfolding decode_temperature_status
decode_temperature_status-field a b c rest v =
    rw (bit_and_0x03 c, bit_or-shift 1 (c % 4) (b / 128) (omega arith)) (omega arith)

-- The charge limits of an eight-byte frame are its thirteen-bit fields at bit 51, in steps of
-- 0.1 kW, and at bit 25, in steps of 0.2 A.
pub decode_charge_limits_fields :
    (a b c d e f g h : ℕ)
    → All IsByte (a ∷ b ∷ c ∷ d ∷ e ∷ f ∷ g ∷ h ∷ [])
    → let bytes = a ∷ b ∷ c ∷ d ∷ e ∷ f ∷ g ∷ h ∷ [] in
      let s = decode_charge_limits bytes in
      (s.power_kw ≡ field 51 13 bytes) × (s.current_a ≡ field 25 13 bytes * 2)
unfolding decode_charge_limits
decode_charge_limits_fields a b c d e f g h v =
    rw
      (
        bit_and_0x3f e,
        bit_or-shift 5 h (g / 8) (omega arith),
        bit_or-shift 7 (e % 64) (d / 2) (omega arith),
      )
      (omega arith)
