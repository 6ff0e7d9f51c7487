-- ===== src/Ota/Base64.antt =====
-- The base64 decoder of main/ota_update.c against an encoder for the alphabet of RFC 4648.
use meb_commander.Base.{
  ℕ, ◌+◌, ◌-◌, ◌*◌, ◌/◌, ◌%◌, ◌^◌, ◌≤◌, ◌<◌, ◌≡◌, refl, ap, ◌∙◌, Bool, true, false, List, [], ◌∷◌,
  ◌++◌, some, arith, ltb, ◌==◌, if◌then◌else◌, length, All,
}
use meb_commander.Base.Bits.{bit_or-shift, bit_and_0x03, bit_and_0x0f}
use meb_commander.Esp.{ok, ◌>>=◌}
use meb_commander.Signals.Fields.{IsByte}
use meb_commander.Ota.{
  base64_value, read_group, store, group_bytes, decode_groups, decode_base64, bit_or, bit_and,
  is_empty,
}

-- The character for a value below 64.
pub encode_value : ℕ → ℕ
encode_value v =
    if ltb v 26
    then b'A' + v
    else if ltb v 52
    then b'a' + (v - 26)
    else if ltb v 62
    then b'0' + (v - 52)
    else if v == 62
    then b'+'
    else b'/'

-- Three bytes to four characters, and one or two bytes to four with signs `=`.
pub encode : List ℕ → List ℕ
encode [] = []
encode (a ∷ []) = encode_value (a / 4) ∷ encode_value (a % 4 * 16) ∷ b'=' ∷ b'=' ∷ []
encode (a ∷ b ∷ []) =
    encode_value (a / 4)
    ∷ encode_value (a % 4 * 16 + b / 16)
    ∷ encode_value (b % 16 * 4)
    ∷ b'='
    ∷ []
encode (a ∷ b ∷ c ∷ rest) =
    encode_value (a / 4)
    ∷ encode_value (a % 4 * 16 + b / 16)
    ∷ encode_value (b % 16 * 4 + c / 64)
    ∷ encode_value (c % 64)
    ∷ encode rest

base64_value-encode_value : (v : ℕ) → v < 64 → base64_value (encode_value v) ≡ some v
unfolding base64_value encode_value
base64_value-encode_value v h = ground arith

encode_value-ne : (v : ℕ) → v < 64 → (encode_value v == b'=') ≡ false
unfolding encode_value
encode_value-ne v h = ground arith

-- The three shapes of a group are read as their values.
read_group-three :
    (last : Bool) (v w x y : ℕ)
    → All (λ k. k < 64) (v ∷ w ∷ x ∷ y ∷ [])
    → read_group last 0 0 (encode_value v ∷ encode_value w ∷ encode_value x ∷ encode_value y ∷ [])
      ≡ ok (v ∷ w ∷ x ∷ y ∷ [], 0)
unfolding read_group
read_group-three last v w x y (hv, (hw, (hx, (hy, _)))) = rw (
  encode_value-ne v hv,
  base64_value-encode_value v hv,
  encode_value-ne w hw,
  base64_value-encode_value w hw,
  encode_value-ne x hx,
  base64_value-encode_value x hx,
  encode_value-ne y hy,
  base64_value-encode_value y hy,
)

read_group-two :
    (v w x : ℕ)
    → All (λ k. k < 64) (v ∷ w ∷ x ∷ [])
    → read_group true 0 0 (encode_value v ∷ encode_value w ∷ encode_value x ∷ b'=' ∷ [])
      ≡ ok (v ∷ w ∷ x ∷ 0 ∷ [], 1)
unfolding read_group
read_group-two v w x (hv, (hw, (hx, _))) = rw (
  encode_value-ne v hv,
  base64_value-encode_value v hv,
  encode_value-ne w hw,
  base64_value-encode_value w hw,
  encode_value-ne x hx,
  base64_value-encode_value x hx,
)

read_group-one :
    (v w : ℕ)
    → All (λ k. k < 64) (v ∷ w ∷ [])
    → read_group true 0 0 (encode_value v ∷ encode_value w ∷ b'=' ∷ b'=' ∷ [])
      ≡ ok (v ∷ w ∷ 0 ∷ 0 ∷ [], 2)
unfolding read_group
read_group-one v w (hv, (hw, _)) = rw (
  encode_value-ne v hv,
  base64_value-encode_value v hv,
  encode_value-ne w hw,
  base64_value-encode_value w hw,
)

-- The bytes that the values were taken from.
first_byte :
    (a r : ℕ) → a < 256 → r < 16 → bit_or (a / 4 * 2 ^ 2) ((a % 4 * 16 + r) / 2 ^ 4) % 2 ^ 8 ≡ a
first_byte a r ha hr =
    rw (bit_or-shift 2 (a / 4) ((a % 4 * 16 + r) / 16) (omega arith)) (omega arith)

second_byte :
    (h b r : ℕ)
    → b < 256
    → r < 4
    → bit_or (bit_and (h * 16 + b / 16) 0x0f * 2 ^ 4) ((b % 16 * 4 + r) / 2 ^ 2) % 2 ^ 8 ≡ b
second_byte h b r hb hr =
    rw
      (
        bit_and_0x0f (h * 16 + b / 16),
        bit_or-shift 4 ((h * 16 + b / 16) % 16) ((b % 16 * 4 + r) / 4) (omega arith),
      )
      (omega arith)

third_byte :
    (h c : ℕ) → c < 256 → bit_or (bit_and (h * 4 + c / 64) 0x03 * 2 ^ 6) (c % 64) % 2 ^ 8 ≡ c
third_byte h c hc =
    rw (bit_and_0x03 (h * 4 + c / 64), bit_or-shift 6 ((h * 4 + c / 64) % 4) (c % 64) (omega arith))
      (omega arith)

store-fits :
    (dst_len out : ℕ) (bytes : List ℕ)
    → out + length bytes ≤ dst_len
    → store dst_len out bytes ≡ ok (out + length bytes)
unfolding store
store-fits dst_len out [] h = ap ok (omega arith)
store-fits dst_len out (b ∷ bytes) h = ground (arith, store-fits dst_len (out + 1) bytes)

decode_groups-nil : (dst_len out : ℕ) → decode_groups dst_len out [] ≡ ok []
unfolding decode_groups
decode_groups-nil dst_len out = refl

group_bytes-one : (a : ℕ) → a < 256 → group_bytes ((a / 4) ∷ (a % 4 * 16) ∷ 0 ∷ 0 ∷ []) 2 ≡ a ∷ []
unfolding group_bytes
group_bytes-one a h =
    rw (bit_or-shift 2 (a / 4) (a % 4 * 16 / 2 ^ 4) (omega arith)) (ap (λ k. k ∷ []) (omega arith))

group_bytes-two :
    (a b : ℕ)
    → All IsByte (a ∷ b ∷ [])
    → group_bytes ((a / 4) ∷ (a % 4 * 16 + b / 16) ∷ (b % 16 * 4) ∷ 0 ∷ []) 1 ≡ a ∷ b ∷ []
unfolding group_bytes
group_bytes-two a b v =
    rw
      (
        first_byte a (b / 16) v.0 (omega arith),
        bit_and_0x0f (a % 4 * 16 + b / 16),
        bit_or-shift 4 ((a % 4 * 16 + b / 16) % 16) (b % 16 * 4 / 4) (omega arith),
      )
      (ap (λ k. a ∷ k ∷ []) (omega arith))

-- A group that is read, whose bytes fit, is followed by the rest of the text.
decode_groups-group :
    (dst_len out c d e f pad : ℕ) (src val bytes : List ℕ)
    → read_group (is_empty src) 0 0 (c ∷ d ∷ e ∷ f ∷ []) ≡ ok (val, pad)
    → group_bytes val pad ≡ bytes
    → out + length bytes ≤ dst_len
    → decode_groups dst_len out (c ∷ d ∷ e ∷ f ∷ src)
      ≡ (decode_groups dst_len (out + length bytes) src >>= λ rest. ok (bytes ++ rest))
unfolding decode_groups
decode_groups-group dst_len out c d e f pad src val bytes read made fits =
    rw (read, made, store-fits dst_len out bytes fits)

group_bytes-three :
    (a b c : ℕ)
    → All IsByte (a ∷ b ∷ c ∷ [])
    → group_bytes ((a / 4) ∷ (a % 4 * 16 + b / 16) ∷ (b % 16 * 4 + c / 64) ∷ (c % 64) ∷ []) 0
      ≡ a ∷ b ∷ c ∷ []
unfolding group_bytes
group_bytes-three a b c v = rw (
  first_byte a (b / 16) v.0 (omega arith),
  second_byte (a % 4) b (c / 64) v.1.0 (omega arith),
  third_byte (b % 16) c v.1.1.0,
)

decode_groups-encode :
    (dst_len out : ℕ) (bytes : List ℕ)
    → All IsByte bytes
    → out + length bytes ≤ dst_len
    → decode_groups dst_len out (encode bytes) ≡ ok bytes
unfolding encode
decode_groups-encode dst_len out [] v h = decode_groups-nil dst_len out
decode_groups-encode dst_len out (a ∷ []) v h =
    decode_groups-group dst_len out _ _ _ _ 2 [] _ (a ∷ [])
      (read_group-one (a / 4) (a % 4 * 16) (omega arith)) (group_bytes-one a v.0) h
    ∙ rw (decode_groups-nil dst_len (out + 1))
decode_groups-encode dst_len out (a ∷ b ∷ []) v h =
    decode_groups-group dst_len out _ _ _ _ 1 [] _ (a ∷ b ∷ [])
      (read_group-two (a / 4) (a % 4 * 16 + b / 16) (b % 16 * 4) (omega arith))
      (group_bytes-two a b v) h
    ∙ rw (decode_groups-nil dst_len (out + 2))
decode_groups-encode dst_len out (a ∷ b ∷ c ∷ rest) v h =
    decode_groups-group dst_len out _ _ _ _ 0 (encode rest) _ (a ∷ b ∷ c ∷ [])
      (read_group-three (is_empty (encode rest)) (a / 4) (a % 4 * 16 + b / 16) (b % 16 * 4 + c / 64)
        (c % 64) (omega arith))
      (group_bytes-three a b c (omega arith)) (omega arith)
    ∙ rw (decode_groups-encode dst_len (out + 3) rest v.1.1.1 (omega arith))

-- The length of an encoding is a multiple of four.
length-encode : (bytes : List ℕ) → length (encode bytes) % 4 ≡ 0
unfolding encode
length-encode [] = refl
length-encode (a ∷ []) = refl
length-encode (a ∷ b ∷ []) = refl
length-encode (a ∷ b ∷ c ∷ rest) = omega (arith, length-encode rest)

length-encode_pos : (b : ℕ) (bytes : List ℕ) → 0 < length (encode (b ∷ bytes))
unfolding encode
length-encode_pos b [] = omega arith
length-encode_pos b (c ∷ []) = omega arith
length-encode_pos b (c ∷ d ∷ rest) = omega arith

-- Decoding the encoding of one or more bytes gives them back where they fit the array.
pub decode_base64-encode :
    (b : ℕ) (bytes : List ℕ) (dst_len : ℕ)
    → All IsByte (b ∷ bytes)
    → length (b ∷ bytes) ≤ dst_len
    → decode_base64 (encode (b ∷ bytes)) dst_len ≡ ok (b ∷ bytes)
unfolding decode_base64
decode_base64-encode b bytes dst_len v h = ground (
  arith,
  length-encode (b ∷ bytes),
  length-encode_pos b bytes,
  decode_groups-encode dst_len 0 (b ∷ bytes) v (omega arith),
)
