-- ===== src/Ota.antt =====
-- main/ota_update.c: hex digests and base64 chunks here, the update session in `Ota.Session`.
-- A C string is its bytes without the terminating zero, and an option where the code tests for NULL.
pub mod Base64
pub mod Bounds
pub mod Platform
pub mod Session
use Prim.Native.Nat.{bit_and, bit_or}
use meb_commander.Base.{
  ℕ, ◌+◌, ◌-◌, ◌*◌, ◌/◌, ◌%◌, ◌^◌, Bool, true, false, not, ◌&&◌, ◌||◌, List, [], ◌∷◌, ◌++◌, Option,
  none, some, ltb, leb, ◌==◌, if◌then◌else◌, length, get_or,
}
use meb_commander.Esp.{EspErr, invalid_arg, invalid_size, Result, ok, err, ◌>>=◌, ◌>>◌, guard}

-- The functions below return -1 for a character outside their alphabet; here that is none.
unfoldable pub hex_digit : ℕ → Option ℕ
hex_digit c =
    if leb b'0' c && leb c b'9'
    then some (c - b'0')
    else if leb b'a' c && leb c b'f'
    then some (c - b'a' + 10)
    else if leb b'A' c && leb c b'F'
    then some (c - b'A' + 10)
    else none

-- The loop of `parse_sha256`, two characters to a byte.
unfoldable pub parse_pairs : List ℕ → Result (List ℕ)
parse_pairs [] = ok []
parse_pairs (x ∷ []) = err invalid_arg
parse_pairs (x ∷ y ∷ hex) = elim (hex_digit x) [
  | none ↦ err invalid_arg
  | some hi ↦ elim (hex_digit y) [
    | none ↦ err invalid_arg
    | some lo ↦ parse_pairs hex >>= λ out. ok ((bit_or (hi * 2 ^ 4) lo % 2 ^ 8) ∷ out)
  ]
]

unfoldable pub parse_sha256 : Option (List ℕ) → Result (List ℕ)
parse_sha256 none = err invalid_arg
parse_sha256 (some hex) = if length hex == 64 then parse_pairs hex else err invalid_arg

unfoldable pub base64_value : ℕ → Option ℕ
base64_value c =
    if leb b'A' c && leb c b'Z'
    then some (c - b'A')
    else if leb b'a' c && leb c b'z'
    then some (c - b'a' + 26)
    else if leb b'0' c && leb c b'9'
    then some (c - b'0' + 52)
    else if c == b'+'
    then some 62
    else if c == b'/'
    then some 63
    else none

-- The loop over the characters of one group from the `j`th on, after `pad` signs `=`: the values and
-- the number of signs. `last` tells that the group ends the text.
unfoldable pub read_group : Bool → ℕ → ℕ → List ℕ → Result (List ℕ × ℕ)
read_group last j pad [] = ok ([], pad)
read_group last j pad (c ∷ cs) =
    if c == b'='
    then elim (ltb j 2 || not last) [
      | true ↦ err invalid_arg
      | false ↦ read_group last (j + 1) (pad + 1) cs >>= λ (val, n). ok (0 ∷ val, n)
    ]
    else elim (ltb 0 pad) [
      | true ↦ err invalid_arg
      | false ↦ elim (base64_value c) [
        | none ↦ err invalid_arg
        | some v ↦ read_group last (j + 1) pad cs >>= λ (val, n). ok (v ∷ val, n)
      ]
    ]

-- `dst[out++]` for the bytes of a group, each behind its test of `dst_len`; gives `out`.
unfoldable pub store : ℕ → ℕ → List ℕ → Result ℕ
store dst_len out [] = ok out
store dst_len out (b ∷ bytes) = elim (leb dst_len out) [
  | true ↦ err invalid_size
  | false ↦ store dst_len (out + 1) bytes
]

-- The bytes that four values make, with `pad` signs at the end.
unfoldable pub group_bytes : List ℕ → ℕ → List ℕ
group_bytes val pad =
    (bit_or (get_or val 0 0 * 2 ^ 2) (get_or val 1 0 / 2 ^ 4) % 2 ^ 8)
    ∷ ((if ltb pad 2
          then (bit_or (bit_and (get_or val 1 0) 0x0f * 2 ^ 4) (get_or val 2 0 / 2 ^ 2) % 2 ^ 8)
            ∷ []
          else [])
        ++ (if ltb pad 1
            then (bit_or (bit_and (get_or val 2 0) 0x03 * 2 ^ 6) (get_or val 3 0) % 2 ^ 8) ∷ []
            else []))

abbrev pub is_empty : List ℕ → Bool
is_empty [] = true
is_empty (c ∷ cs) = false

-- The loop over the groups, with `out` bytes written: the bytes that it adds. The text's length is a
-- multiple of four, so the first clauses are not reached but at its end.
unfoldable pub decode_groups : ℕ → ℕ → List ℕ → Result (List ℕ)
decode_groups dst_len out (c₀ ∷ c₁ ∷ c₂ ∷ c₃ ∷ src) = do
  (val, pad) ← read_group (is_empty src) 0 0 (c₀ ∷ c₁ ∷ c₂ ∷ c₃ ∷ [])
  out' ← store dst_len out (group_bytes val pad)
  rest ← decode_groups dst_len out' src
  ok (group_bytes val pad ++ rest)
decode_groups dst_len out _ = ok []

-- The decoded bytes; `*out_len` is their number.
unfoldable pub decode_base64 : List ℕ → ℕ → Result (List ℕ)
decode_base64 src dst_len =
    if length src == 0 || not (length src % 4 == 0)
    then err invalid_arg
    else decode_groups dst_len 0 src
