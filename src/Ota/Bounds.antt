-- ===== src/Ota/Bounds.antt =====
-- What the base64 decoder of main/ota_update.c writes, whatever text it is given: no byte outside its
-- array, and no value outside a byte.
use meb_commander.Base.{
  ℕ, ◌+◌, ◌≤◌, ◌≡◌, refl, Bool, none, List, [], ◌∷◌, ◌++◌, some, arith, length, All, All-append,
  length-append, ◌≢◌, Option,
}
use meb_commander.Esp.{Result, ok, err, ◌>>=◌, esp_ok}
use meb_commander.Signals.Fields.{IsByte}
use meb_commander.Ota.{
  is_empty, read_group, store, group_bytes, decode_groups, decode_base64, parse_pairs, parse_sha256,
}

pub >>=-eq-ok {κ ℓ} :
    {X : Type κ} {Y : Type ℓ} (first : Result X) (next : X → Result Y) {y : Y}
    → (first >>= next) ≡ ok y
    → (x : X) × (first ≡ ok x) × (next x ≡ ok y)
>>=-eq-ok (err code) next returned = cc
>>=-eq-ok (ok value) next returned = (value, refl, returned)

-- Bytes are stored one after another, each below `dst_len`.
store-ok :
    (dst_len out n : ℕ) (bytes : List ℕ)
    → out ≤ dst_len
    → store dst_len out bytes ≡ ok n
    → (n ≡ out + length bytes) × (n ≤ dst_len)
unfolding store
store-ok dst_len out n [] h e = ground arith
store-ok dst_len out n (b ∷ bytes) h e = ground (arith, store-ok dst_len (out + 1) n bytes)

group_bytes-IsByte : (val : List ℕ) (pad : ℕ) → All IsByte (group_bytes val pad)
unfolding group_bytes
group_bytes-IsByte val pad = ground arith

-- A group and the rest after it.
append-bounds :
    (dst_len out out' : ℕ) (group rest bytes : List ℕ)
    → out ≤ dst_len
    → store dst_len out group ≡ ok out'
    → All IsByte group
    → ◌≡◌ {A = Result (List ℕ)} (ok (group ++ rest)) (ok bytes)
    → (out' ≤ dst_len → (out' + length rest ≤ dst_len) × All IsByte rest)
    → (out + length bytes ≤ dst_len) × All IsByte bytes
append-bounds dst_len out out' group rest bytes h kept small e tail =
    let stored = store-ok dst_len out out' group h kept in
    let whole : group ++ rest ≡ bytes = cc in
    let after = tail stored.1 in
    rw (← whole)
      (omega (arith, length-append group rest), All-append IsByte group rest small after.1)

decode_groups-ok :
    (dst_len out : ℕ) (src bytes : List ℕ)
    → out ≤ dst_len
    → decode_groups dst_len out src ≡ ok bytes
    → (out + length bytes ≤ dst_len) × All IsByte bytes
unfolding decode_groups
decode_groups-ok dst_len out (c ∷ d ∷ e ∷ f ∷ src) bytes h p =
    let ((val, pad), _, stored) =
      >>=-eq-ok (read_group (is_empty src) 0 0 (c ∷ d ∷ e ∷ f ∷ [])) _ p in
    let (out', kept, more) = >>=-eq-ok (store dst_len out (group_bytes val pad)) _ stored in
    let (rest, others, whole) = >>=-eq-ok (decode_groups dst_len out' src) _ more in
    append-bounds dst_len out out' (group_bytes val pad) rest bytes h kept
      (group_bytes-IsByte val pad) whole (λ k. decode_groups-ok dst_len out' src rest k others)
decode_groups-ok dst_len out _ bytes h p = ground arith

-- If the decoder accepts a text, the bytes that it wrote fit the array of `dst_len` and each of them
-- is below 256.
pub decode_base64-bounds :
    (src bytes : List ℕ) (dst_len : ℕ)
    → decode_base64 src dst_len ≡ ok bytes
    → (length bytes ≤ dst_len) × All IsByte bytes
unfolding decode_base64
decode_base64-bounds src bytes dst_len h =
    ground (arith, decode_groups-ok dst_len 0 src bytes (omega arith))

-- No function here reports an error under the code ESP_OK.
abbrev pub Honest {ℓ} : {A : Type ℓ} → Result A → Type ℓ
Honest r = r ≢ err esp_ok

>>=-Honest {ℓ κ} :
    {A : Type ℓ} {B : Type κ} (m : Result A) (f : A → Result B)
    → Honest m
    → ((a : A) → Honest (f a))
    → Honest (m >>= f)
>>=-Honest (ok a) f h k = k a
>>=-Honest (err e) f h k = λ p. h (ground arith)

store-Honest : (dst_len out : ℕ) (bytes : List ℕ) → Honest (store dst_len out bytes)
unfolding store
store-Honest dst_len out [] = λ h. cc
store-Honest dst_len out (b ∷ bytes) = λ h. ground (arith, store-Honest dst_len (out + 1) bytes)

read_group-Honest : (last : Bool) (j pad : ℕ) (cs : List ℕ) → Honest (read_group last j pad cs)
unfolding read_group
read_group-Honest last j pad [] = λ h. cc
read_group-Honest last j pad (c ∷ cs) = λ h.
    ground
      (arith, read_group-Honest last (j + 1) (pad + 1) cs, read_group-Honest last (j + 1) pad cs)

decode_groups-Honest : (dst_len out : ℕ) (src : List ℕ) → Honest (decode_groups dst_len out src)
unfolding decode_groups
decode_groups-Honest dst_len out (c ∷ d ∷ e ∷ f ∷ src) =
    >>=-Honest (read_group (is_empty src) 0 0 (c ∷ d ∷ e ∷ f ∷ [])) _
      (read_group-Honest (is_empty src) 0 0 (c ∷ d ∷ e ∷ f ∷ []))
      λ (val, pad).
        >>=-Honest (store dst_len out (group_bytes val pad)) _
          (store-Honest dst_len out (group_bytes val pad))
          λ out'.
            >>=-Honest (decode_groups dst_len out' src) _ (decode_groups-Honest dst_len out' src)
              λ rest h. cc
decode_groups-Honest dst_len out _ = λ h. cc

pub decode_base64-Honest : (src : List ℕ) (dst_len : ℕ) → Honest (decode_base64 src dst_len)
unfolding decode_base64
decode_base64-Honest src dst_len = λ h. ground (arith, decode_groups-Honest dst_len 0 src)

parse_pairs-Honest : (hex : List ℕ) → Honest (parse_pairs hex)
unfolding parse_pairs
parse_pairs-Honest [] = λ h. cc
parse_pairs-Honest (x ∷ []) = λ h. cc
parse_pairs-Honest (x ∷ y ∷ hex) = λ h. ground (arith, parse_pairs-Honest hex)

pub parse_sha256-Honest : (hex : Option (List ℕ)) → Honest (parse_sha256 hex)
unfolding parse_sha256
parse_sha256-Honest none = λ h. cc
parse_sha256-Honest (some hex) = λ h. ground (arith, parse_pairs-Honest hex)
