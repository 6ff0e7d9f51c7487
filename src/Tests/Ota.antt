-- ===== src/Tests/Ota.antt =====
-- An update of main/ota_update.c on a platform whose flash is a list of bytes and whose digest is 32
-- times the number of bytes.
use meb_commander.Base.{
  ℕ, ◌+◌, ◌≤◌, ◌≡◌, refl, true, List, [], ◌∷◌, ◌++◌, Option, some, length, All, replicate, arith,
  codes, bytes_eq,
}
use meb_commander.Esp.{esp_ok, ok}
use meb_commander.Signals.Fields.{IsByte}
use meb_commander.Ota.{
  parse_sha256, decode_base64, parse_pairs, decode_groups, hex_digit, read_group, group_bytes,
  store, base64_value,
}
use meb_commander.Ota.Base64.{encode, decode_base64-encode}
use meb_commander.Ota.Bounds.{decode_base64-bounds}
use meb_commander.Ota.Platform.{Platform, Partition, Laws}
use meb_commander.Ota.Session.{
  Device, cleared, update_begin, update_write, update_end, update_cancel, begin_on,
}
use meb_commander.Ota.Session.Invariant.{
  IsValid, update_begin-IsValid, update_write-IsValid, update_write-accepted, update_write-rejected,
  update_end-IsValid, update_cancel-IsValid,
}
use meb_commander.Ota.Session.Integrity.{write_all, update_integrity}

abbrev slot : Partition
slot = record { label = codes "ota_1"; size = 0xe0000 }

abbrev pub toy : Platform
toy = record {
  World = List ℕ;
  Ctx = List ℕ;
  zero_ctx = [];
  next_update_partition = λ w. some slot;
  running_partition = λ w. some slot;
  ota_begin = λ p w. (esp_ok, 1, []);
  ota_write = λ h bytes w. (esp_ok, w ++ bytes);
  ota_abort = λ h w. (esp_ok, w);
  ota_end = λ h w. (esp_ok, w);
  set_boot_partition = λ p w. (esp_ok, w);
  sha256_init = λ c. some [];
  sha256_update = λ c bytes. some (c ++ bytes);
  sha256_final = λ c. some (replicate 32 (length c));
}

toy_laws : Laws toy
toy_laws = record {
  Image = λ w h bytes. w ≡ bytes;
  Hashed = λ c bytes. c ≡ bytes;
  digest = λ bytes. replicate 32 (length bytes);
  image_begin = λ p w w' h e. ground arith;
  image_write = λ w w' h bytes more i e. ground arith;
  image_kept = λ w w' h bytes more e i p bad. absurd (bad (ground arith));
  hashed_init = λ c c' e. ground arith;
  hashed_update = λ c c' bytes more i e. ground arith;
  hashed_total = λ c more e. ground arith;
  hashed_final = λ c bytes sum i e. ground arith;
}

idle : Device toy
unfolding cleared
idle = record { ota = cleared toy; world = [] }

-- The digest of a two-byte image.
abbrev two_hex : List ℕ
two_hex = codes "0202020202020202020202020202020202020202020202020202020202020202"

abbrev two_sum : List ℕ
two_sum = replicate 32 2

begun : Device toy
unfolding update_begin idle
begun = (update_begin toy 2 (some two_hex) idle).1

abbrev chunks : List (ℕ × Option (List ℕ))
chunks = (0, some (codes "AQ==")) ∷ (0, some (codes "Ag==")) ∷ (1, some (codes "Ag==")) ∷ []

parsed : parse_sha256 (some two_hex) ≡ ok two_sum
unfolding parse_sha256 parse_pairs hex_digit codes
parsed = refl

idle-IsValid : IsValid idle.ota
unfolding idle
idle-IsValid = ground arith

begun-IsValid : IsValid begun.ota
unfolding idle begun update_begin begin_on
begun-IsValid = update_begin-IsValid toy 2 (some two_hex) idle (λ p e. ground arith) idle-IsValid

update_begin-IsValid_example : IsValid (update_begin toy 2 (some two_hex) idle).1.ota
update_begin-IsValid_example =
    update_begin-IsValid toy 2 (some two_hex) idle (λ p e. ground arith) idle-IsValid

one_chunk : (update_write toy 0 (some (codes "AQ==")) begun).0 ≡ esp_ok
unfolding update_write decode_base64 decode_groups read_group group_bytes store base64_value begun
    idle parse_sha256 parse_pairs hex_digit codes
one_chunk = refl

update_write-accepted_example :
    let (e, n, d') = update_write toy 0 (some (codes "AQ==")) begun in
    (bytes : List ℕ) × (decode_base64 (codes "AQ==") 576 ≡ ok bytes)
    × (begun.ota.active ≡ true)
    × (0 ≡ begun.ota.written)
    × (n ≡ length bytes)
    × (d'.ota
        ≡ record (begun.ota) { written = begun.ota.written + n; sha256_ctx = d'.ota.sha256_ctx })
    × (begun.ota.written + n ≤ begun.ota.expected_size)
update_write-accepted_example =
    update_write-accepted toy 0 (codes "AQ==") begun begun-IsValid one_chunk

update_integrity_example :
    let full = write_all toy chunks begun in
    (image : List ℕ) × (full.world ≡ image)
    × (length image ≡ 2)
    × (parse_sha256 (some two_hex) ≡ ok (replicate 32 (length image)))
    × ((update_end toy full).1.ota.pending_reboot ≡ true)
unfolding toy_laws update_begin write_all update_write decode_base64 decode_groups read_group
    group_bytes store base64_value begun idle parse_sha256 parse_pairs hex_digit codes update_end
    bytes_eq
update_integrity_example =
    update_integrity toy toy_laws 2 (some two_hex) chunks idle idle-IsValid (λ p e. ground arith)
      refl refl

update_write-rejected_example :
    let (e, n, d') = update_write toy 7 (some (codes "AQ==")) begun in
    (n ≡ 0) × (d'.ota ≡ begun.ota)
unfolding update_write begun idle parse_sha256 parse_pairs hex_digit codes
update_write-rejected_example =
    update_write-rejected toy 7 (some (codes "AQ==")) begun (λ h. ground arith)

decode_base64-encode_example : decode_base64 (encode (1 ∷ 200 ∷ [])) 576 ≡ ok (1 ∷ 200 ∷ [])
decode_base64-encode_example = decode_base64-encode 1 (200 ∷ []) 576 (omega arith) (omega arith)

decode_base64-bounds_example : (1 ≤ 576) × All IsByte (1 ∷ [])
unfolding decode_base64 decode_groups read_group group_bytes store base64_value codes
decode_base64-bounds_example = decode_base64-bounds (codes "AQ==") (1 ∷ []) 576 refl

update_write-IsValid_example : IsValid (update_write toy 0 (some (codes "AQ==")) begun).2.ota
update_write-IsValid_example = update_write-IsValid toy 0 (some (codes "AQ==")) begun begun-IsValid

update_end-IsValid_example : IsValid (update_end toy begun).1.ota
update_end-IsValid_example = update_end-IsValid toy begun begun-IsValid

update_cancel-IsValid_example : IsValid (update_cancel toy begun).1.ota
update_cancel-IsValid_example = update_cancel-IsValid toy begun begun-IsValid
