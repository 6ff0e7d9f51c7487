-- ===== src/Esp.antt =====
-- esp_err_t and the results of fallible calls. The error codes of ESP-IDF and of main/ota_update.h
-- are distinct numbers, here constructors; `other` is any code that the firmware does not name.
use meb_commander.Base.{ℕ, Bool, true, false, ◌≡◌, arith, if◌then◌else◌}

pub data EspErr : Type 0 where
  esp_ok esp_fail no_mem invalid_arg invalid_state invalid_size not_found not_supported : EspErr
  timeout : EspErr
  nvs_not_found nvs_no_free_pages nvs_new_version_found : EspErr
  ota_checksum ota_protocol : EspErr
  other : ℕ → EspErr

-- `err == ESP_OK`
abbrev pub is_ok : EspErr → Bool
is_ok esp_ok = true
is_ok _ = false

-- ESP_OK with what the call hands out, or an error.
pub data Result {ℓ} (A : Type ℓ) : Type ℓ where
  ok : A → Result A
  err : EspErr → Result A

-- ESP_RETURN_ON_FALSE
abbrev pub guard : Bool → EspErr → Result (Unit {0})
guard condition code = if condition then ok tt else err code

infixl 5 ◌>>=◌
abbrev pub ◌>>=◌ {κ ℓ} : {X : Type κ} {Y : Type ℓ} → Result X → (X → Result Y) → Result Y
err code >>= next = err code
ok value >>= next = next value

infixl 5 ◌>>◌
abbrev pub ◌>>◌ {κ} : {Y : Type κ} → Result (Unit {0}) → Result Y → Result Y
first >> second = first >>= (λ done. second)

pub is_ok→eq : (e : EspErr) → is_ok e ≡ true → e ≡ esp_ok
is_ok→eq e h = ground arith

-- ESP_RETURN_ON_ERROR around a call that changes a state, and what follows it.
abbrev pub next {ℓ} : {W : Type ℓ} → EspErr × W → (W → EspErr × W) → EspErr × W
next (e, world) follow = if is_ok e then follow world else (e, world)
