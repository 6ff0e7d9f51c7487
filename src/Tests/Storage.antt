-- ===== src/Tests/Storage.antt =====
-- A storage of ESP-IDF that keeps one namespace with one key, and a telemetry interval over a restart.
use meb_commander.Base.{
  ℕ, ◌≡◌, refl, Bool, true, false, ◌&&◌, List, Option, none, some, if◌then◌else◌, arith, bytes_eq,
  bytes_eq_refl, codes, ◌==◌,
}
use meb_commander.Esp.{EspErr, esp_ok, other, nvs_not_found}
use meb_commander.Settings
use meb_commander.Settings.{
  Nvs, Settings, settings_namespace, telemetry_interval_key, set_telemetry_interval_ms,
}
use meb_commander.Control.{Control, booted, set_interval, load_telemetry_interval_setting}
use meb_commander.Control.Interval.{Laws, set_interval-load}

-- The value in the flash, the one that waits for a commit, whether the storage is up, and the handle 1,
-- if it is open, with whether it may write.
record Flash : Type 0 where
  kept : Option ℕ
  waiting : Option ℕ
  up : Bool
  handle : Option Bool

abbrev not_initialized : EspErr
not_initialized = other 0x1101

abbrev read_only : EspErr
read_only = other 0x1104

abbrev invalid_handle : EspErr
invalid_handle = other 0x1107

abbrev is_open : ℕ → Flash → Bool
is_open h w = h == 1 && elim w.handle [ none ↦ false | some writes ↦ true ]

abbrev may_write : ℕ → Flash → Bool
may_write h w = h == 1 && elim w.handle [ none ↦ false | some writes ↦ writes ]

abbrev found : Option ℕ → Flash → EspErr × ℕ × Flash
found none w = (nvs_not_found, 0, w)
found (some v) w = (esp_ok, v, w)

abbrev open_flash : List ℕ → Bool → Flash → EspErr × ℕ × Flash
open_flash name writes w =
    if w.up && bytes_eq name settings_namespace
    then (esp_ok, 1, record w { handle = some writes; waiting = none })
    else (not_initialized, 0, w)

abbrev get_flash : ℕ → List ℕ → Flash → EspErr × ℕ × Flash
get_flash h key w =
    if is_open h w
    then if bytes_eq key telemetry_interval_key then found w.kept w else (nvs_not_found, 0, w)
    else (invalid_handle, 0, w)

abbrev set_flash : ℕ → List ℕ → ℕ → Flash → EspErr × Flash
set_flash h key v w =
    if may_write h w && bytes_eq key telemetry_interval_key
    then (esp_ok, record w { waiting = some v })
    else (read_only, w)

abbrev later_of : Option ℕ → Option ℕ → Option ℕ
later_of none old = old
later_of (some v) old = some v

abbrev commit_flash : ℕ → Flash → EspErr × Flash
commit_flash h w =
    if may_write h w
    then (esp_ok, record w { kept = later_of w.waiting w.kept; waiting = none })
    else (invalid_handle, w)

abbrev flash : Nvs
flash = record {
  World = Flash;
  flash_init = λ w. (esp_ok, record w { up = true });
  flash_erase = λ w. (esp_ok, record { kept = none; waiting = none; up = false; handle = none });
  open_namespace = open_flash;
  get_u32 = get_flash;
  set_u32 = set_flash;
  commit = commit_flash;
  close = λ h w. if h == 1 then record w { handle = none } else w;
}

open_flash-ok :
    (writes : Bool) (h : ℕ) (w w' : Flash)
    → open_flash settings_namespace writes w ≡ (esp_ok, h, w')
    → (h ≡ 1) × (w' ≡ record w { handle = some writes; waiting = none })
unfolding bytes_eq
open_flash-ok writes h w w' e = ground (arith, e)

set_flash-waiting :
    (h v : ℕ) (w w' : Flash)
    → set_flash h telemetry_interval_key v w ≡ (esp_ok, w')
    → w' ≡ record w { waiting = some v }
set_flash-waiting h v w w' e = ground (arith, e)

commit_flash-kept :
    (h v : ℕ) (w w' : Flash)
    → w.waiting ≡ some v
    → commit_flash h w ≡ (esp_ok, w')
    → w'.kept ≡ some v
commit_flash-kept h v w w' waits e = ground (arith, waits, e)

close-kept : (h : ℕ) (w : Flash) → (flash.close h w).kept ≡ w.kept
close-kept h w = ground arith

flash_reads :
    (v h : ℕ) (w w' : Flash)
    → w.kept ≡ some v
    → open_flash settings_namespace false w ≡ (esp_ok, h, w')
    → get_flash h telemetry_interval_key w' ≡ (esp_ok, v, w')
unfolding bytes_eq
flash_reads v h w w' stored e =
    let (first, after) = open_flash-ok false h w w' e in
    ground (arith, first, after, stored, bytes_eq_refl telemetry_interval_key)

flash_laws : Laws flash
flash_laws = record {
  Stored = λ w v. w.kept ≡ some v;
  stores = λ h v w opened put done e f g. ground (
    arith,
    close-kept h done,
    commit_flash-kept h v put done (ground (arith, set_flash-waiting h v opened put f)) g,
  );
  init_keeps = λ v w w' stored e. ground (arith, stored, e);
  reads = λ v h w opened stored e. (opened, flash_reads v h w opened stored e);
}

-- A storage with nothing in it, before it comes up.
abbrev new_flash : Flash
new_flash = record { kept = none; waiting = none; up = false; handle = none }

abbrev start : Control flash
start = record {
  telemetry_interval_ms = 1000;
  settings = record { initialized = false; world = new_flash };
}

-- What a change to 250 ms leaves, and then the storage up again and open for reading.
abbrev written : Flash
written = record { kept = some 250; waiting = none; up = true; handle = none }

abbrev reading : Flash
reading = record { kept = some 250; waiting = none; up = true; handle = some false }

set_interval-load_example :
    let off : Settings flash = record {
      initialized = false;
      world = (set_interval flash 250 start).2.settings.world;
    } in
    (load_telemetry_interval_setting flash (booted flash off)).2.telemetry_interval_ms ≡ 250
unfolding set_interval set_telemetry_interval_ms Settings.init bytes_eq codes
set_interval-load_example =
    set_interval-load flash flash_laws 250 1 start written reading refl refl refl

-- A handle that is not open gives nothing.
closed_handle : (flash.get_u32 1 telemetry_interval_key written).0 ≡ invalid_handle
closed_handle = refl
