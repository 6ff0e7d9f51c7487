-- ===== src/Settings.antt =====
-- main/settings.c: the telemetry interval in the non-volatile storage of ESP-IDF, which is the
-- parameter `Nvs`.
use meb_commander.Base.{
  ℕ, Bool, true, false, ◌||◌, List, Option, none, some, ltb, if◌then◌else◌, codes, not,
}
use meb_commander.Config.{telemetry_min_period_ms, telemetry_max_period_ms}
use meb_commander.Esp.{EspErr, esp_ok, invalid_arg, nvs_no_free_pages, nvs_new_version_found, is_ok}

-- nvs_flash_init, nvs_flash_erase, nvs_open (read-write or read-only), nvs_get_u32, nvs_set_u32,
-- nvs_commit and nvs_close; a namespace and a key are texts, a handle is a number.
pub record Nvs : Type 1 where
  pub World : Type 0
  pub flash_init : World → EspErr × World
  pub flash_erase : World → EspErr × World
  pub open_namespace : List ℕ → Bool → World → EspErr × ℕ × World
  pub get_u32 : ℕ → List ℕ → World → EspErr × ℕ × World
  pub set_u32 : ℕ → List ℕ → ℕ → World → EspErr × World
  pub commit : ℕ → World → EspErr × World
  pub close : ℕ → World → World

abbrev pub settings_namespace : List ℕ
settings_namespace = codes "meb"

abbrev pub telemetry_interval_key : List ℕ
telemetry_interval_key = codes "tel_ms"

module _ (N : Nvs) where
  open N use {World}

  -- `s_settings_initialized` and the storage.
  pub record Settings : Type 0 where
    pub initialized : Bool
    pub world : World

  abbrev needs_erase : EspErr → Bool
  needs_erase nvs_no_free_pages = true
  needs_erase nvs_new_version_found = true
  needs_erase _ = false

  -- The end of `meb_settings_init`, with the last result of nvs_flash_init.
  unfoldable pub note_init : EspErr × World → EspErr × Settings
  note_init (e, world) = (e, record { initialized = is_ok e; world = world })

  -- meb_settings_init
  unfoldable pub init : Settings → EspErr × Settings
  unfolding note_init
  init s =
      if s.initialized
      then (esp_ok, s)
      else let (e, world) = N.flash_init s.world in
        if needs_erase e
        then (let (erased, world') = N.flash_erase world in
            if is_ok erased
            then note_init (N.flash_init world')
            else (erased, record { initialized = false; world = world' }))
        else note_init (e, world)

  -- The read of `meb_settings_get_telemetry_interval_ms` once the storage is up; where no value is
  -- read, `old` stays.
  unfoldable pub read_interval : ℕ → Settings → EspErr × ℕ × Settings
  read_interval old s =
      let (e, handle, world) = N.open_namespace settings_namespace false s.world in
      if not (is_ok e)
      then (e, old, record s { world = world })
      else let (e', value, world') = N.get_u32 handle telemetry_interval_key world in
        (e', (if is_ok e' then value else old), record s { world = N.close handle world' })

  -- meb_settings_get_telemetry_interval_ms, given the value that its pointer points at.
  unfoldable pub get_telemetry_interval_ms : Option ℕ → Settings → EspErr × Option ℕ × Settings
  unfolding init read_interval
  get_telemetry_interval_ms none s = (invalid_arg, none, s)
  get_telemetry_interval_ms (some old) s =
      let (e, s') = init s in
      if not (is_ok e)
      then (e, some old, s')
      else let (e', value, s'') = read_interval old s' in (e', some value, s'')

  -- The write of `meb_settings_set_telemetry_interval_ms` once the storage is up.
  unfoldable pub write_interval : ℕ → Settings → EspErr × Settings
  write_interval interval_ms s =
      let (e, handle, world) = N.open_namespace settings_namespace true s.world in
      if not (is_ok e)
      then (e, record s { world = world })
      else let (put, world') = N.set_u32 handle telemetry_interval_key interval_ms world in
        if is_ok put
        then (let (committed, world'') = N.commit handle world' in
            (committed, record s { world = N.close handle world'' }))
        else (put, record s { world = N.close handle world' })

  -- meb_settings_set_telemetry_interval_ms
  unfoldable pub set_telemetry_interval_ms : ℕ → Settings → EspErr × Settings
  unfolding init write_interval
  set_telemetry_interval_ms interval_ms s =
      if ltb interval_ms telemetry_min_period_ms || ltb telemetry_max_period_ms interval_ms
      then (invalid_arg, s)
      else let (e, s') = init s in if is_ok e then write_interval interval_ms s' else (e, s')
