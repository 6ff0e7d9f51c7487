-- ===== src/Control/Interval.antt =====
-- The telemetry interval of main/control.c, in memory and in the storage.
use meb_commander.Base.{ℕ, ◌≡◌, ◌≤◌, ◌≢◌, refl, ap, true, false, List, [], ◌∷◌, some, arith, ◌⊎◌}
use meb_commander.Config.{telemetry_min_period_ms, telemetry_max_period_ms}
use meb_commander.Esp.{esp_ok}
use meb_commander.Settings.{
  Nvs, Settings, settings_namespace, telemetry_interval_key, init, read_interval, write_interval,
  set_telemetry_interval_ms, get_telemetry_interval_ms, note_init,
}
use meb_commander.Control.{
  Control, booted, telemetry_interval_is_valid, set_interval, use_loaded,
  load_telemetry_interval_setting,
}

module _ (N : Nvs) where
  open N use {World}

  -- What tasks call on the interval.
  pub data Call : Type 0 where
    load : Call
    change : ℕ → Call

  unfoldable pub run : List Call → Control N → Control N
  run [] c = c
  run (load ∷ calls) c = run calls (load_telemetry_interval_setting N c).2
  run (change ms ∷ calls) c = run calls (set_interval N ms c).2

  abbrev pub IsValid : Control N → Type 0
  IsValid c =
      (telemetry_min_period_ms ≤ c.telemetry_interval_ms)
      × (c.telemetry_interval_ms ≤ telemetry_max_period_ms)

  pub load-IsValid : (c : Control N) → IsValid c → IsValid (load_telemetry_interval_setting N c).2
  unfolding load_telemetry_interval_setting use_loaded telemetry_interval_is_valid
  load-IsValid c v = ground arith

  pub change-IsValid : (ms : ℕ) (c : Control N) → IsValid c → IsValid (set_interval N ms c).2
  unfolding set_interval telemetry_interval_is_valid
  change-IsValid ms c v = ground arith

  run-IsValid : (calls : List Call) (c : Control N) → IsValid c → IsValid (run calls c)
  unfolding run
  run-IsValid [] c v = v
  run-IsValid (load ∷ calls) c v =
      run-IsValid calls (load_telemetry_interval_setting N c).2 (load-IsValid c v)
  run-IsValid (change ms ∷ calls) c v =
      run-IsValid calls (set_interval N ms c).2 (change-IsValid ms c v)

  -- Whatever the storage holds and however it fails, after any loads and changes since boot the
  -- telemetry interval is between the two bounds.
  pub run-booted-IsValid : (calls : List Call) (s : Settings N) → IsValid (run calls (booted N s))
  unfolding booted
  run-booted-IsValid calls s = run-IsValid calls (booted N s) (omega arith, omega arith)

  -- A change that is refused or fails leaves the interval in memory as it was, and one that succeeds
  -- sets it.
  pub set_interval-result :
      (ms : ℕ) (c : Control N)
      → let (e, events, c') = set_interval N ms c in
        ((e ≡ esp_ok) × (c'.telemetry_interval_ms ≡ ms))
        ⊎ ((e ≢ esp_ok) × (c'.telemetry_interval_ms ≡ c.telemetry_interval_ms))
  unfolding set_interval
  set_interval-result ms c = ground arith

  -- What the storage keeps: `Stored` says that a value was committed last under the key. A value is set
  -- with a handle that a successful nvs_open gave for writing, and read with one that it gave.
  pub record Laws : Type 1 where
    pub Stored : World → ℕ → Type 0
    pub stores :
        (handle v : ℕ) (w opened put done : World)
        → N.open_namespace settings_namespace true w ≡ (esp_ok, handle, opened)
        → N.set_u32 handle telemetry_interval_key v opened ≡ (esp_ok, put)
        → N.commit handle put ≡ (esp_ok, done)
        → Stored (N.close handle done) v
    pub init_keeps :
        (v : ℕ) (w w' : World) → Stored w v → N.flash_init w ≡ (esp_ok, w') → Stored w' v
    pub reads :
        (v handle : ℕ) (w opened : World)
        → Stored w v
        → N.open_namespace settings_namespace false w ≡ (esp_ok, handle, opened)
        → (w' : World) × (N.get_u32 handle telemetry_interval_key opened ≡ (esp_ok, v, w'))

module _ (N : Nvs) (L : Laws N) where
  open L use {Stored}

  write-stored :
      (ms : ℕ) (s : Settings N)
      → (write_interval N ms s).0 ≡ esp_ok
      → Stored (write_interval N ms s).1.world ms
  unfolding write_interval
  write-stored ms s good =
      let opened = N.open_namespace settings_namespace true s.world in
      let put = N.set_u32 opened.1 telemetry_interval_key ms opened.2 in
      let committed = N.commit opened.1 put.1 in
      let closed : (write_interval N ms s).1.world ≡ N.close opened.1 committed.1 = ground arith in
      let opened_ok : opened.0 ≡ esp_ok = ground arith in
      let put_ok : put.0 ≡ esp_ok = ground arith in
      let committed_ok : committed.0 ≡ esp_ok = ground arith in
      rw closed (
        L.stores opened.1 ms s.world opened.2 put.1 committed.1
          (ap (λ e. (e, opened.1, opened.2)) opened_ok) (ap (λ e. (e, put.1)) put_ok)
          (ap (λ e. (e, committed.1)) committed_ok))

  -- A change that succeeds has stored the value and is within the bounds.
  change-stored :
      (ms : ℕ) (c : Control N)
      → (set_interval N ms c).0 ≡ esp_ok
      → Stored (set_interval N ms c).2.settings.world ms × (telemetry_interval_is_valid ms ≡ true)
  unfolding set_interval set_telemetry_interval_ms
  change-stored ms c good =
      let s = (init N c.settings).1 in
      let valid : telemetry_interval_is_valid ms ≡ true = ground arith in
      let same : (set_interval N ms c).2.settings ≡ (write_interval N ms s).1 = ground arith in
      let written : (write_interval N ms s).0 ≡ esp_ok = ground arith in
      (rw same (write-stored ms s written), valid)

  -- A restart reads what is stored.
  restart-reads :
      (ms handle : ℕ) (world w w' : N.World)
      → Stored world ms
      → N.flash_init world ≡ (esp_ok, w)
      → N.open_namespace settings_namespace false w ≡ (esp_ok, handle, w')
      → let (e, value, s) =
          get_telemetry_interval_ms N (some 0) (record { initialized = false; world = world }) in
        (e ≡ esp_ok) × (value ≡ some ms)
  unfolding get_telemetry_interval_ms init note_init read_interval
  restart-reads ms handle world w w' stored up opened =
      let (w'', read) = L.reads ms handle w w' (L.init_keeps ms world w stored up) opened in
      simp (up, opened, read) (refl, refl)

  -- A change of the telemetry interval that succeeds is what a load after a restart puts in memory,
  -- where the storage is as the change left it and comes up and opens without error; under the stated
  -- laws of the storage, in which a value is set and read only with a handle that was opened.
  pub set_interval-load :
      (ms handle : ℕ) (c : Control N) (w w' : N.World)
      → (set_interval N ms c).0 ≡ esp_ok
      → N.flash_init (set_interval N ms c).2.settings.world ≡ (esp_ok, w)
      → N.open_namespace settings_namespace false w ≡ (esp_ok, handle, w')
      → let off : Settings N = record {
        initialized = false;
        world = (set_interval N ms c).2.settings.world;
      } in
        (load_telemetry_interval_setting N (booted N off)).2.telemetry_interval_ms ≡ ms
  unfolding load_telemetry_interval_setting use_loaded booted
  set_interval-load ms handle c w w' good up opened =
      let (stored, valid) = change-stored ms c good in
      let (e, value) = restart-reads ms handle _ w w' stored up opened in
      simp (e, value, valid) refl
