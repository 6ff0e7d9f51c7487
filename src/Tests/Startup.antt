-- ===== src/Tests/Startup.antt =====
-- The start on a chip on which every call succeeds, and on one whose CAN node does not come up.
use meb_commander.Base.{ℕ, ◌≡◌, refl, true, false, List, [], ◌++◌, ◌*◌, ◌⊎◌, arith, some, ◌≢◌, none}
use meb_commander.Esp.{EspErr, esp_ok, esp_fail}
use meb_commander.Control.{booted, load_telemetry_interval_setting}
use meb_commander.Settings.{init, get_telemetry_interval_ms}
use meb_commander.Control.Interval.{IsValid}
use meb_commander.Diag.Status.{poweron}
use meb_commander.Startup.{Chip, Build, Boot, Action, Call, twai_enable, perform, BitTiming}
use meb_commander.Startup.Main.{app_main}
use meb_commander.Startup.Timing.{Gives, quanta, data_timing, bit_timing, data_timing-Gives}
use meb_commander.Startup.Script.{boot_script}
use meb_commander.Startup.Devices.{
  power_management_init, status_led_start, can_init, can_start_test_tx, control_start,
}
use meb_commander.Startup.Consoles.{serial_console_init, ble_console_init}
use meb_commander.Startup.Order.{Follows, app_main-Follows}
use meb_commander.Startup.Ready.{succeeded, app_main-ready}
use meb_commander.Tests.Control.{cell}

abbrev works : Call → ℕ → EspErr × ℕ
works twai_enable w = (esp_fail, w)
works c w = (esp_ok, w)

-- Its world is a number, and it has three mask filters.
abbrev good_chip : Chip
good_chip = record {
  World = ℕ;
  perform = λ c w. (esp_ok, w);
  driver_installed = λ w. false;
  ext_id_mask = 0x1fffffff;
  mask_filters = 3;
}

abbrev dead_can : Chip
dead_can = record {
  World = ℕ;
  perform = works;
  driver_installed = λ w. false;
  ext_id_mask = 0x1fffffff;
  mask_filters = 3;
}

abbrev production : Build
production = record {
  production = true;
  pm_enabled = true;
  light_sleep = true;
  slp_disable_gpio = true;
  max_cpu_freq_mhz = 240;
  ble_enabled = true;
}

abbrev at_reset : (C : Chip) → C.World → Boot C cell
at_reset C w = record {
  world = w;
  control = booted cell (record { initialized = false; world = 500 });
  ble_started = false;
  log = [];
  events = [];
}

dead_can_fails : (app_main dead_can cell production poweron (at_reset dead_can 0)).0 ≡ esp_fail
unfolding app_main booted perform init power_management_init serial_console_init ble_console_init
    status_led_start can_init
dead_can_fails = refl

app_main-Follows_example :
    let end = app_main dead_can cell production poweron (at_reset dead_can 0) in
    (log : List (Action × EspErr)) × (end.1.log ≡ [] ++ log)
    × Follows (boot_script dead_can production poweron) log end.0
unfolding booted
app_main-Follows_example = app_main-Follows dead_can cell production poweron (at_reset dead_can 0)

app_main-ready_example :
    let end = (app_main good_chip cell production poweron (at_reset good_chip 0)).1 in
    (end.log ≡ [] ++ succeeded (boot_script good_chip production poweron))
    × (end.control.settings.initialized ≡ true)
    × IsValid cell end.control
unfolding app_main booted perform init power_management_init serial_console_init ble_console_init
    status_led_start can_init can_start_test_tx control_start load_telemetry_interval_setting
    get_telemetry_interval_ms
app_main-ready_example =
    app_main-ready good_chip cell production poweron (at_reset good_chip 0) refl
      (omega arith, omega arith)

-- The interval of the storage is in memory.
app_main_interval :
    (app_main good_chip cell production poweron
      (at_reset good_chip 0)).1.control.telemetry_interval_ms
    ≡ 500
unfolding app_main booted perform init power_management_init serial_console_init ble_console_init
    status_led_start can_init can_start_test_tx control_start load_telemetry_interval_setting
    get_telemetry_interval_ms
app_main_interval = refl

abbrev two_mbit : ℕ
two_mbit = 2000000

data_timing-Gives_example :
    Gives bit_timing 500000 875
    × ((((two_mbit ≡ 1000000) ⊎ (two_mbit ≡ 2000000))
          × ((t : BitTiming) × (data_timing two_mbit ≡ some t)
              × Gives t two_mbit 750
              × (1000 * t.ssp_offset ≡ 700 * quanta t)))
        ⊎ ((two_mbit ≢ 1000000) × (two_mbit ≢ 2000000) × (data_timing two_mbit ≡ none)))
data_timing-Gives_example = data_timing-Gives two_mbit
