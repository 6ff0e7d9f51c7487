-- ===== src/Startup/Script/Functions.antt =====
-- The functions of the start run through the lists of `Script`.
use meb_commander.Startup.Consoles.{serial_console_init, ble_console_init, nimble_console_init}
use meb_commander.Startup.Main.{ready_event, ready_text, app_main, diag_init, state_init}
use meb_commander.Startup.Devices.{
  start_monitor, filters, power_management_init, light_sleep_init,
  configure_light_sleep_gpio_behavior, status_led_start, configure_exact_canfd_timing, can_init,
  control_start, can_start_test_tx, configure_led,
}
use meb_commander.Base.{ℕ, zero, suc, ◌+◌, ◌≡◌, List, [], ◌∷◌, if◌then◌else◌, arith}
use meb_commander.Esp.{EspErr, no_mem, is_ok, esp_ok}
use meb_commander.Config.{twai_data_bitrate}
use meb_commander.Settings.{Nvs}
use meb_commander.Power.{start_debug_pm_monitor, set_debug_pm_lock}
use meb_commander.Diag.Status.{ResetReason}
use meb_commander.Can.Filters.{exact_ids, disable_all, accept_exact, configure_rx_filters}
use meb_commander.Startup.{
  Chip, Build, Boot, Call, perform, must, pm_lock_create, must_or, pm_lock_acquire, create_task,
  debug_pm, note, twai_reconfig_timing, print,
}
use meb_commander.Startup.Runs.{run, Runs, run-done, run-perform, ◌◂◌, run-if}
use meb_commander.Startup.Timing.{bit_timing, data_timing, with_brp}
use meb_commander.Startup.Script.{
  monitor_script, gpio_script, power_script, serial_script, ble_script, led_script, disabling,
  accepting, control_script, filter_script, can_script, boot_script,
}

module _ (C : Chip) (N : Nvs) where
  -- An action that reports `code` reports nothing else.
  must_or-code :
      (code : EspErr) (c : Call) (b : Boot C N)
      → let (e, b') = perform C N (must_or code c) b in (if is_ok e then esp_ok else code) ≡ e
  unfolding perform
  must_or-code code c b = ground arith

  start_monitor-Runs : Runs C N monitor_script (start_monitor C N)
  unfolding start_monitor start_debug_pm_monitor set_debug_pm_lock run
  start_monitor-Runs = record {
    same = λ b.
        let r₁ = perform C N (must pm_lock_create) b in
        let r₂ = perform C N (must pm_lock_acquire) r₁.1 in
        ground (arith, must_or-code no_mem (create_task debug_pm 3072 2) r₂.1);
  }

  disable_all-Runs : (i n : ℕ) → Runs C N (disabling i n) (disable_all (filters C N) i n)
  unfolding disable_all disabling
  disable_all-Runs i zero = run-done
  disable_all-Runs i (suc n) = run-perform ◂ (disable_all-Runs (i + 1) n)

  accept_exact-Runs :
      (i : ℕ) (ids : List ℕ)
      → Runs C N (accepting C.ext_id_mask i ids) (accept_exact (filters C N) i ids)
  unfolding accept_exact accepting
  accept_exact-Runs i [] = run-done
  accept_exact-Runs i (id ∷ ids) = run-perform ◂ (accept_exact-Runs (i + 1) ids)

  configure_rx_filters-Runs :
      Runs C N (filter_script C) (configure_rx_filters (filters C N) C.mask_filters)
  unfolding configure_rx_filters
  configure_rx_filters-Runs =
      disable_all-Runs 0 C.mask_filters ◂ (run-perform ◂ accept_exact-Runs 0 exact_ids)

  keep_gpios-Runs :
      (build : Build)
      → Runs C N
          (gpio_script build)
          (configure_light_sleep_gpio_behavior C N build.slp_disable_gpio)
  unfolding configure_light_sleep_gpio_behavior
  keep_gpios-Runs build =
      run-if build.slp_disable_gpio
        (run-perform ◂ run-perform ◂ run-perform ◂ run-perform ◂ run-perform)

  power_management_init-Runs :
      (build : Build) → Runs C N (power_script build) (power_management_init C N build)
  unfolding power_management_init light_sleep_init
  power_management_init-Runs build =
      run-if build.pm_enabled
        (run-perform ◂ run-if build.light_sleep (keep_gpios-Runs build ◂ start_monitor-Runs))

  serial_console_init-Runs : Runs C N serial_script (serial_console_init C N)
  unfolding serial_console_init
  serial_console_init-Runs =
      run-perform ◂ run-perform ◂ run-perform ◂ run-perform ◂ run-perform ◂ run-perform

  ble_console_init-Runs :
      (build : Build)
      → Runs C N
          (if build.ble_enabled then ble_script else [])
          (ble_console_init C N build.ble_enabled)
  unfolding ble_console_init nimble_console_init
  ble_console_init-Runs build = run-if build.ble_enabled (
      run-perform ◂ run-perform ◂ run-perform ◂ run-perform ◂ run-perform ◂ run-perform
      ◂ run-perform ◂ run-perform ◂ run-perform ◂ run-perform ◂ run-perform ◂ run-perform
      ◂ run-perform)

  status_led_start-Runs : Runs C N led_script (status_led_start C N)
  unfolding status_led_start configure_led
  status_led_start-Runs = (run-perform ◂ run-perform) ◂ run-perform

  timing-Runs :
      Runs C N
        (must (twai_reconfig_timing bit_timing (with_brp 1)) ∷ [])
        (configure_exact_canfd_timing C N twai_data_bitrate)
  unfolding configure_exact_canfd_timing data_timing
  timing-Runs = run-perform

  can_init-Runs : Runs C N (can_script C) (can_init C N)
  unfolding can_init
  can_init-Runs =
      run-perform ◂ run-perform ◂ timing-Runs ◂ configure_rx_filters-Runs ◂ run-perform
      ◂ run-perform ◂ run-perform ◂ run-perform

  control_start-Runs : Runs C N control_script (control_start C N)
  unfolding control_start
  control_start-Runs = run-perform ◂ run-perform ◂ run-perform

  can_start_test_tx-Runs : Runs C N [] (can_start_test_tx C N)
  unfolding can_start_test_tx
  can_start_test_tx-Runs = run-done

  -- app_main runs through its list of actions, up to the first that fails.
  pub app_main-Runs :
      (build : Build) (reason : ResetReason)
      → Runs C N (boot_script C build reason) (app_main C N build reason)
  unfolding app_main diag_init state_init boot_script
  app_main-Runs build reason =
      (run-perform ◂ run-perform)
      ◂ run-perform
      ◂ run-perform
      ◂ power_management_init-Runs build
      ◂ serial_console_init-Runs
      ◂ ble_console_init-Runs build
      ◂ status_led_start-Runs
      ◂ can_init-Runs
      ◂ can_start_test_tx-Runs
      ◂ control_start-Runs
      ◂ run-perform {a = note (ready_event build)}
      ◂ run-perform {a = print ready_text}
