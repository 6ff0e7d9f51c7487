-- ===== src/Startup/Script.antt =====
-- The actions of the start as lists, of which `boot_script` is the whole: what is asked of the chip,
-- with which arguments and in which order, as a reader of the data sheets would check it.
pub mod Functions
use meb_commander.Startup.Consoles.{
  gatt_svcs, device_name, serial_console_init, ble_console_init, nimble_console_init,
}
use meb_commander.Startup.Main.{
  boot_event, ready_event, ready_text, app_main, diag_init, state_init,
}
use meb_commander.Startup.Devices.{
  start_monitor, filters, node_config, can_started, power_management_init, light_sleep_init,
  configure_light_sleep_gpio_behavior, status_led_start, configure_exact_canfd_timing, can_init,
  control_start, can_start_test_tx, configure_led,
}
use meb_commander.Base.{ℕ, zero, suc, ◌+◌, ◌≡◌, List, [], ◌∷◌, ◌++◌, if◌then◌else◌, arith}
use meb_commander.Esp.{EspErr, esp_fail, no_mem, is_ok, esp_ok}
use meb_commander.Config.{twai_data_bitrate}
use meb_commander.Settings.{Nvs}
use meb_commander.Power.{start_debug_pm_monitor, set_debug_pm_lock}
use meb_commander.Diag.Status.{ResetReason}
use meb_commander.Can.Filters.{
  disable_filter, dynamic_filter, exact_ids, disable_all, accept_exact, configure_rx_filters,
}
use meb_commander.Startup.{
  Chip, Build, Boot, Action, Call, perform, must, pm_lock_create, pm_configure, must_or,
  led_strip_new, twai_mask_filter, load_interval, twai_range_filter, pm_lock_acquire,
  gpio_sleep_sel_dis, create_mutex, create_queue, led_strip_clear, create_task, debug_pm,
  uart_write, ble_commands, status_led, control, can_rx_frames, diag, uart_param_config, ble_notify,
  telemetry, twai_new_node, note, uart_set_pin, init_settings, unless_installed, nimble_port_init,
  twai_reconfig_timing, state, uart_driver_install, ignored, uart_flush_input, set_host_callbacks,
  twai_register_callbacks, print, uart_cmd, svc_gap_init, twai_enable, svc_gatt_init, can_rx,
  gatts_count_cfg, gatts_add_svcs, gap_device_name_set, store_config_init, ble_cmd, start_host_task,
}
use meb_commander.Startup.Runs.{run, Runs, run-done, run-perform, ◌◂◌, run-if}
use meb_commander.Startup.Timing.{bit_timing, data_timing, with_brp}

abbrev pub monitor_script : List Action
monitor_script =
    must pm_lock_create ∷ must pm_lock_acquire ∷ must_or no_mem (create_task debug_pm 3072 2) ∷ []

abbrev pub gpio_script : Build → List Action
gpio_script build =
    if build.slp_disable_gpio
    then must (gpio_sleep_sel_dis 27)
      ∷ must (gpio_sleep_sel_dis 11)
      ∷ must (gpio_sleep_sel_dis 12)
      ∷ must (gpio_sleep_sel_dis 4)
      ∷ must (gpio_sleep_sel_dis 5)
      ∷ []
    else []

abbrev pub power_script : Build → List Action
power_script build =
    if build.pm_enabled
    then must (pm_configure build.max_cpu_freq_mhz 48 build.light_sleep)
      ∷ (if build.light_sleep then gpio_script build ++ monitor_script else [])
    else []

abbrev pub serial_script : List Action
serial_script =
    must_or no_mem (create_mutex uart_write)
    ∷ must (uart_param_config 115200)
    ∷ must (uart_set_pin 11 12)
    ∷ unless_installed (uart_driver_install 1024 2048)
    ∷ ignored uart_flush_input
    ∷ must_or no_mem (create_task uart_cmd 8192 5)
    ∷ []

abbrev pub ble_script : List Action
ble_script =
    must_or no_mem (create_queue ble_commands 8)
    ∷ must_or no_mem (create_mutex ble_notify)
    ∷ init_settings
    ∷ must nimble_port_init
    ∷ ignored set_host_callbacks
    ∷ ignored svc_gap_init
    ∷ ignored svc_gatt_init
    ∷ must_or esp_fail (gatts_count_cfg gatt_svcs)
    ∷ must_or esp_fail (gatts_add_svcs gatt_svcs)
    ∷ must_or esp_fail (gap_device_name_set device_name)
    ∷ ignored store_config_init
    ∷ must_or no_mem (create_task ble_cmd 8192 5)
    ∷ ignored start_host_task
    ∷ []

abbrev pub led_script : List Action
led_script =
    must (led_strip_new 27 1 10000000)
    ∷ must led_strip_clear
    ∷ must_or no_mem (create_task status_led 3072 3)
    ∷ []

unfoldable pub disabling : ℕ → ℕ → List Action
disabling i zero = []
disabling i (suc n) = must (twai_mask_filter i disable_filter) ∷ disabling (i + 1) n

unfoldable pub accepting : ℕ → ℕ → List ℕ → List Action
accepting ext_id_mask i [] = []
accepting ext_id_mask i (id ∷ ids) =
    must (twai_mask_filter i (record { id = id; mask = ext_id_mask }))
    ∷ accepting ext_id_mask (i + 1) ids

abbrev pub control_script : List Action
control_script =
    load_interval
    ∷ must_or no_mem (create_task control 4096 6)
    ∷ must_or no_mem (create_task telemetry 4096 4)
    ∷ []

module _ (C : Chip) where
  abbrev pub filter_script : List Action
  filter_script =
      disabling 0 C.mask_filters
      ++ (must (twai_range_filter 0 dynamic_filter) ∷ accepting C.ext_id_mask 0 exact_ids)

  abbrev pub can_script : List Action
  can_script =
      must_or no_mem (create_queue can_rx_frames 64)
      ∷ must (twai_new_node node_config)
      ∷ must (twai_reconfig_timing bit_timing (with_brp 1))
      ∷ (filter_script
          ++ (must twai_register_callbacks
              ∷ must twai_enable
              ∷ must_or no_mem (create_task can_rx 4096 8)
              ∷ note can_started
              ∷ []))

  unfoldable pub boot_script : Build → ResetReason → List Action
  boot_script build reason =
      must_or no_mem (create_mutex diag)
      ∷ note (boot_event reason)
      ∷ init_settings
      ∷ must_or no_mem (create_mutex state)
      ∷ (power_script build
          ++ (serial_script
              ++ ((if build.ble_enabled then ble_script else [])
                  ++ (led_script
                      ++ (can_script
                          ++ (control_script
                              ++ (note (ready_event build) ∷ print ready_text ∷ [])))))))
