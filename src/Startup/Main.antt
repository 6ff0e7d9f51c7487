-- ===== src/Startup/Main.antt =====
-- `app_main` in main/meb-preheat.c, with `meb_diag_init` in main/diagnostics.c and `meb_state_init` in
-- main/app_state.c as far as they can fail: what they reset is `Diag.cleared` and `State.init`.
use meb_commander.Base.{ℕ, List, ◌++◌, codes}
use meb_commander.Esp.{no_mem}
use meb_commander.Event.{Event}
use meb_commander.Settings.{Nvs}
use meb_commander.Diag.Status.{ResetReason, reset_reason_name}
use meb_commander.Startup.{
  Chip, Build, Boot, Fallible, ◌>>◌, perform, init_settings, note, print, diag, state, create_mutex,
}
use meb_commander.Startup.Devices.{
  call_or, build_mode, power_management_init, status_led_start, can_init, can_start_test_tx,
  control_start,
}
use meb_commander.Startup.Consoles.{serial_console_init, ble_console_init}

unfoldable pub boot_event : ResetReason → Event
unfolding codes
boot_event reason = record {
  component = codes "system";
  event = codes "boot";
  detail = codes "reset=" ++ reset_reason_name reason;
}

unfoldable pub ready_event : Build → Event
unfolding codes
ready_event build = record {
  component = codes "system";
  event = codes "ready";
  detail = build_mode build.production;
}

unfoldable pub ready_text : List ℕ
unfolding codes
ready_text = codes "{\"v\":2,\"type\":\"device.ready\",\"version\":\"0.6.1\"}\n"

module _ (C : Chip) (N : Nvs) where
  unfoldable pub diag_init : ResetReason → Fallible (Boot C N)
  diag_init reason = do
    call_or C N no_mem (create_mutex diag)
    perform C N (note (boot_event reason))

  unfoldable pub state_init : Fallible (Boot C N)
  state_init = call_or C N no_mem (create_mutex state)

  -- app_main, where ESP_ERROR_CHECK aborts at the first error.
  unfoldable pub app_main : Build → ResetReason → Fallible (Boot C N)
  unfolding diag_init state_init
  app_main build reason = do
    diag_init reason
    perform C N init_settings
    state_init
    power_management_init C N build
    serial_console_init C N
    ble_console_init C N build.ble_enabled
    status_led_start C N
    can_init C N
    can_start_test_tx C N
    control_start C N
    perform C N (note (ready_event build))
    perform C N (print ready_text)
