-- ===== src/Rpc/Change.antt =====
-- What a command of main/serial_console.c may change, as steps of the modules that it calls.
use meb_commander.Base.{ℕ, ◌≡◌, Bool, List, some, codes, true}
use meb_commander.Console.{parse_bool_value, parse_uint_value, parse_string_value}
use meb_commander.State.{set_heating_enabled, set_auto_off_timer_minutes}
use meb_commander.Ota.Platform.{Platform}
use meb_commander.Ota.Session.{update_begin, update_write, update_end, update_cancel}
use meb_commander.Settings.{Nvs}
use meb_commander.Control.{set_interval}
use meb_commander.Rpc.Machine.{Reads, Machine, schedule_reboot}
use meb_commander.Rpc.Heating.{param}
use meb_commander.Rpc.Command.{request_method}

module _ (P : Platform) (N : Nvs) (reads : Reads) (cmd : List ℕ) (m : Machine P N) where
  -- At most one step, and that only for the method that is for it, with the values of its parameters.
  pub data Change : Machine P N → Type 0 where
    unchanged : Change m
    heating :
        (enabled : Bool)
        → request_method cmd ≡ some (codes "heating.set")
        → parse_bool_value (param cmd (codes "enabled")) ≡ some enabled
        → Change (record m { state = (set_heating_enabled enabled reads.set_us m.state).0 })
    auto_off_timer :
        (minutes : ℕ)
        → request_method cmd ≡ some (codes "heating.set_auto_off_timer")
        → parse_uint_value (param cmd (codes "minutes")) ≡ some minutes
        → Change (record m { state = (set_auto_off_timer_minutes minutes reads.set_us m.state).0 })
    interval :
        (ms : ℕ)
        → request_method cmd ≡ some (codes "telemetry.set_interval")
        → parse_uint_value (param cmd (codes "ms")) ≡ some ms
        → Change (record m { control = (set_interval N ms m.control).2 })
    begin_update :
        (size : ℕ) (sha256 : List ℕ)
        → request_method cmd ≡ some (codes "firmware.begin")
        → parse_uint_value (param cmd (codes "size")) ≡ some size
        → parse_string_value (param cmd (codes "sha256")) 65 ≡ some sha256
        → Change (record m { ota = (update_begin P size (some sha256) m.ota).1 })
    write_chunk :
        (offset : ℕ) (text : List ℕ)
        → request_method cmd ≡ some (codes "firmware.write")
        → parse_uint_value (param cmd (codes "offset")) ≡ some offset
        → parse_string_value (param cmd (codes "data")) 769 ≡ some text
        → Change (record m { ota = (update_write P offset (some text) m.ota).2 })
    end_update :
        request_method cmd ≡ some (codes "firmware.end")
        → Change (record m { ota = (update_end P m.ota).1 })
    cancel_update :
        request_method cmd ≡ some (codes "firmware.cancel")
        → Change (record m { ota = (update_cancel P m.ota).1 })
    reset :
        request_method cmd ≡ some (codes "device.reset")
        → Change (schedule_reboot P N reads 500 m).1
    reboot :
        request_method cmd ≡ some (codes "firmware.reboot")
        → m.ota.ota.pending_reboot ≡ true
        → Change (schedule_reboot P N reads 500 m).1
