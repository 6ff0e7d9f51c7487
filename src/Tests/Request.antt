-- ===== src/Tests/Request.antt =====
-- Requests of main/serial_console.c from their text to the reply.
use meb_commander.Base.{ℕ, ◌≡◌, refl, true, List, [], ◌∷◌, codes, arith, map}
use meb_commander.Base.Decimal.{decimal}
use meb_commander.Lines.{lines}
use meb_commander.Rpc.Machine.{Reads}
use meb_commander.Rpc.Command.{dispatch, process_command}
use meb_commander.Rpc.Uart.{Served, serve, uart_bytes}
use meb_commander.Rpc.Request.{request, process_command-request}
use meb_commander.Rpc.Request.Session.{Command, switch, timer, text_of, carry_all}
use meb_commander.Rpc.Request.Session.Carried.{uart_bytes-carry_all}
use meb_commander.State.{init, set_heating_enabled, set_auto_off_timer_minutes}
use meb_commander.Tests.Ota.{toy}
use meb_commander.Tests.Control.{cell}
use meb_commander.Tests.Rpc.{machine, build, reads}

process_command-request_example :
    process_command toy cell build reads (request 12 (codes "device.uptime") (codes "{}")) machine
    ≡ dispatch toy cell build reads
        (codes "device.uptime")
        true
        (decimal 12)
        (request 12 (codes "device.uptime") (codes "{}"))
        machine
unfolding codes
process_command-request_example =
    process_command-request toy cell build reads 12 (codes "device.uptime") (codes "{}") machine
      (omega arith) refl (omega arith)

abbrev always : ℕ → Reads
always n = reads

abbrev idle : Served toy cell build always
idle = record { machine = machine; count = 0; events = []; printed = [] }

-- Heating on, and a timer of half an hour.
abbrev evening : List Command
evening = switch 7 true ∷ timer 8 30 ∷ []

uart_bytes-carry_all_example :
    uart_bytes toy cell build always
      (lines (serve toy cell build always) (serve toy cell build always) (map text_of evening))
      ([], idle)
    ≡ ([], carry_all toy cell build always evening idle)
unfolding init
uart_bytes-carry_all_example =
    uart_bytes-carry_all toy cell build always evening idle
      (omega arith, ((omega arith, omega arith), tt)) (omega arith)

heating_on :
    (carry_all toy cell build always evening idle).machine.state.state.heating_enabled ≡ true
unfolding carry_all set_auto_off_timer_minutes set_heating_enabled
heating_on = refl
