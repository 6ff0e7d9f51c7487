-- ===== src/Tests/Rpc.antt =====
-- Commands of main/serial_console.c at concrete machines.
use meb_commander.Base.{
  ℕ, ◌≡◌, ◌≢◌, ◌≤◌, refl, true, false, List, [], ◌∷◌, Option, none, some, codes, length, ltb,
  if◌then◌else◌, arith, All,
}
use meb_commander.State
use meb_commander.State.Invariant.{init-IsValid}
use meb_commander.Diag.{cleared, get_events}
use meb_commander.Diag.Status.{poweron, get_status}
use meb_commander.Can.{fresh}
use meb_commander.Can.Diagnostics.{no_info}
use meb_commander.Ota
use meb_commander.Lines.{lines}
use meb_commander.Base.Decimal.{decimal_from}
use meb_commander.Ota.Session.Invariant.{cleared-IsValid}
use meb_commander.Rpc.Machine.{Reads, Build, Machine}
use meb_commander.Rpc.Command.{process_command}
use meb_commander.Rpc.Answers.{IsReply}
use meb_commander.Rpc.Change.{Change}
use meb_commander.Rpc.Ids.{reply_id}
use meb_commander.Rpc.Processed.{wanted_replies, process_command-answers, process_command-Change}
use meb_commander.Rpc.EventLog.{format_event_log_json}
use meb_commander.Rpc.EventLog.Whole.{event_log_text, format_event_log_json-whole}
use meb_commander.Rpc.Uart.{Served, uart_bytes, IsValidServed, uart_bytes-IsValidServed}
use meb_commander.Telemetry.{telemetry_line, telemetry_print}
use meb_commander.Telemetry.Size.{telemetry_print-whole}
use meb_commander.Ble.Rx.{gatt_writes, concat}
use meb_commander.Rpc.Consoles.{command_task, command_task-uart_bytes}
use meb_commander.Tests.Ble.{
  listing, empty_queue, packets, commands, packets_fit, commands_fit, listing_fifo,
}
use meb_commander.Tests.Ota.{toy}
use meb_commander.Tests.Control.{cell, start}

abbrev pub machine : Machine toy cell
machine = record {
  state = State.init;
  ota = record { ota = Ota.Session.cleared toy; world = [] };
  control = start;
  log = cleared;
  can = fresh;
  reboots = [];
}

abbrev pub build : Build
build = record { safety = record { enabled = true; minutes = 180 }; production = false }

abbrev pub reads : Reads
reads = record {
  set_us = 5;
  snapshot_us = 6;
  status = get_status 7000 poweron 1 (record {
    free = 9;
    minimum_free = 8;
    free_8bit = 7;
    minimum_free_8bit = 6;
    largest_free_8bit_block = 5;
  });
  node_info = no_info;
  task_created = true;
  recorded = λ n. record { now_us = 5; free_heap = 9; minimum_free_heap = 8 };
}

abbrev heat : List ℕ
heat =
    codes "{\"jsonrpc\":\"2.0\",\"id\":7,\"method\":\"heating.set\",\"params\":{\"enabled\":true}}"

heat_on :
    (process_command toy cell build reads heat machine).machine.state.state.heating_enabled ≡ true
unfolding process_command State.set_heating_enabled
heat_on = refl

bad_id :
    (process_command toy cell build reads (codes "{\"id\":x}") machine).lines
    ≡ codes
        "{\"jsonrpc\":\"2.0\",\"id\":null,\"error\":{\"code\":-32600,\"message\":\"Invalid id\"}}\n"
      ∷ []
unfolding process_command decimal_from
bad_id = refl

process_command-answers_example :
    let printed = (process_command toy cell build reads heat machine).lines in
    (wanted_replies heat ≤ length printed)
    × (length printed ≤ 1)
    × All (IsReply (reply_id heat)) printed
process_command-answers_example = process_command-answers toy cell build reads heat machine

process_command-Change_example :
    Change toy cell reads heat machine (process_command toy cell build reads heat machine).machine
process_command-Change_example = process_command-Change toy cell build reads heat machine

format_event_log_json-whole_example : format_event_log_json 1200 (get_events cleared) 8 ≡ (
    if ltb (length (event_log_text (get_events cleared) 8)) 1200
    then some (event_log_text (get_events cleared) 8)
    else none)
format_event_log_json-whole_example = format_event_log_json-whole 1200 (get_events cleared) 8

empty_log :
    format_event_log_json 1200 (get_events cleared) 8
    ≡ some (codes "{\"capacity\":16,\"count\":0,\"returned\":0,\"overwritten\":0,\"events\":[]}")
unfolding format_event_log_json get_events cleared decimal_from
empty_log = refl

abbrev every : ℕ → Reads
every n = reads

abbrev booted : Served toy cell build every
booted = record { machine = machine; count = 0; events = []; printed = [] }

abbrev requests : List (List ℕ)
requests = codes "\"id\":1}" ∷ codes "\"id\":2,\"a\":0}" ∷ []

some_found : {o : Option (List ℕ)} (value : List ℕ) → o ≡ some value → o ≢ none
some_found value e missing = absurd (ground (arith, e, missing))

uart_bytes-IsValidServed_example :
    IsValidServed toy cell build every (uart_bytes toy cell build every heat ([], booted)).1
uart_bytes-IsValidServed_example =
    uart_bytes-IsValidServed toy cell build every heat [] booted (λ w p e. ground (arith, e))
      (λ n. (omega arith, omega arith))
      (record {
        state = init-IsValid 5;
        ota = cleared-IsValid toy;
        control = (omega arith, omega arith);
      })

telemetry_print-whole_example :
    telemetry_print build.safety 6 8000 State.init
    ≡ telemetry_line (State.get_snapshot build.safety 6 State.init) 8000
unfolding State.init
telemetry_print-whole_example =
    telemetry_print-whole build.safety 6 8000 State.init (omega arith) (omega arith)

command_task-uart_bytes_example :
    command_task toy cell build every
      (listing_fifo.contents (gatt_writes listing 3 5 packets ([], empty_queue)).1.world)
      booted
    ≡ (uart_bytes toy cell build every (concat listing packets) ([], booted)).1
unfolding lines codes
command_task-uart_bytes_example =
    command_task-uart_bytes toy cell build every listing listing_fifo 3 5 packets commands
      empty_queue booted packets_fit commands_fit refl refl (omega arith)
