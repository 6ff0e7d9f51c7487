-- ===== src/Lib.antt =====
-- The firmware of an ESP32 board that preheats the battery of a MEB car over its CAN bus. A
-- control task asks for heat while a user has heating on and the car says that the battery is
-- too cold; an automatic end bounds how long that goes on; received frames update a shared
-- state; an update of the firmware comes in over the console in base64 chunks.
--
-- How the parts interact: main/can_bus.c receives frames and hands them to main/app_state.c,
-- which decodes and keeps the signals. main/control.c checks the automatic end there, looks at
-- a snapshot, and sends requests through main/can_bus.c. main/settings.c keeps the telemetry
-- interval of main/control.c. The other parts record events in main/diagnostics.c.
-- main/ota_update.c runs an update on its own state.
--
-- Which file models which part:
--
-- - Config, Esp, Event: constants of main/app_config.h, esp_err_t, and what a caller records as
--   an event. An operation returns the events that it records.
-- - Signals: the decoding in the meb_state_update functions of main/app_state.c; State: its
--   operations, each one step under the lock, at a time in microseconds. History has their
--   calls in sequence, Invariant the bookkeeping, AutoOff the automatic end, Countdown the
--   remaining minutes, Freshness the age of signals, Ranges their bounds.
-- - Diag: the event ring and meb_diag_json_escape of main/diagnostics.c; Contents has what the
--   ring holds, Escape a reader of JSON string bodies.
-- - Ota: the text decoders of main/ota_update.c; Ota.Session: its update session over
--   Ota.Platform, which stands for flash partitions and SHA-256 with their documented laws. A
--   failed call of the platform is a branch of the model.
-- - Can: the transmit slots, callbacks and requests of main/can_bus.c over a driver; Can.Pool
--   and Can.Ownership have who owns a slot; Can.Flags and Can.Report what the counters are
--   reported as.
-- - Settings: main/settings.c over the non-volatile storage; Control: the telemetry interval
--   and the rounds of the tasks in main/control.c.
-- - Console: the scanner of JSON values in main/serial_console.c, with numbers in
--   Console.Number and strings in Console.Text. Lines: the line assembler that the UART and BLE
--   consoles share.
-- - Rpc: the ids, replies and formats of main/serial_console.c; Rpc.Machine has the state of
--   all modules that a command acts on, Rpc.Heating, Rpc.Telemetry, Rpc.Device, Rpc.EventLog
--   and Rpc.Firmware a function for each method, Rpc.Command the dispatch (process_command is
--   meb_serial_console_process_command) and Rpc.Uart the task that reads the UART. Rpc.Change
--   has the steps that a command may take, Rpc.Ids, Rpc.Answers and Rpc.Handled what each
--   method does and replies, Rpc.Invariant the invariants of the modules together, and
--   Rpc.Consoles the two consoles side by side. Rpc.Request has requests as a client writes
--   them, and Rpc.Request.Session whole heating commands from their bytes to their effect.
-- - Diag.Status and Can.Diagnostics: what the device reports of itself and of the bus.
--   Can.Filters: configure_rx_filters of main/can_bus.c.
-- - Ble: the clients and GAP events of main/ble_console.c; Ble.Rx: what clients write, up to
--   the command queue; Ble.Queue: what of it is in the queue, which takes eight commands;
--   Ble.Notify: the notifications, in chunks. Ble.Peers and Ble.Clients have the table of
--   clients as a map.
-- - Telemetry: the line that the telemetry task of main/control.c prints; Rpc.Size and
--   Telemetry.Size have that it and the state of the heating fit their buffers.
-- - Power: the lock against light sleep in main/power_management.c, with ESP-IDF's lock as the
--   parameter PmLock.
-- - Led: the colour and the task of main/status_led.c.
-- - Can.RxTask: the tasks of main/can_bus.c, and Can.RxTask.Order the way of a frame from the
--   interrupt to the task.
-- - Startup: app_main of main/meb-preheat.c and the init and start functions of the other
--   files, as actions on a chip that are logged: Startup.Devices for power, LED, CAN bus and
--   control, Startup.Consoles for UART and BLE, which also has the advertising, Startup.Main
--   for app_main, and Startup.Timing for the bit timing. Startup.Script lists the actions of
--   the whole start, Startup.Runs has that a function runs through a list, and Startup.Order
--   and Startup.Ready what follows.
-- - Base: names of the libraries, Boolean tests, lists, bits, signed numbers and decimal text.
--   Tests: the theorems at concrete inputs.
--
-- Bounds and fuel: a uint8_t, uint16_t or uint32_t has its wrap-around written out; an int64_t
-- time is a number of microseconds since boot, which is never negative, and State.Countdown has
-- the bounds of the sums. The double values of the signals are integer tenths of their unit.
-- Decimal text is a recursion on fuel larger than the number, hexadecimal text of a uint32_t on
-- eight digits. The loop over the chunks of a notification has one round of fuel more than the
-- text has bytes, and each round sends a byte at least. Loops over arrays and texts are
-- recursion on lists.
--
-- What other tasks do while a function holds no lock is an argument of the model where it
-- matters, as in Control.control_round. Interrupts come between the modelled operations, not
-- within them.
--
-- A command reads the system at several moments; what it reads is the argument Reads, and while
-- it runs no other task changes what it reads or writes. The UART and BLE consoles run their
-- commands one after another. The events of a command are in the log when it is done; the
-- commands that read the log record none before.
--
-- Not modelled: what the tasks do while app_main still runs, the delays of the tasks, log lines
-- on the console, and the code of ESP-IDF, FreeRTOS and NimBLE, which enters as the parameters
-- named above: what a call does with its arguments, such as the packets that advertising sends,
-- is theirs. Of the lines on the UART, the replies and those of main/control.c are modelled as
-- texts. The host scripts under scripts/ are no part of the firmware.
pub mod Base
pub mod Config
pub mod Event
pub mod Signals
pub mod Startup
pub mod State
pub mod Can
pub mod Diag
pub mod Esp
pub mod Lines
pub mod Ble
pub mod Rpc
pub mod Telemetry
pub mod Power
pub mod Console
pub mod Led
pub mod Ota
pub mod Settings
pub mod Control
mod Tests
