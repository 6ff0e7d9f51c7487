-- ===== src/Rpc/Request/Session.antt =====
-- A client of main/serial_console.c that sends heating commands on the UART, and what its commands
-- mean without their text.
pub mod Text
pub mod Carried
use mathlib.Core.List.{append_assoc}
use mathlib.Core.Path.{subst}
use meb_commander.Base.{
  ℕ, suc, ◌+◌, ◌^◌, ◌≡◌, ◌<◌, ◌≤◌, refl, sym, ap, ◌∙◌, Bool, true, false, not, ◌&&◌, ◌||◌, List, [],
  ◌∷◌, ◌++◌, All, All-append, arith, ◌==◌, length, length-append, codes, map,
}
use meb_commander.Base.Decimal.{decimal}
use meb_commander.Lines.{c_string, is_newline, lines, complete_all, IsLine}
use meb_commander.Console.Find.{All-decimal}
use meb_commander.State.{AppState, set_heating_enabled, set_auto_off_timer_minutes}
use meb_commander.Event.{Event}
use meb_commander.Ota.Platform.{Platform}
use meb_commander.Settings.{Nvs}
use meb_commander.Rpc.{json_bool}
use meb_commander.Rpc.Machine.{Reads, Build, Machine, Outcome, noted}
use meb_commander.Rpc.Command.{process_command}
use meb_commander.Rpc.Size.{length-decimal}
use meb_commander.Rpc.Uart.{Served, serve, uart_bytes, uart_bytes-lines, cmd_rx_buf_size}
use meb_commander.Rpc.Request.{after_id, request}
use meb_commander.Rpc.Request.Heating.{
  enabled_params, minutes_params, state_set, process_command-heating_set,
  process_command-set_auto_off_timer,
}

-- A command with its id.
pub data Command : Type 0 where
  switch : ℕ → Bool → Command
  timer : ℕ → ℕ → Command

abbrev pub id_of : Command → ℕ
id_of (switch id enabled) = id
id_of (timer id minutes) = id

-- Its text behind the opening brace.
unfoldable pub text_of : Command → List ℕ
unfolding codes json_bool
text_of (switch id enabled) =
    codes "\"jsonrpc\":\"2.0\",\"id\":"
    ++ (decimal id ++ after_id (codes "heating.set") (enabled_params enabled))
text_of (timer id minutes) =
    codes "\"jsonrpc\":\"2.0\",\"id\":"
    ++ (decimal id ++ after_id (codes "heating.set_auto_off_timer") (minutes_params minutes))

-- Ids of at most 63 digits, and minutes below 2 ^ 32.
abbrev pub IsSmall : Command → Type 0
IsSmall (switch id enabled) = id < 10 ^ 63
IsSmall (timer id minutes) = (id < 10 ^ 63) × (minutes < 2 ^ 32)

-- What it does to the state at the time `now`.
unfoldable pub effect : Command → ℕ → AppState → AppState × List Event
effect (switch id enabled) now s = set_heating_enabled enabled now s
effect (timer id minutes) now s = set_auto_off_timer_minutes minutes now s

module _ (P : Platform) (N : Nvs) (build : Build) (reads : ℕ → Reads) where
  -- A command carried out without its text: its effect, its events in the log, and a reply with the
  -- state that it leaves.
  unfoldable pub carry_out : Command → Served P N build reads → Served P N build reads
  unfolding effect noted
  carry_out cmd s =
      let r = reads s.count in
      let o =
        state_set P N build r (decimal (id_of cmd)) (effect cmd r.set_us s.machine.state)
          s.machine in
      record {
        machine = noted P N r o;
        count = suc s.count;
        events = s.events ++ o.events;
        printed = s.printed ++ o.lines;
      }

  unfoldable pub carry_all : List Command → Served P N build reads → Served P N build reads
  unfolding carry_out
  carry_all [] s = s
  carry_all (cmd ∷ cmds) s = carry_all cmds (carry_out cmd s)
