-- ===== src/Rpc/Request/Session/Carried.antt =====
-- The bytes of the commands on the UART do what the commands mean.
use meb_commander.Base.{ℕ, ◌^◌, ◌≡◌, ◌<◌, refl, ap, ◌∙◌, List, [], ◌∷◌, All, codes, map}
use meb_commander.Base.Decimal.{decimal}
use meb_commander.Lines.{c_string, lines, complete_all, IsLine}
use meb_commander.State.{set_heating_enabled, set_auto_off_timer_minutes}
use meb_commander.Ota.Platform.{Platform}
use meb_commander.Settings.{Nvs}
use meb_commander.Rpc.Machine.{Reads, Build, Machine, noted}
use meb_commander.Rpc.Command.{process_command}
use meb_commander.Rpc.Uart.{Served, serve, uart_bytes, uart_bytes-lines, cmd_rx_buf_size}
use meb_commander.Rpc.Request.{request}
use meb_commander.Rpc.Request.Heating.{
  state_set, process_command-heating_set, process_command-set_auto_off_timer,
}
use meb_commander.Rpc.Request.Session.{
  Command, switch, timer, id_of, text_of, IsSmall, effect, carry_out, carry_all,
}
use meb_commander.Rpc.Request.Session.Text.{text_of-IsWire, text_of-fits, c_string_wire, inner_wire}

module _ (P : Platform) (N : Nvs) (build : Build) (reads : ℕ → Reads) where
  abbrev HasMinutes : Served P N build reads → Type 0
  HasMinutes s = s.machine.state.state.auto_off_timer_minutes < 2 ^ 32

  carry_out-HasMinutes :
      (cmd : Command) (s : Served P N build reads)
      → IsSmall cmd
      → HasMinutes s
      → HasMinutes (carry_out P N build reads cmd s)
  unfolding carry_out noted effect set_heating_enabled set_auto_off_timer_minutes
  carry_out-HasMinutes (switch id enabled) s h k = k
  carry_out-HasMinutes (timer id minutes) s h k = h.1

  process_command-text_of :
      (cmd : Command) (r : Reads) (m : Machine P N)
      → IsSmall cmd
      → m.state.state.auto_off_timer_minutes < 2 ^ 32
      → process_command P N build r (b'{' ∷ text_of cmd) m
        ≡ state_set P N build r (decimal (id_of cmd)) (effect cmd r.set_us m.state) m
  unfolding text_of effect request codes
  process_command-text_of (switch id enabled) r m h k =
      process_command-heating_set P N build r id enabled m h k
  process_command-text_of (timer id minutes) r m h k =
      process_command-set_auto_off_timer P N build r id minutes m h.0 h.1

  serve-text_of :
      (cmd : Command) (s : Served P N build reads)
      → IsSmall cmd
      → HasMinutes s
      → serve P N build reads (b'{' ∷ text_of cmd) s ≡ carry_out P N build reads cmd s
  unfolding serve carry_out
  serve-text_of cmd s h k =
      let whole : c_string (b'{' ∷ text_of cmd) ≡ b'{' ∷ text_of cmd =
        c_string_wire (b'{' ∷ text_of cmd) ((refl, refl), text_of-IsWire cmd) in
      rw (whole, process_command-text_of cmd (reads s.count) s.machine h k) refl

  abbrev Line : List ℕ → Type 0
  Line = IsLine (serve P N build reads) (serve P N build reads) cmd_rx_buf_size

  texts-Line : (cmds : List Command) → All IsSmall cmds → All Line (map text_of cmds)
  texts-Line [] h = tt
  texts-Line (cmd ∷ cmds) (h, hs) =
      ((inner_wire (text_of cmd) (text_of-IsWire cmd), text_of-fits cmd h), texts-Line cmds hs)

  complete_all-carry_all :
      (cmds : List Command) (s : Served P N build reads)
      → All IsSmall cmds
      → HasMinutes s
      → complete_all (serve P N build reads) (serve P N build reads) (map text_of cmds) s
        ≡ carry_all P N build reads cmds s
  unfolding complete_all carry_all
  complete_all-carry_all [] s h k = refl
  complete_all-carry_all (cmd ∷ cmds) s (h, hs) k =
      ap
        (λ (u : Served P N build reads).
          complete_all (serve P N build reads) (serve P N build reads) (map text_of cmds) u)
        (serve-text_of cmd s h k)
      ∙ complete_all-carry_all cmds (carry_out P N build reads cmd s) hs
          (carry_out-HasMinutes cmd s h k)

  -- The bytes of any heating.set and heating.set_auto_off_timer commands, a line each, with ids of at
  -- most 63 digits and minutes below 2 ^ 32, do on the UART what the commands mean: each in turn has
  -- its effect on the state and nothing else, is recorded, and is answered with its id and the state
  -- that it leaves; where the timer holds fewer than 2 ^ 32 minutes at first.
  pub uart_bytes-carry_all :
      (cmds : List Command) (s : Served P N build reads)
      → All IsSmall cmds
      → s.machine.state.state.auto_off_timer_minutes < 2 ^ 32
      → uart_bytes P N build reads
          (lines (serve P N build reads) (serve P N build reads) (map text_of cmds))
          ([], s)
        ≡ ([], carry_all P N build reads cmds s)
  uart_bytes-carry_all cmds s h k =
      uart_bytes-lines P N build reads (map text_of cmds) s (texts-Line cmds h)
      ∙ ap (λ (u : Served P N build reads). ([], u)) (complete_all-carry_all cmds s h k)
