-- ===== src/Rpc/Uart.antt =====
-- main/serial_console.c: `uart_command_task`, the bytes that come in on the UART.
use meb_commander.Base.{
  ℕ, suc, ◌+◌, ◌≡◌, ◌≢◌, ◌<◌, ◌≤◌, refl, true, List, [], ◌∷◌, ◌++◌, none, codes, length,
  length-append, arith, All,
}
use meb_commander.Event.{Event}
use meb_commander.Console.{find_key_value, skip_ws}
use meb_commander.Lines.{
  c_string, feed_bytes, feed_bytes-lines, feed_bytes-keeps, lines, complete_all, IsLine,
}
use meb_commander.Ota.Platform.{Platform}
use meb_commander.Settings.{Nvs}
use meb_commander.Rpc.Machine.{Reads, Build, Machine, Outcome, noted}
use meb_commander.Rpc.Command.{starts_object, process_command}
use meb_commander.Rpc.Processed.{process_command-once}
use meb_commander.Rpc.Invariant.{
  IsValid, IsValid-after, HasSmallPartitions, process_command-IsValid,
}

-- CMD_RX_BUF_SIZE
abbrev pub cmd_rx_buf_size : ℕ
cmd_rx_buf_size = 1024

-- `reads n` is what the command after `n` others reads of the system.
module _ (P : Platform) (N : Nvs) (build : Build) (reads : ℕ → Reads) where
  -- The machine after the commands so far, how many they are, what they recorded and printed.
  pub record Served : Type 0 where
    pub machine : Machine P N
    pub count : ℕ
    pub events : List Event
    pub printed : List (List ℕ)

  -- `meb_serial_console_process_command(cmd_buf)`, with the log as its events leave it
  unfoldable pub serve : List ℕ → Served → Served
  unfolding c_string process_command noted
  serve line s =
      let r = process_command P N build (reads s.count) (c_string line) s.machine in
      record {
        machine = noted P N (reads s.count) r;
        count = suc s.count;
        events = s.events ++ r.events;
        printed = s.printed ++ r.lines;
      }

  -- The loops of `uart_command_task` over the bytes of what it reads: a line that does not fit is
  -- processed as far as it does.
  unfoldable pub uart_bytes : List ℕ → List ℕ × Served → List ℕ × Served
  unfolding feed_bytes serve
  uart_bytes input b = feed_bytes serve serve cmd_rx_buf_size input b

  -- A line with a key `id`.
  abbrev pub IsRequest : List ℕ → Type 0
  IsRequest text = find_key_value (c_string (b'{' ∷ text)) (codes "id") ≢ none

  printed-serve :
      (line : List ℕ) (s : Served)
      → length (serve line s).printed
        ≡ length s.printed
          + length (process_command P N build (reads s.count) (c_string line) s.machine).lines
  unfolding serve
  printed-serve line s =
      length-append s.printed
        (process_command P N build (reads s.count) (c_string line) s.machine).lines

  starts_object-brace : (text : List ℕ) → starts_object (c_string (b'{' ∷ text)) ≡ true
  unfolding starts_object skip_ws c_string
  starts_object-brace text = refl

  serve-IsRequest :
      (text : List ℕ) (s : Served)
      → IsRequest text
      → length (serve (b'{' ∷ text) s).printed ≡ suc (length s.printed)
  serve-IsRequest text s request =
      let cmd = c_string (b'{' ∷ text) in
      let one =
        process_command-once P N build (reads s.count) cmd s.machine (starts_object-brace text)
          request in
      omega (arith, one, printed-serve (b'{' ∷ text) s)

  complete_all-IsRequest :
      (texts : List (List ℕ)) (s : Served)
      → All IsRequest texts
      → length (complete_all serve serve texts s).printed ≡ length s.printed + length texts
  unfolding complete_all
  complete_all-IsRequest [] s a = omega arith
  complete_all-IsRequest (text ∷ texts) s (request, a) = omega (
    arith,
    complete_all-IsRequest texts (serve (b'{' ∷ text) s) a,
    serve-IsRequest text s request,
  )

  pub uart_bytes-lines :
      (texts : List (List ℕ)) (s : Served)
      → All (IsLine serve serve cmd_rx_buf_size) texts
      → uart_bytes (lines serve serve texts) ([], s) ≡ ([], complete_all serve serve texts s)
  unfolding uart_bytes
  uart_bytes-lines texts s fit = feed_bytes-lines serve serve cmd_rx_buf_size texts s fit

  -- Requests on lines that fit are processed in order, each answered by one line.
  pub uart_bytes-IsRequest :
      (texts : List (List ℕ)) (s : Served)
      → All (IsLine serve serve cmd_rx_buf_size) texts
      → All IsRequest texts
      → (uart_bytes (lines serve serve texts) ([], s) ≡ ([], complete_all serve serve texts s))
        × (length (uart_bytes (lines serve serve texts) ([], s)).1.printed
            ≡ length s.printed + length texts)
  uart_bytes-IsRequest texts s fit requests =
      let same = uart_bytes-lines texts s fit in
      (same, rw same (complete_all-IsRequest texts s requests))

  -- Times that do not go back, for the commands that come one after another.
  abbrev pub IsOrdered : Type 0
  IsOrdered = (n : ℕ) → (0 < (reads n).set_us) × ((reads n).set_us ≤ (reads (suc n)).set_us)

  -- The machine is valid at the time of the command that comes next.
  abbrev pub IsValidServed : Served → Type 0
  IsValidServed s = IsValid P N (reads s.count).set_us s.machine

  noted-IsValid :
      (r : Reads) (now : ℕ) (o : Outcome P N)
      → IsValid P N now o.machine
      → IsValid P N now (noted P N r o)
  unfolding noted
  noted-IsValid r now o v = record { state = v.state; ota = v.ota; control = v.control }

  serve-IsValidServed :
      HasSmallPartitions P N
      → IsOrdered
      → (line : List ℕ) (s : Served) → IsValidServed s
      → IsValidServed (serve line s)
  unfolding serve
  serve-IsValidServed small ordered line s v =
      let now = (reads s.count).set_us in
      let done =
        process_command-IsValid P N build (reads s.count) (c_string line) now s.machine small
          (ordered s.count).0 (omega arith) v in
      IsValid-after P N now (reads (suc s.count)).set_us (ordered s.count).1 (
        noted-IsValid (reads s.count) now
          (process_command P N build (reads s.count) (c_string line) s.machine) done)

  -- Whatever bytes come in, the state, the update session and the telemetry interval stay valid, if
  -- they are valid at the time of the first command, the times of the commands are positive and never
  -- go back, and every partition for updates is below 2 ^ 31 bytes.
  pub uart_bytes-IsValidServed :
      (input line : List ℕ) (s : Served)
      → HasSmallPartitions P N
      → IsOrdered
      → IsValidServed s
      → IsValidServed (uart_bytes input (line, s)).1
  unfolding uart_bytes
  uart_bytes-IsValidServed input line s small ordered v =
      let kept = serve-IsValidServed small ordered in
      feed_bytes-keeps serve serve IsValidServed cmd_rx_buf_size input line s kept kept v
