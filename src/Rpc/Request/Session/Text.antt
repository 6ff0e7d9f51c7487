-- ===== src/Rpc/Request/Session/Text.antt =====
-- The texts of the commands are lines that fit.
use mathlib.Core.List.{append_assoc}
use mathlib.Core.Path.{subst}
use meb_commander.Base.{
  ℕ, ◌+◌, ◌^◌, ◌≡◌, ◌<◌, ◌≤◌, refl, sym, ap, Bool, true, false, not, ◌&&◌, ◌||◌, List, [], ◌∷◌,
  ◌++◌, All, All-append, arith, ◌==◌, length, length-append, codes,
}
use meb_commander.Base.Decimal.{decimal}
use meb_commander.Lines.{c_string, is_newline}
use meb_commander.Console.Find.{All-decimal}
use meb_commander.Rpc.{json_bool}
use meb_commander.Rpc.Size.{length-decimal}
use meb_commander.Rpc.Uart.{cmd_rx_buf_size}
use meb_commander.Rpc.Request.{after_id}
use meb_commander.Rpc.Request.Heating.{enabled_params, minutes_params}
use meb_commander.Rpc.Request.Session.{Command, switch, timer, id_of, text_of, IsSmall}

-- A byte of a line that is no zero byte.
abbrev pub IsWire : ℕ → Type 0
IsWire c = (is_newline c ≡ false) × ((c == 0) ≡ false)

abbrev has_no_break : List ℕ → Bool
has_no_break [] = true
has_no_break (c ∷ text) = not (is_newline c || c == 0) && has_no_break text

All-has_no_break : (text : List ℕ) → has_no_break text ≡ true → All IsWire text
All-has_no_break [] h = tt
All-has_no_break (c ∷ text) h =
    ((ground (arith, h), ground (arith, h)), All-has_no_break text (ground (arith, h)))

decimal-IsWire : (n : ℕ) → All IsWire (decimal n)
decimal-IsWire n = All-decimal IsWire (λ d small. (ground arith, ground arith)) n

pub c_string_wire : (text : List ℕ) → All IsWire text → c_string text ≡ text
unfolding c_string
c_string_wire [] h = refl
c_string_wire (c ∷ text) (h, hs) = ground (arith, h.1, c_string_wire text hs)

pub inner_wire : (text : List ℕ) → All IsWire text → All (λ (c : ℕ). is_newline c ≡ false) text
inner_wire [] h = tt
inner_wire (c ∷ text) (h, hs) = (h.0, inner_wire text hs)

-- A text around a number.
around-IsWire :
    (before : List ℕ) (n : ℕ) (after : List ℕ)
    → has_no_break before ≡ true
    → All IsWire after
    → All IsWire (before ++ (decimal n ++ after))
around-IsWire before n after h k =
    All-append IsWire before (decimal n ++ after) (All-has_no_break before h)
      (All-append IsWire (decimal n) after (decimal-IsWire n) k)

abbrev opening : List ℕ
opening = codes "\"jsonrpc\":\"2.0\",\"id\":"

abbrev timer_opening : List ℕ
timer_opening = codes ",\"method\":\"heating.set_auto_off_timer\",\"params\":{\"minutes\":"

-- What follows the id.
rest_of : Command → List ℕ
rest_of (switch id enabled) = after_id (codes "heating.set") (enabled_params enabled)
rest_of (timer id minutes) = after_id (codes "heating.set_auto_off_timer") (minutes_params minutes)

rest_of-timer :
    (id minutes : ℕ) → rest_of (timer id minutes) ≡ timer_opening ++ (decimal minutes ++ codes "}}")
unfolding rest_of codes
rest_of-timer id minutes =
    ap (λ (t : List ℕ). timer_opening ++ t) (append_assoc (decimal minutes) (codes "}") (codes "}"))

rest_of-IsWire : (cmd : Command) → All IsWire (rest_of cmd)
unfolding rest_of codes json_bool
rest_of-IsWire (switch id true) = All-has_no_break (rest_of (switch id true)) refl
rest_of-IsWire (switch id false) = All-has_no_break (rest_of (switch id false)) refl
rest_of-IsWire (timer id minutes) =
    subst (λ (t : List ℕ). All IsWire t) (sym (rest_of-timer id minutes))
      (around-IsWire timer_opening minutes (codes "}}") refl (All-has_no_break (codes "}}") refl))

text_of_parts : (cmd : Command) → text_of cmd ≡ opening ++ (decimal (id_of cmd) ++ rest_of cmd)
unfolding text_of rest_of
text_of_parts (switch id enabled) = refl
text_of_parts (timer id minutes) = refl

pub text_of-IsWire : (cmd : Command) → All IsWire (text_of cmd)
unfolding codes
text_of-IsWire cmd =
    rw (text_of_parts cmd)
      (around-IsWire opening (id_of cmd) (rest_of cmd) refl (rest_of-IsWire cmd))

small_id : (cmd : Command) → IsSmall cmd → id_of cmd < 10 ^ 63
small_id (switch id enabled) h = h
small_id (timer id minutes) h = h.0

length-rest_of : (cmd : Command) → IsSmall cmd → length (rest_of cmd) ≤ 200
unfolding rest_of codes json_bool
length-rest_of (switch id true) h = omega arith
length-rest_of (switch id false) h = omega arith
length-rest_of (timer id minutes) h =
    subst (λ (t : List ℕ). length t ≤ 200) (sym (rest_of-timer id minutes))
      (omega (
        arith,
        length-append (decimal minutes) (codes "}}"),
        length-decimal 9 minutes (omega (arith, h.1)),
      ))

pub text_of-fits : (cmd : Command) → IsSmall cmd → 1 + length (text_of cmd) < cmd_rx_buf_size
unfolding codes
text_of-fits cmd h = rw (text_of_parts cmd) (
    omega (
      arith,
      length-append (decimal (id_of cmd)) (rest_of cmd),
      length-decimal 62 (id_of cmd) (small_id cmd h),
      length-rest_of cmd h,
    ))
