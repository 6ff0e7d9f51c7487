-- ===== src/Rpc/Request.antt =====
-- A request as a client of main/serial_console.c writes it, and what it comes to.
pub mod Heating
pub mod Session
use meb_commander.Base.{
  ℕ, zero, suc, ◌+◌, ◌^◌, ◌≡◌, ◌<◌, ◌≤◌, refl, sym, ap, ◌∙◌, Bool, true, false, List, [], ◌∷◌, ◌++◌,
  Option, none, some, All, arith, ◌==◌, length, codes, if◌then◌else◌, given, bytes_eq,
}
use mathlib.Core.List.{append_assoc}
use meb_commander.Event.{Event}
use meb_commander.State.{AppState, get_snapshot, set_heating_enabled, set_auto_off_timer_minutes}
use meb_commander.Base.Decimal.{decimal}
use meb_commander.Console.{
  skip_ws, find_from, find_key_value, parse_string_value, parse_required_string_key, starts_with,
  after_colon, is_digit, parse_bool_value, is_value_delimiter, parse_uint_value,
}
use meb_commander.Console.Number.{
  parse_uint_value-decimal, starts_digit, starts_digit-decimal_from-suc,
}
use meb_commander.Console.Text.{quoted, parse_string_value-quoted}
use meb_commander.Console.Find.{
  has_no_special, All-has_no_special, IsPlain, find_from-plain, quoted_plain, All-decimal,
}
use meb_commander.Ota.Platform.{Platform}
use meb_commander.Settings.{Nvs}
use meb_commander.Rpc.{
  ends_id, plain_id_from, id_of_value, is_id, parse_id_token, id_buf_size, json_bool,
}
use meb_commander.Rpc.Machine.{Reads, Build, Machine, Outcome}
use meb_commander.Rpc.Command.{starts_object, request_method, dispatch, process_command}
use meb_commander.Rpc.Heating.{
  params_of, param, handle_heating_set, handle_heating_set_auto_off_timer,
}
use meb_commander.Rpc.Size.{state_reply, send_heating_state_result-whole, length-decimal}

-- {"jsonrpc":"2.0","id":<id>,"method":"<method>","params":<params>}
abbrev pub after_id : List ℕ → List ℕ → List ℕ
after_id method params =
    codes ",\"method\":\"" ++ (method ++ (codes "\",\"params\":" ++ (params ++ codes "}")))

unfoldable pub request : ℕ → List ℕ → List ℕ → List ℕ
unfolding codes
request id method params =
    codes "{\"jsonrpc\":\"2.0\",\"id\":" ++ (decimal id ++ after_id method params)

-- An id of digits is read up to the comma.
plain_id_from-digits :
    (room : ℕ) (text rest : List ℕ)
    → All (λ (c : ℕ). ends_id c ≡ false) text
    → length text ≤ room
    → plain_id_from room (text ++ (b',' ∷ rest)) ≡ some text
unfolding plain_id_from
plain_id_from-digits zero [] rest p h = refl
plain_id_from-digits (suc room) [] rest p h = refl
plain_id_from-digits zero (c ∷ text) rest p h = absurd (omega (arith, h))
plain_id_from-digits (suc room) (c ∷ text) rest (p, ps) h =
    ground (arith, p, plain_id_from-digits room text rest ps (omega (arith, h)))

decimal-IsPlain : (n : ℕ) → All IsPlain (decimal n)
decimal-IsPlain n = All-decimal IsPlain (λ d small. (ground arith, ground arith)) n

starts_digit-decimal : (n : ℕ) → starts_digit (decimal n) ≡ true
unfolding decimal
starts_digit-decimal n = starts_digit-decimal_from-suc n n []

id_of_value-digits :
    (text rest : List ℕ)
    → starts_digit text ≡ true
    → All (λ (c : ℕ). ends_id c ≡ false) text
    → length text ≤ 63
    → id_of_value (skip_ws (text ++ (b',' ∷ rest))) id_buf_size ≡ some text
unfolding id_of_value is_id skip_ws
id_of_value-digits [] rest d p h = ground (arith, d)
id_of_value-digits (c ∷ text) rest d p h =
    ground (arith, d, plain_id_from-digits 63 (c ∷ text) rest p h)

parse_id_token-request :
    (id : ℕ) (method params : List ℕ)
    → id < 10 ^ 63
    → parse_id_token (request id method params) id_buf_size ≡ some (true, decimal id)
unfolding parse_id_token request find_key_value codes
parse_id_token-request id method params h =
    let read =
      id_of_value-digits (decimal id) _ (starts_digit-decimal id)
        (All-decimal (λ (c : ℕ). ends_id c ≡ false) (λ d small. ground arith) id)
        (length-decimal 62 id h) in
    ap (λ (o : Option (List ℕ)). given o none (λ token. some (true, token))) read

parse_string_value_plain :
    (text rest : List ℕ) (out_len : ℕ)
    → All IsPlain text
    → length text < out_len
    → parse_string_value (some (b'"' ∷ (text ++ (b'"' ∷ rest)))) out_len ≡ some text
parse_string_value_plain text rest out_len plain h =
    ap (λ (t : List ℕ). parse_string_value (some (b'"' ∷ (t ++ (b'"' ∷ rest)))) out_len)
      (sym (quoted_plain text plain))
    ∙ parse_string_value-quoted text rest out_len h

request_method-request :
    (id : ℕ) (method params : List ℕ)
    → All IsPlain method
    → length method < 48
    → request_method (request id method params) ≡ some method
unfolding request_method parse_required_string_key request find_key_value codes parse_string_value
request_method-request id method params plain h =
    let found =
      find_from-plain (codes "method\"") (decimal id) (after_id method params)
        (decimal-IsPlain id) in
    ap (λ (o : Option (List ℕ)). parse_string_value o 48) found
    ∙ parse_string_value_plain method (codes ",\"params\":" ++ (params ++ codes "}")) 48 plain h

starts_object-request :
    (id : ℕ) (method params : List ℕ) → starts_object (request id method params) ≡ true
unfolding starts_object request codes
starts_object-request id method params = refl

module _ (P : Platform) (N : Nvs) (build : Build) (reads : Reads) where
  process_command-dispatch :
      (cmd token method : List ℕ) (m : Machine P N)
      → starts_object cmd ≡ true
      → parse_id_token cmd id_buf_size ≡ some (true, token)
      → request_method cmd ≡ some method
      → process_command P N build reads cmd m ≡ dispatch P N build reads method true token cmd m
  unfolding process_command
  process_command-dispatch cmd token method m object id named = rw (object, id, named) refl

  -- A request with an id of at most 63 digits and a method of at most 47 chars, none of them a quote
  -- or a backslash, is dispatched with that method and that id, whatever its params are.
  pub process_command-request :
      (id : ℕ) (method params : List ℕ) (m : Machine P N)
      → id < 10 ^ 63
      → has_no_special method ≡ true
      → length method < 48
      → process_command P N build reads (request id method params) m
        ≡ dispatch P N build reads method true (decimal id) (request id method params) m
  process_command-request id method params m h plain short =
      process_command-dispatch (request id method params) (decimal id) method m
        (starts_object-request id method params) (parse_id_token-request id method params h)
        (request_method-request id method params (All-has_no_special method plain) short)
