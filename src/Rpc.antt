-- ===== src/Rpc.antt =====
-- main/serial_console.c: the id of a request, the replies, and the formatting of their parts. A C
-- string is its bytes before the terminating zero.
pub mod Machine
pub mod EventLog
pub mod Heating
pub mod Telemetry
pub mod Device
pub mod Firmware
pub mod Command
pub mod Answers
pub mod Change
pub mod Handled
pub mod Ids
pub mod Processed
pub mod Invariant
pub mod Uart
pub mod Size
pub mod Consoles
pub mod Request
use Prim.Native.String.{String}
use meb_commander.Base.{
  ℕ, zero, suc, ◌+◌, ◌-◌, ◌/◌, ◌%◌, Bool, true, false, ◌&&◌, ◌||◌, not, List, [], ◌∷◌, ◌++◌, Option,
  none, some, ltb, leb, ◌==◌, if◌then◌else◌, length, take, codes, bytes_eq, given,
}
use meb_commander.Base.Int.{ℤ, negsuc}
use meb_commander.Base.Decimal.{decimal, decimal_ℤ}
use meb_commander.Console.{find_key_value, is_space, is_digit}

-- JSONRPC_ID_BUF_SIZE, JSONRPC_METHOD_BUF_SIZE, JSONRPC_RESULT_BUF_SIZE and SERIAL_OUTPUT_BUF_SIZE
abbrev pub id_buf_size : ℕ
id_buf_size = 64

abbrev pub method_buf_size : ℕ
method_buf_size = 48

abbrev pub result_buf_size : ℕ
result_buf_size = 1536

abbrev pub output_buf_size : ℕ
output_buf_size = 2048

abbrev pub invalid_request : ℤ
invalid_request = negsuc 32599

abbrev pub method_not_found : ℤ
method_not_found = negsuc 32600

abbrev pub invalid_params : ℤ
invalid_params = negsuc 32601

abbrev pub server_error : ℤ
server_error = negsuc 31999

-- A byte in front of what the rest of a loop writes.
abbrev pub map_cons : ℕ → Option (List ℕ) → Option (List ℕ)
map_cons c none = none
map_cons c (some text) = some (c ∷ text)

-- The loop over a quoted id behind its opening quote: `room` is `id_token_len - 1 - out_pos`. What
-- it returns is what it writes from here on.
unfoldable pub quoted_id_from : ℕ → List ℕ → Option (List ℕ)
quoted_id_from room [] = none
quoted_id_from zero (c ∷ rest) = none
quoted_id_from (suc room) (c ∷ []) = if c == b'"' then some (c ∷ []) else none
quoted_id_from (suc zero) (c ∷ (d ∷ rest)) =
    let plain = map_cons c (quoted_id_from zero (d ∷ rest)) in
    if c == 92 then none else if c == b'"' then some (c ∷ []) else plain
quoted_id_from (suc (suc room)) (c ∷ (d ∷ rest)) =
    let plain = map_cons c (quoted_id_from (suc room) (d ∷ rest)) in
    let escaped = map_cons c (map_cons d (quoted_id_from room rest)) in
    if c == 92 then escaped else if c == b'"' then some (c ∷ []) else plain

abbrev pub ends_id : ℕ → Bool
ends_id c = c == b',' || (c == b'}' || is_space c)

-- The loop over any other id.
unfoldable pub plain_id_from : ℕ → List ℕ → Option (List ℕ)
plain_id_from room [] = some []
plain_id_from zero (c ∷ rest) = if ends_id c then some [] else none
plain_id_from (suc room) (c ∷ rest) =
    let more = map_cons c (plain_id_from room rest) in if ends_id c then some [] else more

-- The last test of `parse_id_token`.
unfoldable pub is_id : List ℕ → Bool
unfolding codes bytes_eq
is_id [] = false
is_id (c ∷ token) = bytes_eq (c ∷ token) (codes "null") || (c == b'-' || is_digit c)

unfoldable pub id_of_value : List ℕ → ℕ → Option (List ℕ)
unfolding quoted_id_from plain_id_from is_id
id_of_value [] id_token_len = none
id_of_value (c ∷ rest) id_token_len =
    if c == b'"'
    then (if id_token_len - 1 == 0
        then none
        else map_cons c (quoted_id_from (id_token_len - 2) rest))
    else elim (plain_id_from (id_token_len - 1) (c ∷ rest)) [
      | none ↦ none
      | some token ↦ if is_id token then some token else none
    ]

-- parse_id_token: `*has_id` and the token, unless it returns false.
unfoldable pub parse_id_token : List ℕ → ℕ → Option (Bool × List ℕ)
unfolding find_key_value codes id_of_value
parse_id_token json id_token_len =
    given (find_key_value json (codes "id")) (some (false, take (id_token_len - 1) (codes "null")))
      (λ value. given (id_of_value value id_token_len) none (λ token. some (true, token)))

-- What `meb_serial_printf` writes on the UART and over BLE of a formatted text.
unfoldable pub serial_printf : List ℕ → List ℕ
serial_printf text =
    if leb output_buf_size (length text) then take (output_buf_size - 1) text else text

-- The functions that reply return the texts that they print.
unfoldable pub send_rpc_error : List ℕ → ℤ → String → List (List ℕ)
unfolding serial_printf codes decimal decimal_ℤ
send_rpc_error id_token code message =
    serial_printf (
      codes "{\"jsonrpc\":\"2.0\",\"id\":"
      ++ (id_token
          ++ (codes ",\"error\":{\"code\":"
              ++ (decimal_ℤ code
                  ++ (codes ",\"message\":\"" ++ (codes message ++ codes "\"}}\n"))))))
    ∷ []

-- `result` is the formatted text of the result.
unfoldable pub send_rpc_result : Bool → List ℕ → List ℕ → List (List ℕ)
unfolding serial_printf codes send_rpc_error
send_rpc_result has_id id_token result =
    if not has_id
    then []
    else if leb result_buf_size (length result)
    then send_rpc_error id_token invalid_request "Response too large"
    else serial_printf (
        codes "{\"jsonrpc\":\"2.0\",\"id\":"
        ++ (id_token ++ (codes ",\"result\":" ++ (result ++ codes "}\n"))))
      ∷ []

-- `snprintf` into an array of `size` chars.
abbrev pub snprintf : ℕ → List ℕ → List ℕ
snprintf size text = take (size - 1) text

-- `x ? "true" : "false"`
unfoldable pub json_bool : Bool → List ℕ
unfolding codes
json_bool b = if b then codes "true" else codes "false"

-- format_u8_or_null, and format_auto_off_remaining, into an array of `buf_len` chars.
unfoldable pub format_number_or_null : Bool → ℕ → ℕ → List ℕ
unfolding codes decimal
format_number_or_null valid value buf_len =
    snprintf buf_len (if valid then decimal value else codes "null")

-- format_double_or_null of a value in tenths
unfoldable pub format_double_or_null : Bool → ℕ → ℕ → List ℕ
unfolding codes decimal
format_double_or_null valid tenths buf_len =
    snprintf buf_len
      (if valid then decimal (tenths / 10) ++ (b'.' ∷ decimal (tenths % 10)) else codes "null")

-- What follows where a part succeeds.
abbrev pub and_then : Option (List ℕ) → (List ℕ → Option (List ℕ)) → Option (List ℕ)
and_then none next = none
and_then (some text) next = next text

-- json_appendf of a formatted text to what is in an array of `buf_len` chars; none is false.
unfoldable pub json_appendf : ℕ → List ℕ → List ℕ → Option (List ℕ)
json_appendf buf_len buf text =
    if leb buf_len (length buf) || leb (buf_len - length buf) (length text)
    then none
    else some (buf ++ text)

-- The texts that a format takes in turn.
unfoldable pub texts : List (List ℕ) → List ℕ
texts [] = []
texts (text ∷ more) = text ++ texts more
