-- ===== src/Tests/Console.antt =====
-- The scanner of main/serial_console.c on commands.
use meb_commander.Base.{ℕ, ◌≡◌, refl, List, ◌∷◌, ◌++◌, none, some, codes, arith}
use meb_commander.Base.Decimal.{decimal}
use meb_commander.Console.{
  find_key_value, find_from, starts_with, after_colon, skip_ws, parse_uint_value, parse_digits,
  parse_string_value, parse_string_from, parse_optional_limit, is_value_delimiter,
}
use meb_commander.Console.Number.{parse_uint_value-decimal}
use meb_commander.Console.Text.{quoted, parse_string_value-quoted}

abbrev command : List ℕ
command = codes "{\"id\":1, \"method\" : \"device.events\",\"params\":{\"limit\":12}}"

method_found :
    parse_string_value (find_key_value command (codes "method")) 32 ≡ some (codes "device.events")
unfolding find_key_value find_from starts_with after_colon skip_ws parse_string_value
    parse_string_from codes
method_found = refl

limit_found : parse_optional_limit command 8 ≡ some 12
unfolding find_key_value find_from starts_with after_colon skip_ws parse_uint_value parse_digits
    parse_optional_limit is_value_delimiter codes
limit_found = refl

overflow_refused : parse_uint_value (some (codes "4294967296")) ≡ none
unfolding parse_uint_value parse_digits codes
overflow_refused = refl

parse_uint_value-decimal_example :
    parse_uint_value (some (decimal 60000 ++ codes "}}")) ≡ some 60000
unfolding is_value_delimiter codes
parse_uint_value-decimal_example = parse_uint_value-decimal 60000 (codes "}}") (omega arith) refl

parse_string_value-quoted_example :
    parse_string_value (some ((b'"' ∷ quoted (codes "a\"b")) ++ (b'"' ∷ codes ","))) 4
    ≡ some (codes "a\"b")
unfolding codes
parse_string_value-quoted_example =
    parse_string_value-quoted (codes "a\"b") (codes ",") 4 (omega arith)
