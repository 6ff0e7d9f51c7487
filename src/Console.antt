-- ===== src/Console.antt =====
-- main/serial_console.c: the scanner of JSON values in a command. A C string is the list of its bytes
-- before the terminating zero, and a pointer into it is the rest of the list; NULL is `none`.
pub mod Number
pub mod Text
pub mod Find
use meb_commander.Base.{
  ℕ, ◌+◌, ◌-◌, ◌*◌, ◌/◌, ◌^◌, zero, suc, Bool, true, false, ◌&&◌, ◌||◌, not, List, [], ◌∷◌, ◌++◌,
  Option, none, some, ltb, leb, ◌==◌, if◌then◌else◌, length, drop, codes,
}

abbrev pub is_space : ℕ → Bool
is_space c = c == 32 || (c == 9 || (c == 13 || c == 10))

unfoldable pub skip_ws : List ℕ → List ℕ
skip_ws [] = []
skip_ws (c ∷ rest) = let skipped = skip_ws rest in if is_space c then skipped else c ∷ rest

-- `is_value_delimiter(*p)`, where `p` points at the rest; its end is the zero byte.
unfoldable pub is_value_delimiter : List ℕ → Bool
is_value_delimiter [] = true
is_value_delimiter (c ∷ rest) = c == b',' || (c == b'}' || (c == b']' || is_space c))

-- `strncmp(value, prefix, length of prefix) == 0`
unfoldable pub starts_with : List ℕ → List ℕ → Bool
starts_with [] value = true
starts_with (c ∷ prefix) [] = false
starts_with (c ∷ prefix) (d ∷ value) = c == d && starts_with prefix value

-- The value after a key's pattern, if a colon follows.
unfoldable pub after_colon : List ℕ → Option (List ℕ)
unfolding skip_ws
after_colon value = elim (skip_ws value) [
  | [] ↦ none
  | c ∷ rest ↦ if c == b':' then some (skip_ws rest) else none
]

-- The loop of `find_key_value`: the search goes on `skip` bytes further on.
unfoldable pub find_from : List ℕ → ℕ → List ℕ → Option (List ℕ)
unfolding starts_with after_colon
find_from pattern (suc skip) [] = none
find_from pattern (suc skip) (c ∷ rest) = find_from pattern skip rest
find_from pattern zero [] = none
find_from pattern zero (c ∷ rest) =
    let found =
      if starts_with pattern (c ∷ rest)
      then after_colon (drop (length pattern) (c ∷ rest))
      else none in
    let next = if starts_with pattern (c ∷ rest) then length pattern - 1 else 0 in
    elim found [ some value ↦ some value | none ↦ find_from pattern next rest ]

-- The pattern has 40 bytes with its terminating zero.
unfoldable pub find_key_value : List ℕ → List ℕ → Option (List ℕ)
unfolding find_from
find_key_value json key =
    let pattern = (b'"' ∷ key) ++ (b'"' ∷ []) in
    if leb 40 (length pattern) then none else find_from pattern 0 json

-- The loop of `parse_string_value` behind the opening quote: `room` is `out_len - 1 - out_pos`. What
-- it returns is what it writes from here on.
unfoldable pub parse_string_from : ℕ → List ℕ → Option (List ℕ)
parse_string_from room [] = none
parse_string_from room (c ∷ []) = if c == b'"' then some [] else none
parse_string_from room (c ∷ (d ∷ rest)) =
    let plain = λ (left : ℕ). map_cons c (parse_string_from left (d ∷ rest)) in
    let escaped = λ (left : ℕ). map_cons d (parse_string_from left rest) in
    if c == b'"'
    then some []
    else elim room [ zero ↦ none | suc left ↦ if c == 92 then escaped left else plain left ]
  where
    map_cons : ℕ → Option (List ℕ) → Option (List ℕ)
    map_cons c none = none
    map_cons c (some text) = some (c ∷ text)

-- parse_string_value into an array of `out_len` chars
unfoldable pub parse_string_value : Option (List ℕ) → ℕ → Option (List ℕ)
unfolding parse_string_from
parse_string_value none out_len = none
parse_string_value (some []) out_len = none
parse_string_value (some (c ∷ rest)) out_len =
    if not (c == b'"') || out_len == 0 then none else parse_string_from (out_len - 1) rest

unfoldable pub parse_required_string_key : List ℕ → List ℕ → ℕ → Option (List ℕ)
unfolding find_key_value
parse_required_string_key json key out_len = parse_string_value (find_key_value json key) out_len

unfoldable pub parse_bool_value : Option (List ℕ) → Option Bool
unfolding starts_with codes is_value_delimiter
parse_bool_value none = none
parse_bool_value (some value) =
    if starts_with (codes "true") value
    then (if is_value_delimiter (drop 4 value) then some true else none)
    else if starts_with (codes "false") value
    then (if is_value_delimiter (drop 5 value) then some false else none)
    else none

abbrev pub is_digit : ℕ → Bool
is_digit c = leb 48 c && leb c 57

-- The loop of `parse_uint_value` with `parsed` so far, and the test of the delimiter.
unfoldable pub parse_digits : ℕ → List ℕ → Option ℕ
unfolding is_value_delimiter
parse_digits parsed [] = some parsed
parse_digits parsed (c ∷ rest) =
    let digit = c - 48 in
    let more = parse_digits (parsed * 10 + digit) rest in
    if is_digit c
    then (if ltb ((2 ^ 32 - 1 - digit) / 10) parsed then none else more)
    else if is_value_delimiter (c ∷ rest)
    then some parsed
    else none

unfoldable pub parse_uint_value : Option (List ℕ) → Option ℕ
unfolding parse_digits
parse_uint_value none = none
parse_uint_value (some []) = none
parse_uint_value (some (c ∷ rest)) = if is_digit c then parse_digits 0 (c ∷ rest) else none

unfoldable pub parse_optional_limit : List ℕ → ℕ → Option ℕ
unfolding find_key_value codes parse_uint_value
parse_optional_limit cmd default_limit = elim (find_key_value cmd (codes "params")) [
  | none ↦ some default_limit
  | some [] ↦ none
  | some (c ∷ params) ↦
      if not (c == b'{') then none else elim (find_key_value (c ∷ params) (codes "limit")) [
        | none ↦ some default_limit
        | some value ↦ parse_uint_value (some value)
      ]
]
