-- ===== src/Diag/Escape/Reader.antt =====
-- A reader of JSON string bodies, and what it reads of the escapes of main/diagnostics.c.
use meb_commander.Base.{
  ℕ, zero, suc, ◌+◌, ◌-◌, ◌*◌, ◌/◌, ◌%◌, ◌≤◌, ◌<◌, ◌≡◌, ◌≢◌, ap, ◌∙◌, ◌&&◌, List, [], ◌∷◌, ◌++◌,
  Option, none, some, arith, ltb, leb, ◌==◌, if◌then◌else◌, get_or,
}
use mathlib.Core.Option
use meb_commander.Diag.{short_escape, hex_char, unicode_escape}

-- Where the reader stands: between characters, after a backslash, or in a `\u` with `n` digits to go.
pub data Mode : Type 0 where
  plain escaped : Mode
  unicode : ℕ → ℕ → Mode

-- The character that a backslash and `c` stand for.
unfoldable pub unescape_short : ℕ → Option ℕ
unescape_short c =
    if c == b'"'
    then some b'"'
    else if c == 92
    then some 92
    else if c == b'/'
    then some b'/'
    else if c == b'b'
    then some 8
    else if c == b'f'
    then some 12
    else if c == b'n'
    then some 10
    else if c == b'r'
    then some 13
    else if c == b't'
    then some 9
    else none

unfoldable pub hex_value : ℕ → Option ℕ
hex_value c =
    if leb 48 c && leb c 57
    then some (c - 48)
    else if leb 97 c && leb c 102
    then some (c - 87)
    else if leb 65 c && leb c 70
    then some (c - 55)
    else none

-- The bytes that the body of a JSON string stands for; none where it is malformed: a bare quote, a
-- bare control character, an unknown or an unfinished escape.
unfoldable pub read_body : Mode → List ℕ → Option (List ℕ)
read_body plain [] = some []
read_body escaped [] = none
read_body (unicode n v) [] = none
read_body plain (c ∷ cs) =
    if c == 92
    then read_body escaped cs
    else if c == b'"'
    then none
    else if ltb c 32
    then none
    else Option.map (λ r. c ∷ r) (read_body plain cs)
read_body escaped (c ∷ cs) =
    if c == b'u' then read_body (unicode 3 0) cs else elim (unescape_short c) [
      | none ↦ none
      | some b ↦ Option.map (λ r. b ∷ r) (read_body plain cs)
    ]
read_body (unicode zero v) (c ∷ cs) = elim (hex_value c) [
  | none ↦ none
  | some d ↦ Option.map (λ r. (v * 16 + d) ∷ r) (read_body plain cs)
]
read_body (unicode (suc n) v) (c ∷ cs) = elim (hex_value c) [
  | none ↦ none
  | some d ↦ read_body (unicode n (v * 16 + d)) cs
]

-- The letter of a short escape, and that it reads back.
pub short_letter :
    (c : ℕ) (e : List ℕ)
    → short_escape c ≡ some e
    → (x : ℕ) × (e ≡ 92 ∷ x ∷ []) × (unescape_short x ≡ some c) × (x ≢ b'u')
unfolding short_escape unescape_short
short_letter c e h = (get_or e 1 0, ground arith, ground arith, λ k. ground arith)

read-escaped :
    (c x : ℕ) (rest : List ℕ)
    → unescape_short x ≡ some c
    → x ≢ b'u'
    → read_body escaped (x ∷ rest) ≡ Option.map (λ r. c ∷ r) (read_body plain rest)
unfolding read_body
read-escaped c x rest h k = ground arith

pub read-short :
    (c : ℕ) (rest e : List ℕ)
    → short_escape c ≡ some e
    → read_body plain (e ++ rest) ≡ Option.map (λ r. c ∷ r) (read_body plain rest)
unfolding read_body
read-short c rest e h =
    let (x, shape, letter, no_u) = short_letter c e h in
    rw shape (read-escaped c x rest letter no_u)

hex_value-hex_char : (d : ℕ) → d < 16 → hex_value (hex_char d) ≡ some d
unfolding hex_value
hex_value-hex_char d h = ground arith

read-digit :
    (x d n v : ℕ) (rest : List ℕ)
    → hex_value x ≡ some d
    → read_body (unicode (suc n) v) (x ∷ rest) ≡ read_body (unicode n (v * 16 + d)) rest
unfolding read_body
read-digit x d n v rest h = ground arith

read-last_digit :
    (x d v : ℕ) (rest : List ℕ)
    → hex_value x ≡ some d
    → read_body (unicode 0 v) (x ∷ rest) ≡ Option.map (λ r. (v * 16 + d) ∷ r) (read_body plain rest)
unfolding read_body
read-last_digit x d v rest h = ground arith

pub read-unicode :
    (c : ℕ) (rest : List ℕ)
    → c < 32
    → read_body plain (unicode_escape c ++ rest) ≡ Option.map (λ r. c ∷ r) (read_body plain rest)
unfolding unicode_escape read_body hex_value
read-unicode c rest h =
    read-digit (hex_char (c / 16)) (c / 16) 0 0 (hex_char (c % 16) ∷ rest)
      (hex_value-hex_char (c / 16) (omega arith))
    ∙ read-last_digit (hex_char (c % 16)) (c % 16) (0 * 16 + c / 16) rest
        (hex_value-hex_char (c % 16) (omega arith))
    ∙ ap (λ k. Option.map (λ r. k ∷ r) (read_body plain rest)) (omega arith)

pub read-other :
    (c : ℕ) (rest : List ℕ)
    → 32 ≤ c
    → short_escape c ≡ none
    → read_body plain (c ∷ rest) ≡ Option.map (λ r. c ∷ r) (read_body plain rest)
unfolding short_escape read_body
read-other c rest h e = ground arith
