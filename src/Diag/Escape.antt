-- ===== src/Diag/Escape.antt =====
-- The JSON escaping of main/diagnostics.c against a reader of JSON string bodies.
mod Reader
pub use Reader.{Mode, plain, escaped, unicode}
unfoldable pub use Reader.{read_body}
use Reader.{read-short, read-unicode, read-other}
use meb_commander.Base.{
  ℕ, zero, suc, ◌+◌, ◌-◌, ◌*◌, ◌/◌, ◌%◌, ◌≤◌, ◌<◌, ◌≡◌, ◌≢◌, refl, ap, ◌∙◌, inl, inr, ◌&&◌, List,
  [], ◌∷◌, ◌++◌, Option, none, some, arith, length, take, ltb, leb, ◌==◌, if◌then◌else◌,
  length-append, Bool-cases, Option-cases, get_or, ltb→lt,
}
use mathlib.Core.Option
use meb_commander.Diag.{short_escape, hex_char, unicode_escape, json_escape_from, json_escape}

-- No escape is longer than six bytes.
length-short_escape : (c : ℕ) (e : List ℕ) → short_escape c ≡ some e → length e ≡ 2
unfolding short_escape
length-short_escape c e h = ground arith

-- What the loop writes for one character if there is room.
piece : ℕ → List ℕ
piece c = elim (short_escape c) [
  | some e ↦ e
  | none ↦ if ltb c 0x20 then unicode_escape c else c ∷ []
]

read-piece :
    (c : ℕ) (rest : List ℕ)
    → read_body plain (piece c ++ rest) ≡ Option.map (λ r. c ∷ r) (read_body plain rest)
unfolding piece
read-piece c rest = elim (Option-cases (short_escape c)) [
  | inr (e, short) ↦ rw (short, piece) (read-short c rest e short)
  | inl long ↦ elim (Bool-cases (ltb c 32)) [
    | inl control ↦ rw (long, control, piece) (read-unicode c rest (ltb→lt _ _ control))
    | inr other ↦ rw (long, other, piece) (read-other c rest (ground arith) long)
  ]
]

length-piece : (c : ℕ) → (1 ≤ length (piece c)) × (length (piece c) ≤ 6)
unfolding piece unicode_escape
length-piece c = elim (Option-cases (short_escape c)) [
  | inr (e, short) ↦ ground (arith, length-short_escape c e)
  | inl long ↦ ground arith
]

-- A round of the loop writes the character's piece, with room for the terminating zero left, or ends
-- the text within six bytes of the array's end.
data Round (dst_len out c : ℕ) (src written : List ℕ) : Type 0 where
  ends : written ≡ [] → dst_len ≤ out + 6 → Round dst_len out c src written
  writes :
      written ≡ piece c ++ json_escape_from dst_len (out + length (piece c)) src
      → out + length (piece c) < dst_len
      → Round dst_len out c src written

json_escape_from-Round :
    (dst_len out c : ℕ) (src : List ℕ)
    → Round dst_len out c src (json_escape_from dst_len out (c ∷ src))
unfolding json_escape_from piece unicode_escape
json_escape_from-Round dst_len out c src = elim (Bool-cases (ltb out (dst_len - 1))) [
  | inr full ↦ ends (rw full) (ground arith)
  | inl room ↦ elim (Option-cases (short_escape c)) [
    | inr (e, short) ↦ elim (Bool-cases (leb dst_len (out + length e))) [
      | inl over ↦
          ends (rw (room, short, json_escape_from, piece, over))
            (ground (arith, length-short_escape c e short))
      | inr fits ↦
          writes (rw (room, short, json_escape_from, piece, fits))
            (rw (short, piece) (ground arith))
    ]
    | inl long ↦ elim (Bool-cases (ltb c 32)) [
      | inl control ↦ elim (Bool-cases (leb dst_len (out + 6))) [
        | inl over ↦ ends (rw (room, long, control, json_escape_from, piece, over)) (ground arith)
        | inr fits ↦
            writes (rw (room, long, control, json_escape_from, piece, fits))
              (rw (long, control, piece) (ground arith))
      ]
      | inr other ↦
          writes (rw (room, long, other, json_escape_from, piece))
            (rw (long, other, piece) (ground arith))
    ]
  ]
]

json_escape_from-nil :
    (dst_len out : ℕ) → out < dst_len → out + length (json_escape_from dst_len out []) < dst_len
unfolding json_escape_from
json_escape_from-nil dst_len out h = omega arith

read_body-nil : read_body plain [] ≡ some []
unfolding read_body
read_body-nil = refl

-- The rounds of the loop, for a property of what is written from `out` on.
module _ (dst_len : ℕ) where
  Round-fits :
      {out c : ℕ} {src written : List ℕ}
      → Round dst_len out c src written
      → (out + length (piece c) < dst_len
          → out + length (piece c) + length (json_escape_from dst_len (out + length (piece c)) src)
            < dst_len)
      → out < dst_len
      → out + length written < dst_len
  Round-fits (ends e near) rest h = rw e (omega arith)
  Round-fits {out} {c} {src} (writes e room) rest h = rw e (
      omega (
        arith,
        rest room,
        length-append (piece c) (json_escape_from dst_len (out + length (piece c)) src),
      ))

  json_escape_from-fits :
      (out : ℕ) (src : List ℕ)
      → out < dst_len
      → out + length (json_escape_from dst_len out src) < dst_len
  json_escape_from-fits out [] h = json_escape_from-nil dst_len out h
  json_escape_from-fits out (c ∷ src) h =
      Round-fits (json_escape_from-Round dst_len out c src)
        (json_escape_from-fits (out + length (piece c)) src) h

  Round-reads :
      {out c : ℕ} {src written : List ℕ}
      → Round dst_len out c src written
      → ((n : ℕ) × (read_body plain (json_escape_from dst_len (out + length (piece c)) src)
            ≡ some (take n src)))
      → (n : ℕ) × (read_body plain written ≡ some (take n (c ∷ src)))
  unfolding read_body
  Round-reads (ends e near) rest = (0, rw e)
  Round-reads {c = c} (writes e room) (n, rest) = (suc n, rw (e, read-piece c _, rest))

  json_escape_from-reads :
      (out : ℕ) (src : List ℕ)
      → (n : ℕ) × (read_body plain (json_escape_from dst_len out src) ≡ some (take n src))
  unfolding json_escape_from read_body
  json_escape_from-reads out [] = (0, refl)
  json_escape_from-reads out (c ∷ src) =
      Round-reads (json_escape_from-Round dst_len out c src)
        (json_escape_from-reads (out + length (piece c)) src)

  Round-whole :
      {out c : ℕ} {src written : List ℕ}
      → Round dst_len out c src written
      → out + 6 * suc (length src) < dst_len
      → (out + length (piece c) + 6 * length src < dst_len
          → read_body plain (json_escape_from dst_len (out + length (piece c)) src) ≡ some src)
      → read_body plain written ≡ some (c ∷ src)
  Round-whole (ends e near) h rest = absurd (omega arith)
  Round-whole {c = c} (writes e room) h rest =
      rw (e, read-piece c _, rest (omega (arith, length-piece c)))

  json_escape_from-whole :
      (out : ℕ) (src : List ℕ)
      → out + 6 * length src < dst_len
      → read_body plain (json_escape_from dst_len out src) ≡ some src
  unfolding json_escape_from read_body
  json_escape_from-whole out [] h = refl
  json_escape_from-whole out (c ∷ src) h =
      Round-whole (json_escape_from-Round dst_len out c src) h
        (json_escape_from-whole (out + length (piece c)) src)

json_escape-pos :
    (src : List ℕ) (dst_len : ℕ)
    → 0 < dst_len
    → json_escape (some src) dst_len ≡ json_escape_from dst_len 0 src
unfolding json_escape
json_escape-pos src dst_len h = ground arith

-- The text that is written always fits the array with its terminating zero.
pub length-json_escape :
    (src : Option (List ℕ)) (dst_len : ℕ) → 0 < dst_len → length (json_escape src dst_len) < dst_len
unfolding json_escape
length-json_escape none dst_len h = omega arith
length-json_escape (some src) dst_len h = ground (arith, json_escape_from-fits dst_len 0 src)

-- What is written is always the body of a JSON string, and it stands for a beginning of the source:
-- no escape is cut short where the array is full.
pub read_body-json_escape :
    (src : List ℕ) (dst_len : ℕ)
    → (n : ℕ) × (read_body plain (json_escape (some src) dst_len) ≡ some (take n src))
unfolding json_escape
read_body-json_escape src zero = (0, read_body-nil)
read_body-json_escape src (suc n) =
    rw (json_escape-pos src (suc n) (omega arith)) (json_escape_from-reads (suc n) 0 src)

-- An array of more than six bytes to each source byte takes the whole source.
pub read_body-json_escape_whole :
    (src : List ℕ) (dst_len : ℕ)
    → 6 * length src < dst_len
    → read_body plain (json_escape (some src) dst_len) ≡ some src
read_body-json_escape_whole src dst_len h =
    rw (json_escape-pos src dst_len (omega arith))
      (json_escape_from-whole dst_len 0 src (omega arith))
