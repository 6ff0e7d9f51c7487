-- ===== src/Console/Text.antt =====
-- The string values that the scanner of main/serial_console.c reads.
use meb_commander.Base.{
  ℕ, ◌-◌, ◌≡◌, ◌≤◌, ◌<◌, zero, suc, refl, false, List, [], ◌∷◌, ◌++◌, ◌||◌, Option, none, some,
  arith, length, if◌then◌else◌, ◌==◌, Bool-cases, inl, inr, Option-cases, ◌⊎◌,
}
use meb_commander.Console.{parse_string_from, parse_string_value}

-- A text with a backslash before each quote and each backslash.
unfoldable pub quoted : List ℕ → List ℕ
quoted [] = []
quoted (c ∷ text) =
    let rest = quoted text in if c == b'"' || c == 92 then 92 ∷ (c ∷ rest) else c ∷ rest

-- The rest behind a quoted text and its closing quote is never empty.
quoted_tail :
    (text rest : List ℕ) → (d : ℕ) × (more : List ℕ) × (quoted text ++ (b'"' ∷ rest) ≡ d ∷ more)
unfolding quoted
quoted_tail [] rest = (b'"', rest, refl)
quoted_tail (c ∷ text) rest = elim (Bool-cases (c == b'"' || c == 92)) [
  | inl special ↦ (92, c ∷ (quoted text ++ (b'"' ∷ rest)), ground arith)
  | inr ordinary ↦ (c, quoted text ++ (b'"' ∷ rest), ground arith)
]

parse_string_from-ordinary :
    (room c : ℕ) (tail text : List ℕ) (d : ℕ) (more : List ℕ)
    → tail ≡ d ∷ more
    → (c == b'"' || c == 92) ≡ false
    → parse_string_from room tail ≡ some text
    → parse_string_from (suc room) (c ∷ tail) ≡ some (c ∷ text)
unfolding parse_string_from
parse_string_from-ordinary room c tail text d more e h k = rw e (ground (arith, e))

parse_string_from-special :
    (room c : ℕ) (tail text : List ℕ)
    → parse_string_from room tail ≡ some text
    → parse_string_from (suc room) (92 ∷ (c ∷ tail)) ≡ some (c ∷ text)
unfolding parse_string_from
parse_string_from-special room c tail text k = simp k refl

parse_string_from-end : (room : ℕ) (rest : List ℕ) → parse_string_from room (b'"' ∷ rest) ≡ some []
unfolding parse_string_from
parse_string_from-end room [] = refl
parse_string_from-end room (c ∷ rest) = refl

parse_string_from-quoted :
    (room : ℕ) (text rest : List ℕ)
    → length text ≤ room
    → parse_string_from room (quoted text ++ (b'"' ∷ rest)) ≡ some text
unfolding quoted
parse_string_from-quoted room [] rest h = parse_string_from-end room rest
parse_string_from-quoted zero (c ∷ text) rest h = absurd (omega arith)
parse_string_from-quoted (suc room) (c ∷ text) rest h =
    let read = parse_string_from-quoted room text rest (omega arith) in
    let tail = quoted text ++ (b'"' ∷ rest) in
    elim (Bool-cases (c == b'"' || c == 92)) [
      | inl special ↦ simp special (parse_string_from-special room c tail text read)
      | inr ordinary ↦
          let (d, more, e) = quoted_tail text rest in
          simp ordinary (parse_string_from-ordinary room c tail text d more e ordinary read)
    ]

-- A text that fits the array with its terminating zero, written between quotes with a backslash
-- before each quote and backslash, is read back, whatever follows it.
pub parse_string_value-quoted :
    (text rest : List ℕ) (out_len : ℕ)
    → length text < out_len
    → parse_string_value (some ((b'"' ∷ quoted text) ++ (b'"' ∷ rest))) out_len ≡ some text
unfolding parse_string_value
parse_string_value-quoted text rest out_len h =
    ground (arith, parse_string_from-quoted (out_len - 1) text rest (omega arith))

parse_string_from-fits :
    (room : ℕ) (value text : List ℕ) → parse_string_from room value ≡ some text → length text ≤ room
unfolding parse_string_from
parse_string_from-fits room [] text e = ground arith
parse_string_from-fits room (c ∷ []) text e = ground arith
parse_string_from-fits zero (c ∷ (d ∷ rest)) text e = ground arith
parse_string_from-fits (suc room) (c ∷ (d ∷ rest)) text e =
    go (Option-cases (parse_string_from room (d ∷ rest)))
      (Option-cases (parse_string_from room rest))
      (λ t p. parse_string_from-fits room (d ∷ rest) t p)
      (λ t p. parse_string_from-fits room rest t p)
  where
    go :
        (parse_string_from room (d ∷ rest) ≡ none)
          ⊎ ((t : List ℕ) × (parse_string_from room (d ∷ rest) ≡ some t))
        → (parse_string_from room rest ≡ none)
          ⊎ ((t : List ℕ) × (parse_string_from room rest ≡ some t))
        → ((t : List ℕ) → parse_string_from room (d ∷ rest) ≡ some t → length t ≤ room)
        → ((t : List ℕ) → parse_string_from room rest ≡ some t → length t ≤ room)
        → length text ≤ suc room
    go (inl p) (inl q) plain escaped = ground (arith, p, q)
    go (inl p) (inr (u, q)) plain escaped = ground (arith, p, q, escaped u q)
    go (inr (t, p)) (inl q) plain escaped = ground (arith, p, q, plain t p)
    go (inr (t, p)) (inr (u, q)) plain escaped = ground (arith, p, q, plain t p, escaped u q)

-- What the scanner reads as a string fits the array with its terminating zero.
pub parse_string_value-fits :
    (value : Option (List ℕ)) (text : List ℕ) (out_len : ℕ)
    → parse_string_value value out_len ≡ some text
    → length text < out_len
unfolding parse_string_value
parse_string_value-fits none text out_len e = ground arith
parse_string_value-fits (some []) text out_len e = ground arith
parse_string_value-fits (some (c ∷ rest)) text out_len e =
    ground (arith, parse_string_from-fits (out_len - 1) rest text)
