-- ===== src/Console/Find.antt =====
-- What the search for a key in main/serial_console.c passes over.
use meb_commander.Base.{
  ℕ, zero, suc, ◌+◌, ◌/◌, ◌%◌, ◌≡◌, ◌<◌, refl, Bool, true, false, not, ◌&&◌, ◌||◌, List, [], ◌∷◌,
  ◌++◌, All, arith, ◌==◌, if-elim, ltb, ltb→lt,
}
use meb_commander.Base.Decimal.{decimal, decimal_from}
use meb_commander.Console.{find_from, starts_with}
use meb_commander.Console.Text.{quoted}

-- Neither a quote nor a backslash.
abbrev pub IsPlain : ℕ → Type 0
IsPlain c = ((b'"' == c) ≡ false) × ((c == 92) ≡ false)

abbrev pub has_no_special : List ℕ → Bool
has_no_special [] = true
has_no_special (c ∷ text) = not (b'"' == c || c == 92) && has_no_special text

pub All-has_no_special : (text : List ℕ) → has_no_special text ≡ true → All IsPlain text
All-has_no_special [] plain = tt
All-has_no_special (c ∷ text) plain = (
  (ground (arith, plain), ground (arith, plain)),
  All-has_no_special text (ground (arith, plain)),
)

-- A key is not found in what has no quote.
pub find_from-plain :
    (key text rest : List ℕ)
    → All IsPlain text
    → find_from (b'"' ∷ key) 0 (text ++ rest) ≡ find_from (b'"' ∷ key) 0 rest
unfolding find_from starts_with
find_from-plain key [] rest plain = refl
find_from-plain key (c ∷ text) rest (p, plain) =
    ground (arith, p.0, find_from-plain key text rest plain)

pub quoted_plain : (text : List ℕ) → All IsPlain text → quoted text ≡ text
unfolding quoted
quoted_plain [] plain = refl
quoted_plain (c ∷ text) (p, plain) = ground (arith, p.0, p.1, quoted_plain text plain)

-- What holds of the ten digits holds of the digits of a number.
All-decimal_from :
    (P : ℕ → Type 0)
    → ((d : ℕ) → d < 10 → P (48 + d))
    → (fuel n : ℕ) (rest : List ℕ) → All P rest
    → All P (decimal_from fuel n rest)
unfolding decimal_from
All-decimal_from P digit zero n rest h = h
All-decimal_from P digit (suc fuel) n rest h =
    if-elim (All P) (ltb n 10) (λ small. (digit n (ltb→lt n 10 small), h))
      (λ large.
        All-decimal_from P digit fuel (n / 10) ((48 + n % 10) ∷ rest)
          (digit (n % 10) (omega arith), h))

pub All-decimal : (P : ℕ → Type 0) → ((d : ℕ) → d < 10 → P (48 + d)) → (n : ℕ) → All P (decimal n)
unfolding decimal
All-decimal P digit n = All-decimal_from P digit (suc n) n [] tt
