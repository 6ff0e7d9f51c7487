-- ===== src/Console/Number.antt =====
-- The unsigned numbers that the scanner of main/serial_console.c reads.
use meb_commander.Base.{
  ℕ, ◌+◌, ◌-◌, ◌*◌, ◌/◌, ◌%◌, ◌^◌, ◌≡◌, ◌≤◌, ◌<◌, zero, suc, refl, ◌∙◌, Bool, true, List, [], ◌∷◌,
  ◌++◌, Option, none, some, arith, ap, ◌⊎◌, inl, inr, false,
}
use meb_commander.Base.Decimal.{decimal, decimal_from}
use meb_commander.Console.{is_value_delimiter, is_digit, parse_digits, parse_uint_value}

-- Every number that is read fits a uint32_t.
parse_digits-bound :
    (parsed n : ℕ) (value : List ℕ)
    → parsed < 2 ^ 32
    → parse_digits parsed value ≡ some n
    → n < 2 ^ 32
unfolding parse_digits
parse_digits-bound parsed n [] h e = ground arith
parse_digits-bound parsed n (c ∷ rest) h e =
    ground (arith, parse_digits-bound (parsed * 10 + (c - 48)) n rest)

-- The scanner reads no number that does not fit a uint32_t, however long the digits are.
pub parse_uint_value-bound :
    (value : Option (List ℕ)) (n : ℕ) → parse_uint_value value ≡ some n → n < 2 ^ 32
unfolding parse_uint_value
parse_uint_value-bound none n e = ground arith
parse_uint_value-bound (some []) n e = ground arith
parse_uint_value-bound (some (c ∷ rest)) n e =
    ground (arith, parse_digits-bound 0 n (c ∷ rest) (omega arith))

parse_digits_step :
    (parsed digit : ℕ) (rest : List ℕ)
    → digit < 10
    → parsed * 10 + digit < 2 ^ 32
    → parse_digits parsed ((48 + digit) ∷ rest) ≡ parse_digits (parsed * 10 + digit) rest
unfolding parse_digits
parse_digits_step parsed digit rest h k =
    let same : 48 + digit - 48 ≡ digit = omega arith in
    ground (arith, ap (λ x. parse_digits (parsed * 10 + x) rest) same)

decimal_from_small :
    (fuel n : ℕ) (rest : List ℕ) → n < 10 → decimal_from (suc fuel) n rest ≡ (48 + n) ∷ rest
unfolding decimal_from
decimal_from_small fuel n rest h = ground arith

decimal_from_large :
    (fuel n : ℕ) (rest : List ℕ)
    → 10 ≤ n
    → decimal_from (suc fuel) n rest ≡ decimal_from fuel (n / 10) ((48 + n % 10) ∷ rest)
unfolding decimal_from
decimal_from_large fuel n rest h = ground arith

small_or_large : (n : ℕ) → (n < 10) ⊎ (10 ≤ n)
small_or_large n = ground arith

parse_digits-decimal_from :
    (fuel n : ℕ) (rest : List ℕ)
    → n < fuel
    → n < 2 ^ 32
    → parse_digits 0 (decimal_from fuel n rest) ≡ parse_digits n rest
parse_digits-decimal_from zero n rest h k = absurd (omega arith)
parse_digits-decimal_from (suc fuel) n rest h k = elim (small_or_large n) [
  | inl small ↦
      ap (λ v. parse_digits 0 v) (decimal_from_small fuel n rest small)
      ∙ parse_digits_step 0 n rest small (omega arith)
      ∙ ap (λ x. parse_digits x rest) (omega arith)
  | inr large ↦
      ap (λ v. parse_digits 0 v) (decimal_from_large fuel n rest large)
      ∙ parse_digits-decimal_from fuel (n / 10) ((48 + n % 10) ∷ rest) (omega arith) (omega arith)
      ∙ parse_digits_step (n / 10) (n % 10) rest (omega arith) (omega arith)
      ∙ ap (λ x. parse_digits x rest) (omega arith)
]

decimal_from-append :
    (fuel n : ℕ) (xs ys : List ℕ) → decimal_from fuel n xs ++ ys ≡ decimal_from fuel n (xs ++ ys)
unfolding decimal_from
decimal_from-append zero n xs ys = refl
decimal_from-append (suc fuel) n xs ys =
    ground (arith, decimal_from-append fuel (n / 10) ((48 + n % 10) ∷ xs) ys)

-- The first byte is a digit.
abbrev pub starts_digit : List ℕ → Bool
starts_digit [] = false
starts_digit (c ∷ rest) = is_digit c

starts_digit-decimal_from :
    (fuel n : ℕ) (rest : List ℕ)
    → starts_digit rest ≡ true
    → starts_digit (decimal_from fuel n rest) ≡ true
unfolding decimal_from
starts_digit-decimal_from zero n rest h = h
starts_digit-decimal_from (suc fuel) n rest h =
    ground (arith, starts_digit-decimal_from fuel (n / 10) ((48 + n % 10) ∷ rest) (ground arith))

pub starts_digit-decimal_from-suc :
    (fuel n : ℕ) (rest : List ℕ) → starts_digit (decimal_from (suc fuel) n rest) ≡ true
unfolding decimal_from
starts_digit-decimal_from-suc fuel n rest =
    ground (arith, starts_digit-decimal_from fuel (n / 10) ((48 + n % 10) ∷ rest) (ground arith))

parse_uint_value-digits :
    (value : List ℕ)
    → starts_digit value ≡ true
    → parse_uint_value (some value) ≡ parse_digits 0 value
unfolding parse_uint_value
parse_uint_value-digits [] h = ground arith
parse_uint_value-digits (c ∷ rest) h = ground arith

parse_digits_end :
    (n : ℕ) (rest : List ℕ) → is_value_delimiter rest ≡ true → parse_digits n rest ≡ some n
unfolding parse_digits is_value_delimiter
parse_digits_end n [] h = refl
parse_digits_end n (c ∷ rest) h = ground arith

-- A number below 2 ^ 32, written in decimal and followed by a delimiter or the end, is read back.
pub parse_uint_value-decimal :
    (n : ℕ) (rest : List ℕ)
    → n < 2 ^ 32
    → is_value_delimiter rest ≡ true
    → parse_uint_value (some (decimal n ++ rest)) ≡ some n
unfolding decimal
parse_uint_value-decimal n rest h end =
    ap (λ v. parse_uint_value (some v)) (decimal_from-append (suc n) n [] rest)
    ∙ parse_uint_value-digits (decimal_from (suc n) n rest) (starts_digit-decimal_from-suc n n rest)
    ∙ parse_digits-decimal_from (suc n) n rest (omega arith) h
    ∙ parse_digits_end n rest end
