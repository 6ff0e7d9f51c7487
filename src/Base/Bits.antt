-- ===== src/Base/Bits.antt =====
-- Laws of the native bit operations at variables: masks of low ones are remainders, and an `or`
-- of disjoint fields is a sum. The C code packs and unpacks bit fields with them.
use Prim.Native.Nat.{
  ℕ, zero, suc, ◌+◌, ◌*◌, ◌/◌, ◌%◌, ◌^◌, ◌≤◌, ◌<◌, min, max, bit_and, bit_or, digits, bitwise,
  bit_and-bitwise, bit_or-bitwise,
}
use mathlib.Core.Path.{◌≡◌, refl, ap, sym, ◌∙◌}
use mathlib.Core.Bool.{Bool, true, ◌&&◌}
use mathlib.Core.Logic.{◌⊎◌, inl, inr}
use native.Mathlib.Nat.{pow-suc}
use native.Mathlib.Omega.{arith}
use package.meb_commander.Base.Tests.{◌==◌, ==_iff}

-- The digit recursion that the native operations stand for does not depend on surplus fuel.
module _ (rest : ℕ → ℕ) (op : ℕ → ℕ → ℕ) where
  digits_done : (fuel b : ℕ) → digits rest op fuel 0 b ≡ rest b
  digits_done zero b = refl
  digits_done (suc fuel) b = refl

  digits_surplus :
      (large small a b : ℕ)
      → a ≤ small
      → small ≤ large
      → digits rest op large a b ≡ digits rest op small a b
  digits_surplus large small zero b h k = digits_done large b ∙ sym (digits_done small b)
  digits_surplus large zero (suc a) b h k = absurd (omega arith)
  digits_surplus zero (suc small) (suc a) b h k = absurd (omega arith)
  digits_surplus (suc large) (suc small) (suc a) b h k =
      let half = digits_surplus large small (suc a / 2) (b / 2) (omega arith) (omega arith) in
      ap (λ n. n * 2 + op (suc a % 2) (b % 2)) half

  lowest_digit :
      (a b : ℕ)
      → bitwise rest op (suc a) b ≡ bitwise rest op (suc a / 2) (b / 2) * 2 + op (suc a % 2) (b % 2)
  lowest_digit a b =
      let half = digits_surplus a (suc a / 2) (suc a / 2) (b / 2) (omega arith) (omega arith) in
      ap (λ n. n * 2 + op (suc a % 2) (b % 2)) half

-- One binary digit of each operation.
and_digit : (a b : ℕ) → bit_and a b ≡ bit_and (a / 2) (b / 2) * 2 + min (a % 2) (b % 2)
and_digit zero b = simp bit_and-bitwise (omega arith)
and_digit (suc a) b = simp bit_and-bitwise (lowest_digit (λ _. 0) min a b)

or_digit : (a b : ℕ) → bit_or a b ≡ bit_or (a / 2) (b / 2) * 2 + max (a % 2) (b % 2)
or_digit zero b = simp bit_or-bitwise (omega arith)
or_digit (suc a) b = simp bit_or-bitwise (lowest_digit (λ b. b) max a b)

-- Zero on the right: neutral for `or`, absorbing for `and`.
zero_right : (bound a : ℕ) → a ≤ bound → (bit_or a 0 ≡ a) × (bit_and a 0 ≡ 0)
zero_right bound zero h = (refl, refl)
zero_right zero (suc a) h = absurd (omega arith)
zero_right (suc bound) (suc a) h =
    let (kept, gone) = zero_right bound (suc a / 2) (omega arith) in
    (omega (arith, or_digit (suc a) 0, kept), omega (arith, and_digit (suc a) 0, gone))

pub bit_or-zero : (a : ℕ) → bit_or a 0 ≡ a
bit_or-zero a = (zero_right a a (omega arith)).0

pub bit_and-zero : (a : ℕ) → bit_and a 0 ≡ 0
bit_and-zero a = (zero_right a a (omega arith)).1

or_shift : (k a b x : ℕ) → x ≡ a * 2 ^ k → b < 2 ^ k → bit_or x b ≡ x + b
or_shift zero a b x e h =
    let none_left : b ≡ 0 = omega arith in rw none_left (omega (arith, bit_or-zero x))
or_shift (suc k) a b x e h = omega (
  arith,
  twice,
  pow-suc 2 k,
  or_digit x b,
  or_shift k a (b / 2) (x / 2) (omega (arith, twice)) (omega (arith, pow-suc 2 k)),
)
  where
    twice : a * 2 ^ suc k ≡ a * 2 ^ k * 2
    twice = omega (arith, ap (λ t. a * t) (pow-suc 2 k))

-- `(a << k) | b` with `b` below `2 ^ k` is a sum.
pub bit_or-shift : (k a b : ℕ) → b < 2 ^ k → bit_or (a * 2 ^ k) b ≡ a * 2 ^ k + b
bit_or-shift k a b h = or_shift k a b (a * 2 ^ k) refl h

-- A test holds at every number under `bound`, by running it.
tested : (ℕ → Bool) → ℕ → Bool
tested test zero = true
tested test (suc bound) = tested test bound && test bound

tested_sound :
    (test : ℕ → Bool) (bound : ℕ) → tested test bound ≡ true → (k : ℕ) → k < bound → test k ≡ true
unfolding tested
tested_sound test zero all k h = absurd (omega arith)
tested_sound test (suc bound) all k h = elim (at_or_below k bound h) [
  | inl same ↦ rw same (ground arith)
  | inr less ↦ tested_sound test bound (ground arith) k less
]
  where
    at_or_below : (k bound : ℕ) → k < suc bound → (k ≡ bound) ⊎ (k < bound)
    at_or_below k bound h = ground arith

-- `(d & m) >> s` for a byte `d`, against the bits from `s` on below `k`: by its table.
field_table : ℕ → ℕ → ℕ → Bool
field_table m s k = tested (λ d. bit_and d m / s == d / s % k) 256

module _ (m s k d : ℕ) (table : field_table m s k ≡ true) (byte : d < 256) where
  field_of_table : bit_and d m / s ≡ d / s % k
  unfolding field_table
  field_of_table = (==_iff _ _).0 (tested_sound _ 256 table d byte)

pub bit_and_0x40 : (d : ℕ) → d < 256 → bit_and d 0x40 / 64 ≡ d / 64 % 2
unfolding field_table tested
bit_and_0x40 d h = field_of_table 0x40 64 2 d refl h

pub bit_and_0xe0 : (d : ℕ) → d < 256 → bit_and d 0xe0 / 32 ≡ d / 32 % 8
unfolding field_table tested
bit_and_0xe0 d h = field_of_table 0xe0 32 8 d refl h

pub bit_and_0x1c : (d : ℕ) → d < 256 → bit_and d 0x1c / 4 ≡ d / 4 % 8
unfolding field_table tested
bit_and_0x1c d h = field_of_table 0x1c 4 8 d refl h

-- `d & (2 ^ k - 1)`, in the widths that the firmware masks with.
pub bit_and_0x03 : (d : ℕ) → bit_and d 0x03 ≡ d % 4
bit_and_0x03 d = omega (arith, and_digit d 3, and_digit (d / 2) 1, bit_and-zero (d / 2 / 2))

pub bit_and_0x0f : (d : ℕ) → bit_and d 0x0f ≡ d % 16
bit_and_0x0f d = omega (arith, and_digit d 15, and_digit (d / 2) 7, bit_and_0x03 (d / 2 / 2))

pub bit_and_0x3f : (d : ℕ) → bit_and d 0x3f ≡ d % 64
bit_and_0x3f d = omega (arith, and_digit d 63, and_digit (d / 2) 31, bit_and_0x0f (d / 2 / 2))
