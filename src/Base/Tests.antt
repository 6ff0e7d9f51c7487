-- ===== src/Base/Tests.antt =====
-- Boolean tests on the native numbers, the conditional, and the case lemmas to split on them.
use Prim.Native.Nat.{ℕ, ◌≤◌, ◌<◌, compare, Ordering}
use mathlib.Core.Path.{◌≡◌, refl}
use mathlib.Core.Logic.{◌↔◌, ◌⊎◌, inl, inr}
use mathlib.Core.Bool.{Bool, true, false}
use mathlib.Core.Option.{Option, none, some}
use native.Mathlib.Omega.{arith}

abbrev pub ltb : ℕ → ℕ → Bool
ltb a b = elim (compare a b) [ Ordering.lt ↦ true | _ ↦ false ]

abbrev pub leb : ℕ → ℕ → Bool
leb a b = elim (compare a b) [ Ordering.gt ↦ false | _ ↦ true ]

infix 50 ◌==◌
abbrev pub ◌==◌ : ℕ → ℕ → Bool
a == b = elim (compare a b) [ Ordering.eq ↦ true | _ ↦ false ]

infix 1 if◌then◌else◌
abbrev pub if◌then◌else◌ {ℓ} : {A : Type ℓ} → Bool → A → A → A
if true then x else y = x
if false then x else y = y

-- An application that needs no parentheses.
infixr 1 ◌$◌
abbrev pub ◌$◌ {ℓ κ} : {A : Type ℓ} {B : Type κ} → (A → B) → A → B
f $ x = f x

-- `bad` where a value is missing, and what follows it where it is there.
abbrev pub given {ℓ κ} : {A : Type ℓ} {B : Type κ} → Option A → B → (A → B) → B
given none bad next = bad
given (some value) bad next = next value

-- `a == b` on the C type bool.
abbrev pub same : Bool → Bool → Bool
same true b = b
same false true = false
same false false = true

pub ltb→lt : (a b : ℕ) → ltb a b ≡ true → a < b
ltb→lt a b h = ground arith

pub lt→ltb : (a b : ℕ) → a < b → ltb a b ≡ true
lt→ltb a b h = ground arith

pub leb→le : (a b : ℕ) → leb a b ≡ true → a ≤ b
leb→le a b h = ground arith

pub le→leb : (a b : ℕ) → a ≤ b → leb a b ≡ true
le→leb a b h = ground arith

pub ==_iff : (a b : ℕ) → ((a == b) ≡ true) ↔ (a ≡ b)
==_iff a b = ground arith

pub ruleset tests = (arith, ltb→lt, lt→ltb, leb→le, le→leb)

pub Bool-cases : (b : Bool) → (b ≡ true) ⊎ (b ≡ false)
Bool-cases true = inl refl
Bool-cases false = inr refl

pub Option-cases {ℓ} : {A : Type ℓ} (o : Option A) → (o ≡ none) ⊎ ((a : A) × (o ≡ some a))
Option-cases none = inl refl
Option-cases (some a) = inr (a, refl)

-- A property of both branches.
pub if-elim {ℓ κ} :
    {A : Type ℓ} (F : A → Type κ) (b : Bool) {x y : A}
    → (b ≡ true → F x)
    → (b ≡ false → F y)
    → F (if b then x else y)
if-elim F true f g = f refl
if-elim F false f g = g refl

pub given-cases {ℓ κ μ} :
    {A : Type ℓ} {B : Type κ} (F : B → Type μ) (o : Option A) {bad : B} {next : A → B}
    → (o ≡ none → F bad)
    → ((value : A) → o ≡ some value → F (next value))
    → F (given o bad next)
given-cases F none f g = f refl
given-cases F (some value) f g = g value refl

pub given-elim {ℓ κ μ} :
    {A : Type ℓ} {B : Type κ} (F : B → Type μ) (o : Option A) {bad : B} {next : A → B}
    → F bad
    → ((value : A) → o ≡ some value → F (next value))
    → F (given o bad next)
given-elim F o f g = given-cases F o (λ missing. f) g
