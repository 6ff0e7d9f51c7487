-- ===== src/Base/Decimal.antt =====
-- The decimal digits that `printf` writes for an unsigned number.
use Prim.Native.Nat.{ℕ, zero, suc, ◌+◌, ◌/◌, ◌%◌}
use mathlib.Core.List.{List, [], ◌∷◌}
use package.meb_commander.Base.Tests.{ltb, if◌then◌else◌}
use package.meb_commander.Base.Int.{ℤ, pos, negsuc}

-- The digits of `n`, most significant first, in front of `rest`; a number has at most as many
-- digits as its fuel, which `decimal` takes larger than the number.
unfoldable pub decimal_from : ℕ → ℕ → List ℕ → List ℕ
decimal_from zero n rest = rest
decimal_from (suc fuel) n rest =
    let more = decimal_from fuel (n / 10) ((48 + n % 10) ∷ rest) in
    if ltb n 10 then (48 + n) ∷ rest else more

-- `%u`, `PRIu32` and `PRIu64`.
unfoldable pub decimal : ℕ → List ℕ
decimal n = decimal_from (suc n) n []

-- `%d` of a negative number has its sign in front.
unfoldable pub decimal_ℤ : ℤ → List ℕ
unfolding decimal
decimal_ℤ (pos n) = decimal n
decimal_ℤ (negsuc n) = 45 ∷ decimal (suc n)
