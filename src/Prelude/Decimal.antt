-- ===== src/Prelude/Decimal.antt =====
-- The numbers that decimal digits write.
use hands_on_sqldb_in_cpp.Prelude.Tests.{ltb}
use hands_on_sqldb_in_cpp.Prelude.Lists.{length}
use Prim.Native.Nat.{ℕ, ◌+◌, ◌*◌, ◌-◌, ◌^◌}
use mathlib.Core.Bool.{Bool, true, not, ◌&&◌}
use mathlib.Core.List.{List, [], ◌∷◌}

abbrev pub is_digit : ℕ → Bool
is_digit c = not (ltb c 48) && not (ltb 57 c)

-- The number that digits write, whatever its size.
unfoldable pub decimal : List ℕ → ℕ
decimal [] = 0
decimal (c ∷ text) = (c - 48) * 10 ^ length text + decimal text

unfoldable pub all_digits : List ℕ → Bool
all_digits [] = true
all_digits (c ∷ text) = is_digit c && all_digits text
