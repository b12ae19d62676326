-- ===== src/Prelude/Decimal.antt =====
-- Numbers as their decimal digits, as `format!` prints them.
use Prim.Native.Nat.{ℕ, zero, suc, ◌+◌, ◌/◌, ◌%◌}
use mathlib.Core.List.{[], ◌∷◌, ◌++◌}
use hermytt.Prelude.Tests.{ltb, if◌then◌else◌}
use hermytt.Prelude.Text.{Text}

-- On fuel, of which one more than the number is enough.
digits : ℕ → ℕ → Text
digits zero n = []
digits (suc fuel) n =
    let rest = digits fuel (n / 10) ++ (b'0' + n % 10) ∷ [] in
    if ltb n 10 then (b'0' + n) ∷ [] else rest

unfoldable pub decimal : ℕ → Text
unfolding digits
decimal n = digits (suc n) n
