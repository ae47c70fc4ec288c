-- ===== src/Base/Decimal.antt =====
-- Decimal print of a number, as `%d` writes it.
use Prim.Native.Nat.{ℕ, zero, suc, ◌+◌, ◌/◌, ◌%◌}
use mathlib.Core.Path.{◌≡◌, refl}
use mathlib.Core.List.{[], ◌∷◌}
use vecto.Base.Tests.{ltb, if◌then◌else◌}
use vecto.Base.Text.{Bytes, codes}

-- A number has at most as many digits as its successor: the fuel is enough.
digits : ℕ → ℕ → Bytes → Bytes
digits zero n out = out
digits (suc fuel) n out =
    let rest = digits fuel (n / 10) ((b'0' + n % 10) ∷ out) in
    if ltb n 10 then (b'0' + n) ∷ out else rest

unfoldable pub decimal : ℕ → Bytes
unfolding digits
decimal n = digits (suc n) n []

decimal_test : decimal 4290 ≡ codes "4290"
unfolding decimal
decimal_test = refl
