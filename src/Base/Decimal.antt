-- ===== src/Base/Decimal.antt =====
-- Decimal print of a number, as fmt.Sprintf("%d") writes it.
use mc.Base.Tests.{ltb, if◌then◌else◌}
use mc.Base.Strings.{Bytes, codes}
use Prim.Native.Nat.{ℕ, zero, suc, ◌+◌, ◌/◌, ◌%◌}
use mathlib.Core.List.{[], ◌∷◌, ◌++◌}
use mathlib.Core.Path.{◌≡◌, refl}

digits : ℕ → ℕ → Bytes
digits zero n = []
digits (suc fuel) n =
    let more = digits fuel (n / 10) ++ (b'0' + n % 10) ∷ [] in
    if ltb n 10 then (b'0' + n) ∷ [] else more

-- A number has at most as many digits as its value and one.
unfoldable pub decimal : ℕ → Bytes
unfolding digits
decimal n = digits (suc n) n

decimal_example : decimal 120 ≡ codes "120"
unfolding decimal
decimal_example = refl
