-- ===== src/Prelude/Decimal.antt =====
-- Numbers as `format!` prints them.
use Prim.Native.Nat.{ℕ, zero, suc, ◌+◌, ◌/◌, ◌%◌}
use mathlib.Core.List.{[], ◌∷◌}
use policy_templates.Prelude.Tests.{eqb, if◌then◌else◌}
use policy_templates.Prelude.ByteString.{Bytes}

-- The digits of n in front of what is printed so far; n rounds are enough for n + 1.
decimal_onto : ℕ → ℕ → Bytes → Bytes
decimal_onto zero n out = out
decimal_onto (suc fuel) n out =
    let digit : ℕ = n % 10 + 48 in
    let more = decimal_onto fuel (n / 10) (digit ∷ out) in
    if eqb (n / 10) 0 then digit ∷ out else more

unfoldable pub decimal : ℕ → Bytes
unfolding decimal_onto
decimal n = decimal_onto (suc n) n []
