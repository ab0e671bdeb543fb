-- ===== src/Text/Decimal.antt =====
-- A number in a template literal: its decimal digits.
use Prim.Native.Nat.{◌/◌, ◌%◌}
use llm_router_ui.Prelude.{ℕ, zero, suc, ◌+◌, [], ◌∷◌, ◌++◌, ltb, if◌then◌else◌}
use llm_router_ui.Text.{Text}

-- the lowest digit last; a number needs no more rounds than its successor
unfoldable pub digits_from : ℕ → ℕ → Text
digits_from zero n = []
digits_from (suc fuel) n =
    let higher = digits_from fuel (n / 10) in
    if ltb n 10 then (b'0' + n) ∷ [] else higher ++ (b'0' + n % 10) ∷ []

unfoldable pub decimal : ℕ → Text
unfolding digits_from
decimal n = digits_from (suc n) n
