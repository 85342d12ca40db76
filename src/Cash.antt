-- ===== src/Cash.antt =====
-- The amounts that the sales page proposes for a payment in cash:
-- frontend/src/features/pos/components/sales/CartPanel.tsx. The total of a cart is whole.
pub mod Amounts
mod Tests
use beidar_pos.Prelude.{
  ℕ, zero, suc, ◌+◌, ◌-◌, ◌*◌, ◌/◌, Bool, true, false, not, ◌&&◌, List, [], ◌∷◌, ◌++◌, length, take,
  any, ltb, ◌==◌, if◌then◌else◌,
}
use beidar_pos.Prelude.Int.{ℤ, pos, negsuc}

-- `Math.ceil(n / to) * to`
unfoldable pub round_up : ℕ → ℕ → ℕ
round_up n to = ((n + to - 1) / to) * to

-- One turn of the loop over the steps.
unfoldable pub push_amount : ℕ → ℕ → List ℕ → List ℕ
push_amount total to amounts =
    let amount = round_up total to in
    if ltb total amount && not (any (λ a. a == amount) amounts) && ltb (length amounts) 4
    then amounts ++ (amount ∷ [])
    else amounts

abbrev pub steps : List ℕ
steps = 5_000 ∷ 10_000 ∷ 25_000 ∷ 50_000 ∷ []

unfoldable pub push_all : ℕ → List ℕ → List ℕ → List ℕ
push_all total [] amounts = amounts
push_all total (to ∷ rest) amounts = push_all total rest (push_amount total to amounts)

-- `smartAmounts`
unfoldable pub smart_amounts : ℤ → List ℕ
smart_amounts (negsuc n) = steps
smart_amounts (pos zero) = steps
smart_amounts (pos (suc n)) = take 4 (push_all (suc n) steps (suc n ∷ []))
