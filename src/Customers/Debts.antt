-- ===== src/Customers/Debts.antt =====
-- The debts that customers.tsx shows, and the payments that it makes of them.
use mathlib.Core.List.{foldl}
use beidar_pos.Prelude.{
  ℕ, String, ◌≡◌, ◌≢◌, refl, ap, keep_if_yes, keep_if_no, sym, ◌∙◌, inl, inr, true, some, List, [],
  ◌∷◌, arith, eq_iff, Bool-cases, All, keep_if,
}
use beidar_pos.Prelude.Int.{ℤ, pos, ◌+ℤ◌, ◌≤ℤ◌, ltb_ℤ, int_laws, +ℤ_parts, eq_of_parts}
use beidar_pos.Cart.{Customer}
use beidar_pos.Customers.{stats, sum_of, debt_of, filtered}
use beidar_pos.Customers.Handlers.{
  CustomersState, pay_installment, Reply, done, failed, begin_pay_installment,
  finish_pay_installment,
}

sums_add :
    (a b : ℤ) (customers : List Customer)
    → foldl (λ sum c. sum +ℤ c.debt) a customers
        +ℤ foldl (λ sum c. sum +ℤ c.installment_debt) b customers
      ≡ foldl (λ sum c. sum +ℤ debt_of c) (a +ℤ b) customers
sums_add a b [] = refl
sums_add a b (c ∷ customers) =
    sums_add (a +ℤ c.debt) (b +ℤ c.installment_debt) customers
    ∙ ap (λ t. foldl (λ sum c. sum +ℤ debt_of c) t customers)
        (eq_of_parts _ _ (
          omega (
            int_laws,
            +ℤ_parts a c.debt,
            +ℤ_parts b c.installment_debt,
            +ℤ_parts (a +ℤ c.debt) (b +ℤ c.installment_debt),
            +ℤ_parts a b,
            +ℤ_parts c.debt c.installment_debt,
            +ℤ_parts (a +ℤ b) (debt_of c),
          )))

debtors_owe :
    (a : ℤ) (customers : List Customer)
    → All (λ c. pos 0 ≤ℤ debt_of c) customers
    → foldl (λ sum c. sum +ℤ debt_of c) a (keep_if (λ c. ltb_ℤ (pos 0) (debt_of c)) customers)
      ≡ foldl (λ sum c. sum +ℤ debt_of c) a customers
debtors_owe a [] h = refl
debtors_owe a (c ∷ customers) h = elim (Bool-cases (ltb_ℤ (pos 0) (debt_of c))) [
  | inl owes ↦
      ap (foldl (λ sum c. sum +ℤ debt_of c) a) (keep_if_yes _ c customers owes)
      ∙ debtors_owe (a +ℤ debt_of c) customers h.1
  | inr even ↦
      ap (foldl (λ sum c. sum +ℤ debt_of c) a) (keep_if_no _ c customers even)
      ∙ debtors_owe a customers h.1
      ∙ ap (λ t. foldl (λ sum c. sum +ℤ debt_of c) t customers)
          (eq_of_parts a (a +ℤ debt_of c) (ground (arith, h.0, +ℤ_parts a (debt_of c))))
]

from_nothing :
    (customers : List Customer)
    → sum_of debt_of customers
      ≡ sum_of (λ c. c.debt) customers +ℤ sum_of (λ c. c.installment_debt) customers
from_nothing customers =
    ap (λ t. foldl (λ sum c. sum +ℤ debt_of c) t customers)
      (eq_of_parts (pos 0) (pos 0 +ℤ pos 0) (omega (arith, +ℤ_parts (pos 0) (pos 0))))
    ∙ sym (sums_add (pos 0) (pos 0) customers)

-- The customers that the page shows as those with debts owe together all the debts that it shows on top, where
-- none has a credit.
pub debtors_owe_all :
    (total : ℕ) (customers : List Customer)
    → All (λ c. pos 0 ≤ℤ debt_of c) customers
    → sum_of debt_of (filtered true customers) ≡ (stats total customers).total_all_debt
unfolding stats filtered
debtors_owe_all total customers h = debtors_owe (pos 0) customers h ∙ from_nothing customers

-- The answer to any payment of an instalment lets every instalment be paid again, also one whose own payment
-- still waits for its answer.
pub any_answer_unlocks :
    (reply : Reply) (key sale : String) (index : ℕ) (amount : ℤ) (s : CustomersState)
    → key ≢ ""
    → let s' = finish_pay_installment reply s in
      (begin_pay_installment s'.paying_key key sale index amount s').0
      ≡ some (pay_installment sale index amount)
unfolding finish_pay_installment begin_pay_installment
any_answer_unlocks done key sale index amount s n = ground (arith, eq_iff "" key, eq_iff key "")
any_answer_unlocks (failed message) key sale index amount s n = ground (arith, eq_iff "" key)
