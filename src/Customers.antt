-- ===== src/Customers.antt =====
-- The customers of frontend/src/features/customers/customers.tsx: what the page computes of them, and
-- the form. Amounts are whole, so that the rounding of their sums does nothing; the phone number of the form
-- is a list of character codes.
mod Tests
pub mod Handlers
pub mod Deletion
pub mod Debts
use mathlib.Core.List.{foldl}
use Prim.Native.String.{◌++◌}
use beidar_pos.Prelude.{
  ℕ, ◌+◌, String, Bool, true, false, not, ◌&&◌, ◌||◌, Option, none, some, List, [], ◌∷◌, length,
  ◌===◌, if◌then◌else◌, ltb, leb, ◌==◌, or_default, keep_if, find, is_some,
}
use beidar_pos.Prelude.Int.{ℤ, pos, ◌+ℤ◌, ltb_ℤ, leb_ℤ}
use beidar_pos.Store.{truthy}
use beidar_pos.Logger.Mask.{Text}
use beidar_pos.Cart.{Customer}
use beidar_pos.Confirm.{ConfirmState, open_confirm, close_confirm, pressed}

pub record Stats : Type 0 where
  pub total_customers : ℕ
  pub total_debt : ℤ
  pub total_installment_debt : ℤ
  pub total_all_debt : ℤ
  pub vip_customers : ℕ

abbrev pub sum_of : (Customer → ℤ) → List Customer → ℤ
sum_of amount = foldl (λ sum c. sum +ℤ amount c) (pos 0)

-- `total` is the number of customers that the backend reports, 0 where it reports none.
unfoldable pub stats : ℕ → List Customer → Stats
stats total customers =
    let debt = sum_of (λ c. c.debt) customers in
    let installment_debt = sum_of (λ c. c.installment_debt) customers in
    record {
      total_customers = if total == 0 then length customers else total;
      total_debt = debt;
      total_installment_debt = installment_debt;
      total_all_debt = debt +ℤ installment_debt;
      vip_customers = length (keep_if (λ c. ltb_ℤ (pos 1_000_000) c.total_purchases) customers);
    }

abbrev pub debt_of : Customer → ℤ
debt_of c = c.debt +ℤ c.installment_debt

unfoldable pub filtered : Bool → List Customer → List Customer
filtered show_only_debt customers =
    if show_only_debt then keep_if (λ c. ltb_ℤ (pos 0) (debt_of c)) customers else customers

-- What the history reads of a sale.
pub record SaleOf : Type 0 where
  pub id : String
  pub customer : String
  pub customer_id : Option String

unfoldable pub selected_customer_history : Option String → List Customer → List SaleOf → List SaleOf
selected_customer_history none customers sales = []
selected_customer_history (some target) customers sales =
    elim (find (λ c. c.id === target) customers) [
      | none ↦ []
      | some c ↦
          keep_if
            (λ s. elim (truthy s.customer_id) [
              | none ↦ s.customer === c.name
              | some owner ↦ owner === target
            ])
            sales
    ]

unfoldable pub grid_columns : ℕ → ℕ
grid_columns width =
    if leb 1536 width then 4 else if leb 1280 width then 3 else if leb 768 width then 2 else 1

-- `Partial<Customer>`, the form.
pub record CustomerForm : Type 0 where
  pub id : Option String
  pub name : String
  pub phone : Text
  pub notes : Option String
  pub debt : Option ℤ
  pub total_purchases : Option ℤ

abbrev pub is_digit : ℕ → Bool
is_digit c = leb 48 c && leb c 57

-- `customerToSave`
unfoldable pub customer_to_save : CustomerForm → CustomerForm
customer_to_save form = record form {
  id = truthy form.id;
  phone = keep_if is_digit form.phone;
  debt = some (or_default form.debt (pos 0));
  total_purchases = some (or_default form.total_purchases (pos 0));
}
