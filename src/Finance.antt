-- ===== src/Finance.antt =====
-- The amounts of the finance page: frontend/src/features/finance/finance.tsx. Amounts of sales and expenses
-- count thousandths and those of a cost times a quantity millionths; the amounts that the page shows are whole.
mod Tests
pub mod Trend
pub mod Shares
pub mod Breakdown
pub mod Handlers
pub mod Deletion
use mathlib.Core.List.{foldl}
use beidar_pos.Prelude.{
  ℕ, suc, String, Bool, true, false, ◌&&◌, ◌+◌, ◌*◌, ◌-◌, Option, List, [], ◌∷◌, map, ◌===◌,
  if◌then◌else◌, keep_if, take, ltb, leb, ◌^◌,
}
use beidar_pos.Prelude.Int.{
  ℤ, pos, ◌+ℤ◌, ◌-ℤ◌, ◌*ℤ◌, ltb_ℤ, leb_ℤ, eqb_ℤ, negsuc, floor_div, round_div,
}
use beidar_pos.Sales.{Sale, SaleItem}
use beidar_pos.Purchases.{PurchaseOrder, unpaid}

pub record Expense : Type 0 where
  pub id : String
  pub title : String
  pub amount : ℤ
  pub category : String
  pub date : String
  pub notes : String

abbrev pub sum_of {ℓ} : {A : Type ℓ} → (A → ℤ) → List A → ℤ
sum_of f xs = foldl (λ sum x. sum +ℤ f x) (pos 0) xs

abbrev pub is_completed : Sale → Bool
is_completed s = s.status === "completed"

abbrev pub is_receivable : Sale → Bool
is_receivable s = s.payment_method === "credit" && s.status === "pending"

-- `Math.round(reduce(sum + s.total))`
abbrev pub revenue_of : List Sale → ℤ
revenue_of sales = round_div (sum_of (λ s. s.total) sales) 1000

abbrev pub item_cost : SaleItem → ℤ
item_cost i = i.cost *ℤ i.qty

abbrev pub sale_cost : Sale → ℤ
sale_cost s = round_div (sum_of item_cost s.items) (10 ^ 6)

pub record Stats : Type 0 where
  pub total_revenue : ℤ
  pub total_expenses : ℤ
  pub net_profit : ℤ
  pub total_supplier_debt : ℤ
  pub total_receivables : ℤ

-- The margin, a quotient, is left to the markup. The amounts of purchase orders are whole.
unfoldable pub stats : List Sale → List Expense → List PurchaseOrder → Stats
stats sales expenses orders =
    let completed : List Sale = keep_if is_completed sales in
    let spent : ℤ = round_div (sum_of (λ e. e.amount) expenses) 1000 in
    record {
      total_revenue = revenue_of completed;
      total_expenses = spent;
      net_profit = (revenue_of completed -ℤ sum_of sale_cost completed) -ℤ spent;
      total_supplier_debt = sum_of unpaid orders;
      total_receivables = revenue_of (keep_if is_receivable sales);
    }

-- `catMap[category] = (catMap[category] || 0) + amount`, a new category at the end.
unfoldable pub add_to : String → ℤ → List (String × ℤ) → List (String × ℤ)
add_to category amount [] = (category, pos 0 +ℤ amount) ∷ []
add_to category amount ((other, sum) ∷ rest) =
    let below = add_to category amount rest in
    if other === category then (other, sum +ℤ amount) ∷ rest else (other, sum) ∷ below

unfoldable pub cat_map : List Expense → List (String × ℤ)
cat_map = foldl (λ m e. add_to e.category e.amount m) []

abbrev pub category_label : String → String
category_label k =
    if k === "rent"
    then "\u{625}\u{64a}\u{62c}\u{627}\u{631}"
    else if k === "salary"
    then "\u{631}\u{648}\u{627}\u{62a}\u{628}"
    else if k === "bills"
    then "\u{641}\u{648}\u{627}\u{62a}\u{64a}\u{631}"
    else if k === "maintenance"
    then "\u{635}\u{64a}\u{627}\u{646}\u{629}"
    else "\u{623}\u{62e}\u{631}\u{649}"

abbrev pub category_color : String → String
category_color k =
    if k === "rent"
    then "bg-primary"
    else if k === "salary"
    then "bg-primary"
    else if k === "bills"
    then "bg-warning"
    else "bg-gray-500"

-- A part of the chart of the expenses.
pub record Slice : Type 0 where
  pub label : String
  pub value : ℤ
  pub color : String

abbrev pub slice_of : String × ℤ → Slice
slice_of (k, v) = record { label = category_label k; value = v; color = category_color k }

unfoldable pub expense_breakdown : List Expense → List Slice
expense_breakdown expenses = map slice_of (cat_map expenses)

-- `sort` by the time of the date, latest first; `time_of` is what a `Date` makes of a text.
unfoldable pub insert : (String → ℕ) → Expense → List Expense → List Expense
insert time_of e [] = e ∷ []
insert time_of e (x ∷ rest) =
    let behind = insert time_of e rest in
    if leb (time_of x.date) (time_of e.date) then e ∷ x ∷ rest else x ∷ behind

unfoldable pub by_date : (String → ℕ) → List Expense → List Expense
by_date time_of [] = []
by_date time_of (e ∷ rest) = insert time_of e (by_date time_of rest)

unfoldable pub recent_expenses : (String → ℕ) → List Expense → List Expense
recent_expenses time_of expenses = take 4 (by_date time_of expenses)

pub data DebtLabel : Type 0 where
  no_debts balanced excellent careful : DebtLabel

abbrev pub label_text : DebtLabel → String
label_text no_debts = "\u{644}\u{627} \u{62a}\u{648}\u{62c}\u{62f} \u{62f}\u{64a}\u{648}\u{646}"
label_text balanced = "\u{645}\u{62a}\u{632}\u{646}"
label_text excellent =
    "\u{645}\u{645}\u{62a}\u{627}\u{632} (\u{645}\u{633}\u{62a}\u{62d}\u{642}\u{627}\u{62a}\u{646}\u{627} \u{623}\u{639}\u{644}\u{649})"
label_text careful =
    "\u{62d}\u{630}\u{631} (\u{62f}\u{64a}\u{648}\u{646} \u{627}\u{644}\u{645}\u{648}\u{631}\u{62f}\u{64a}\u{646} \u{623}\u{639}\u{644}\u{649})"

pub record DebtInfo : Type 0 where
  pub receivables_pct : ℤ
  pub payables_pct : ℤ
  pub label : DebtLabel

-- `a > b * 1.5`
abbrev pub exceeds : ℤ → ℤ → Bool
exceeds a b = ltb_ℤ (pos 3 *ℤ b) (pos 2 *ℤ a)

abbrev pub debt_label : ℤ → ℤ → DebtLabel
debt_label receivables payables =
    if exceeds receivables payables
    then excellent
    else if exceeds payables receivables
    then careful
    else balanced

-- `Math.round((part / total) * 100)` for a total that is not 0.
unfoldable pub percent : ℤ → ℤ → ℤ
percent part (pos n) = floor_div (pos 200 *ℤ part +ℤ pos n) (2 * n)
percent part (negsuc n) = floor_div (pos (suc n) -ℤ pos 200 *ℤ part) (2 * suc n)

unfoldable pub debt_info : ℤ → ℤ → DebtInfo
unfolding percent
debt_info receivables payables =
    let total : ℤ = receivables +ℤ payables in
    if eqb_ℤ total (pos 0)
    then record { receivables_pct = pos 0; payables_pct = pos 0; label = no_debts }
    else record {
      receivables_pct = percent receivables total;
      payables_pct = pos 100 -ℤ percent receivables total;
      label = debt_label receivables payables;
    }
