-- ===== src/Finance/Tests.antt =====
-- Examples of the finance page.
use beidar_pos.Prelude.{
  ℕ, ◌+◌, ◌*◌, ◌≤◌, ◌<◌, ◌≡◌, ◌⊎◌, ◌↔◌, refl, String, true, false, none, some, List, [], ◌∷◌, ◌==◌,
  if◌then◌else◌, arith,
}
use beidar_pos.Prelude.Int.{pos, pos_part, ◌+ℤ◌, ◌-ℤ◌, round_div, floor_div}
use beidar_pos.Confirm.{closed}
use beidar_pos.Confirm.Forced.{AppError, Event, asked, button, refused, did_other}
use beidar_pos.Sales.{Sale}
use beidar_pos.Finance.{Expense, cat_map, debt_info, balanced, add_to}
use beidar_pos.Finance.Trend.{
  Day, Shift, same_day, utc_month, month_revenue, set_month, revenue_growth_pct, whole, ratio,
  days_in, growth_stands_still,
}
use beidar_pos.Finance.Shares.{debt_bars_fit}
use beidar_pos.Finance.Handlers.{FinanceState}

abbrev expense_in : String → ℕ → Expense
expense_in category amount = record {
  id = "e";
  title = "t";
  amount = pos amount;
  category = category;
  date = "2025-01-01";
  notes = "";
}

abbrev spent : List Expense
spent = expense_in "rent" 5000 ∷ expense_in "bills" 1000 ∷ expense_in "rent" 2000 ∷ []

abbrev sale_on : String → ℕ → Sale
sale_on date total = record {
  id = "s";
  customer = "";
  customer_id = none;
  staff_id = "";
  staff_name = "";
  date = date;
  timestamp = 0;
  subtotal = pos total;
  discount = pos 0;
  vat = pos 0;
  total = pos total;
  payment_method = "cash";
  split_details = none;
  installment_plan = none;
  status = "completed";
  items_count = pos 0;
  items = [];
}

-- The 31st of March 2025, and its 1st.
abbrev long_day : Day
long_day = record { month = 24302; day = 31 }

abbrev short_day : Day
short_day = record { month = 24302; day = 1 }

abbrev key : ℕ → String
key n = if n == 24302 then "2025-03" else "2025-02"

-- At noon, three hours ahead of UTC.
abbrev baghdad : Day → Shift
baghdad d = same_day

abbrev sold : List Sale
sold = sale_on "2025-03-05" 300000 ∷ sale_on "2025-02-05" 200000 ∷ []

two_categories : cat_map spent ≡ ("rent", pos 7000) ∷ ("bills", pos 1000) ∷ []
unfolding cat_map add_to ◌+ℤ◌
two_categories = refl

half_more : revenue_growth_pct key baghdad sold short_day ≡ ratio (pos 100) (pos 200)
unfolding revenue_growth_pct set_month month_revenue utc_month days_in round_div floor_div ◌+ℤ◌ ◌-ℤ◌
half_more = refl

debt_bars_fit_example :
    (pos_part (debt_info (pos 1) (pos 2)).receivables_pct
        + pos_part (debt_info (pos 1) (pos 2)).payables_pct
      ≡ 100)
    × ((debt_info (pos 1) (pos 2)).receivables_pct
        ≡ pos (pos_part (debt_info (pos 1) (pos 2)).receivables_pct))
    × ((debt_info (pos 1) (pos 2)).payables_pct
        ≡ pos (pos_part (debt_info (pos 1) (pos 2)).payables_pct))
    × (2 * (1 + 2) * pos_part (debt_info (pos 1) (pos 2)).receivables_pct ≤ 200 * 1 + (1 + 2))
    × (200 * 1 < 2 * (1 + 2) * pos_part (debt_info (pos 1) (pos 2)).receivables_pct + (1 + 2))
    × (((debt_info (pos 1) (pos 2)).label ≡ balanced) ↔ ((2 * 1 ≤ 3 * 2) × (2 * 2 ≤ 3 * 1)))
debt_bars_fit_example = debt_bars_fit 1 2 (omega arith)

growth_stands_still_example :
    (revenue_growth_pct key baghdad sold long_day ≡ whole 0)
    ⊎ (revenue_growth_pct key baghdad sold long_day
        ≡ ratio (pos 0) (month_revenue key baghdad sold long_day))
unfolding days_in
growth_stands_still_example =
    growth_stands_still key baghdad sold long_day (omega arith) (omega arith) refl refl

abbrev page : FinanceState
page = record {
  expense_modal = true;
  expense_form = record {
    id = none;
    title = some "rent of May";
    amount = some (pos 5000);
    category = none;
    date = none;
    notes = none;
  };
  is_categorizing = false;
  supplier_modal = false;
  supplier_form = record {
    id = none;
    name = none;
    company_name = none;
    phone = none;
    balance = none;
    notes = none;
    email = none;
  };
  email_modal = none;
  generated_email = "";
  generating_email = false;
  confirm_modal = closed;
  notices = [];
  refreshes = 0;
}

abbrev in_use : AppError
in_use = record { raw = "{}"; message = some "in use"; hint = none; allow_force = true }

abbrev events : List Event
events = did_other "e" ∷ asked "a" ∷ button ∷ refused "a" in_use ∷ button ∷ []
