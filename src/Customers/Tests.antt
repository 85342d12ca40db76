-- ===== src/Customers/Tests.antt =====
-- The properties of the customers page at small states.
use beidar_pos.Prelude.{
  String, ◌≡◌, ◌≢◌, refl, true, false, none, some, List, [], ◌∷◌, All, arith, ap, ◌===◌,
}
use beidar_pos.Prelude.Int.{ℤ, pos, ◌+ℤ◌, ◌≤ℤ◌}
use beidar_pos.Logger.{codes}
use beidar_pos.Cart.{Customer}
use beidar_pos.Confirm.{closed, pressed, open_confirm}
use beidar_pos.Customers.{stats, sum_of, debt_of, filtered, customer_to_save}
use beidar_pos.Customers.Handlers.{
  CustomersState, new_form, pay_installment, failed, begin_pay_installment, finish_pay_installment,
  handle_delete, delete_failed,
}
use beidar_pos.Confirm.Forced.{
  AppError, Event, asked, button, refused, run, step, called, may_force, IsWarranted,
}
use beidar_pos.Customers.Deletion.{deletion, force_only_if_allowed}
use beidar_pos.Customers.Debts.{debtors_owe_all, any_answer_unlocks}

abbrev customer : String → ℤ → ℤ → Customer
customer id debt installment_debt = record {
  id = id;
  name = id;
  phone = "";
  total_purchases = pos 0;
  debt = debt;
  installment_debt = installment_debt;
  last_visit = "";
  points = pos 0;
  notes = none;
}

abbrev customers : List Customer
customers =
    customer "a" (pos 500) (pos 0)
    ∷ customer "b" (pos 0) (pos 0)
    ∷ customer "c" (pos 1) (pos 2)
    ∷ []

customers_have_no_credit : All (λ c. pos 0 ≤ℤ debt_of c) customers
unfolding ◌+ℤ◌
customers_have_no_credit = (omega arith, (omega arith, (omega arith, tt)))

debtors_owe_all_example :
    sum_of debt_of (filtered true customers) ≡ (stats 3 customers).total_all_debt
debtors_owe_all_example = debtors_owe_all 3 customers customers_have_no_credit

abbrev page : CustomersState
page = record {
  form = record new_form { phone = codes "+964 770" };
  modal_open = true;
  pay_debt_modal = none;
  paying_key = some "s1-0";
  confirm_state = closed;
  notices = [];
  refreshes = 0;
}

phone_is_digits : (customer_to_save page.form).phone ≡ codes "964770"
unfolding customer_to_save
phone_is_digits = refl

abbrev key : String
key = "s1-0"

key_is_given : key ≢ ""
key_is_given e = absurd (ground (arith, ap (λ k. k === "") e))

any_answer_unlocks_example :
    let s' = finish_pay_installment (failed none) page in
    (begin_pay_installment s'.paying_key "s1-0" "s1" 0 (pos 100) s').0
    ≡ some (pay_installment "s1" 0 (pos 100))
any_answer_unlocks_example =
    any_answer_unlocks (failed none) "s1-0" "s1" 0 (pos 100) page key_is_given

abbrev in_use : AppError
in_use = record { raw = "{}"; message = some "in use"; hint = none; allow_force = true }

abbrev events : List Event
events = asked "a" ∷ button ∷ refused "a" in_use ∷ button ∷ []

forced_at_last :
    (run deletion events (record { state = page; entries = [] })).entries
    ≡ called "a" true ∷ may_force "a" ∷ called "a" false ∷ []
unfolding run step deletion handle_delete delete_failed open_confirm pressed
forced_at_last = refl

force_only_if_allowed_example :
    IsWarranted (run deletion events (record { state = page; entries = [] })).entries
force_only_if_allowed_example = force_only_if_allowed page events refl
