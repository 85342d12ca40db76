-- ===== src/Cart/Tests.antt =====
-- The cart's properties at a small cart, and runs of useCart.ts.
use beidar_pos.Prelude.{
  String, ◌≡◌, ◌≢◌, refl, none, some, List, [], ◌∷◌, arith, ◌===◌, if◌then◌else◌, eq_iff,
}
use beidar_pos.Prelude.Int.{ℤ, pos, negsuc, ◌+ℤ◌, ◌-ℤ◌, ◌*ℤ◌, min_ℤ, round_div, floor_div}
use beidar_pos.Store.{Storage, throws, value}
use beidar_pos.Cart.{
  Product, CartItem, Customer, new_item, Action, add, update, set_quantity, step, run,
}
use beidar_pos.Cart.Items.{IsValid, run-IsValid, has_id}
use beidar_pos.Cart.Refine.{qty_of, qty_of-step, intended}
use beidar_pos.Cart.Totals.{
  subtotal, exact_subtotal, vat, total, thousandths, line_total, taxable_total, effective_discount,
}
use beidar_pos.Cart.Totals.Bounds.{total_exact}
use beidar_pos.Cart.Session.{
  CartState, initial, Codec, CartIsRead, CustomerIsRead, restored_customer, save_effect, mount,
}
use beidar_pos.Cart.Session.Restart.{restart_keeps_cart}

abbrev product : String → ℤ → Product
product id price = record {
  id = id;
  name = id;
  price = price;
  cost = pos 500_000;
  stock = pos 10_000;
  min_stock = pos 0;
  wholesale_price = pos 0;
  category = "";
  image = "";
  barcode = id;
  supplier = none;
  description = none;
}

abbrev tea : Product
tea = product "tea" (pos 1_500_000)

abbrev rice : Product
rice = product "rice" (pos 2_250_500)

abbrev two_lines : List CartItem
two_lines = new_item tea ∷ record (new_item rice) { qty = pos 1_300 } ∷ []

two_lines-IsValid : IsValid two_lines
unfolding has_id
two_lines-IsValid = (omega arith, refl, (omega arith, refl, tt))

abbrev shopping : List Action
shopping =
    add tea ∷ add rice ∷ add tea ∷ update "rice" (pos 250) ∷ set_quantity "tea" (pos 750) ∷ []

shopping_quantities :
    (qty_of "tea" (run shopping []) ≡ pos 750) × (qty_of "rice" (run shopping []) ≡ pos 1_250)
unfolding run step qty_of ◌+ℤ◌
shopping_quantities = (refl, refl)

-- A delta that leaves a thousandth or less takes the line out, which a set quantity does not.
small_quantities :
    (run (add tea ∷ update "tea" (negsuc 998) ∷ []) [] ≡ [])
    × (qty_of "tea" (run (add tea ∷ set_quantity "tea" (pos 1) ∷ []) []) ≡ pos 1)
unfolding run step qty_of ◌+ℤ◌
small_quantities = (refl, refl)

amounts :
    (subtotal two_lines ≡ pos 4426) × (vat two_lines (pos 426_000) (some (pos 10_000)) ≡ pos 400)
unfolding subtotal exact_subtotal vat round_div floor_div ◌+ℤ◌ line_total ◌-ℤ◌ ◌*ℤ◌ taxable_total
    effective_discount
amounts = (refl, refl)

run-IsValid_example : IsValid (run shopping two_lines)
run-IsValid_example = run-IsValid shopping two_lines two_lines-IsValid

qty_of-step_example :
    qty_of "tea" (step (update "tea" (pos 500)) two_lines)
    ≡ intended (update "tea" (pos 500)) (λ k. qty_of k two_lines) "tea"
qty_of-step_example = qty_of-step (update "tea" (pos 500)) two_lines "tea" two_lines-IsValid

total_exact_example :
    total two_lines (thousandths (pos 426)) (some (pos 10_000))
    ≡ subtotal two_lines
      -ℤ min_ℤ (pos 426) (subtotal two_lines)
      +ℤ vat two_lines (thousandths (pos 426)) (some (pos 10_000))
total_exact_example = total_exact two_lines (pos 426) (some (pos 10_000))

abbrev ali : Customer
ali = restored_customer "c1" "Ali"

-- A codec that knows one cart and one customer.
abbrev codec : Codec
codec = record {
  stringify_cart = λ items. "cart";
  parse_cart = λ text. if text === "cart" then value two_lines else throws;
  stringify_customer = λ id name. "customer";
  parse_customer = λ text. if text === "customer" then value ("c1", "Ali") else throws;
  number_to_string = λ a. "7";
  to_number = λ text. if text === "7" then pos 7000 else pos 0;
}

codec-reads_cart : CartIsRead codec two_lines
codec-reads_cart = record { cart_back = refl; cart_text = refl }

codec-reads_customer : CustomerIsRead codec ali
codec-reads_customer = record { customer_back = refl; customer_text = refl }

abbrev nobody : CartState
nobody = record initial { cart = two_lines; discount = pos 7000 }

abbrev somebody : CartState
somebody = record nobody { selected_customer = some ali }

abbrev empty : Storage
empty key = none

id_present : ali.id ≢ ""
id_present = ground (arith, eq_iff "c1" "")

name_present : ali.name ≢ ""
name_present = ground (arith, eq_iff "Ali" "")

restart_keeps_cart_example :
    (mount codec (save_effect codec nobody (nobody, empty)).1).0.cart ≡ two_lines
restart_keeps_cart_example =
    restart_keeps_cart codec nobody nobody empty (omega arith) codec-reads_cart
