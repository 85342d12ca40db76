-- ===== src/Sales/Tests.antt =====
-- The properties of SalesPage.tsx at a small page.
use beidar_pos.Prelude.{◌≡◌, refl, true, false, none, some, [], ◌∷◌, arith, ◌===◌, if◌then◌else◌}
use beidar_pos.Prelude.Int.{pos, ◌+ℤ◌, ◌-ℤ◌, ◌≤ℤ◌, ◌<ℤ◌, round_div, floor_div, ◌*ℤ◌}
use beidar_pos.Store.{throws, value}
use beidar_pos.Cart.{Product, Customer, new_item}
use beidar_pos.Cart.Items.{IsValid, has_id}
use beidar_pos.Cart.Refine.{qty_of}
use beidar_pos.Cart.Totals.{thousandths, subtotal, exact_subtotal, line_total}
use beidar_pos.Cart.Session.{CartState, initial, Codec, CartIsRead, restored_customer}
use beidar_pos.Sales.{no_extras, InstallmentPlan, Page, Context, build_sale}
use beidar_pos.Sales.Checkout.{sale_balances}
use beidar_pos.Sales.Parking.{
  begin_park, finish_retrieve, kept, sent, park_then_retrieve, ComesBack,
}
use beidar_pos.Sales.Scan.{handle_scan, scan_sells_one}

abbrev tea : Product
tea = record {
  id = "tea";
  name = "Tea";
  price = pos 1_500_000;
  cost = pos 500_000;
  stock = pos 10_000;
  min_stock = pos 0;
  wholesale_price = pos 1_200_000;
  category = "";
  image = "";
  barcode = "622";
  supplier = none;
  description = none;
}

abbrev sugar : Product
sugar = record tea { id = "sugar"; name = "Sugar"; barcode = "623"; wholesale_price = pos 0 }

abbrev session : CartState
session = record initial { cart = new_item tea ∷ []; discount = thousandths (pos 500) }

abbrev over : CartState
over = record initial { cart = new_item tea ∷ []; discount = thousandths (pos 2000) }

abbrev page : Page
page = record {
  session = session;
  is_wholesale = true;
  is_processing = false;
  show_parked_modal = false;
  show_quick_add_modal = false;
  show_split_modal = false;
  show_installment_modal = false;
  show_shift_panel = false;
  new_product_barcode = "";
  quick_form = ("", pos 0);
  confirm_state = (false, "");
  last_sale_for_print = none;
  last_completed_sale = none;
  scanned_invoice = none;
  notices = [];
}

abbrev context : Context
context = record {
  prefs = record { tax_rate = some (pos 10_000); auto_print = true };
  staff = some ("s1", "Zainab");
  new_id = "INV-1";
  today = "2025-01-01";
  now = 1_735_689_600_000;
}

abbrev plan : InstallmentPlan
plan = record {
  total_amount = pos 1_100_000;
  down_payment = pos 0;
  months = 2;
  start_date = "";
  schedule = [];
}

tea_subtotal : (pos 500 ≤ℤ subtotal session.cart) × (subtotal over.cart <ℤ pos 2000)
unfolding subtotal exact_subtotal line_total round_div floor_div ◌+ℤ◌ ◌-ℤ◌ ◌*ℤ◌
tea_subtotal = (omega arith, omega arith)

has_tea : has_id "tea" session.cart ≡ true
unfolding has_id
has_tea = refl

no_tea : has_id "tea" initial.cart ≡ false
unfolding has_id
no_tea = refl

session-IsValid : IsValid session.cart
unfolding has_id
session-IsValid = (omega arith, refl, tt)

sale_balances_example :
    let sale = build_sale context no_extras session in
    sale.total ≡ sale.subtotal -ℤ sale.discount +ℤ sale.vat
sale_balances_example = sale_balances context no_extras session (pos 500) refl tea_subtotal.0

-- A codec that knows one cart.
abbrev codec : Codec
codec = record {
  stringify_cart = λ items. "cart";
  parse_cart = λ text. if text === "cart" then value session.cart else throws;
  stringify_customer = λ id name. "customer";
  parse_customer = λ text. throws;
  number_to_string = λ a. "7";
  to_number = λ text. pos 7000;
}

codec-reads : CartIsRead codec session.cart
codec-reads = record { cart_back = refl; cart_text = refl }

abbrev ali : Customer
ali = restored_customer "c1" "Ali"

abbrev for_ali : Page
for_ali = record page { session = record session { selected_customer = some ali } }

park_then_retrieve_example :
    let back =
      (finish_retrieve codec (ali ∷ []) (some (kept (sent codec context for_ali))) page).session in
    ((begin_park codec context for_ali).1 ≡ some (sent codec context for_ali))
    × (back.cart ≡ session.cart)
    × ComesBack (ali ∷ []) (some ali) page.session.selected_customer back.selected_customer
park_then_retrieve_example =
    park_then_retrieve codec context (ali ∷ []) for_ali page (omega arith) codec-reads

scan_sells_one_example :
    let (p', outcome) = handle_scan (sugar ∷ tea ∷ []) false "622" page in
    (qty_of "tea" p'.session.cart ≡ qty_of "tea" session.cart +ℤ pos 1000)
    × IsValid p'.session.cart
    × (p'.confirm_state ≡ (false, ""))
scan_sells_one_example =
    scan_sells_one (sugar ∷ tea ∷ []) false "622" "tea" page refl refl session-IsValid
