-- ===== src/Sales.antt =====
-- The sales page: frontend/src/features/pos/views/SalesPage.tsx. A handler that awaits the backend is two
-- functions, up to the call and from its answer on; between them other handlers run. `Sale` and `SaleItem`
-- are those of frontend/src/core/types.ts. Amounts count thousandths, the total of a line millionths.
mod Tests
pub mod Checkout
pub mod Wholesale
pub mod Parking
pub mod Scan
pub mod Remote
use text.Mathlib.Text.{find?}
use beidar_pos.Prelude.{
  ℕ, String, Bool, true, false, ◌||◌, Option, none, some, List, [], ◌∷◌, map, ltb, ◌===◌,
  if◌then◌else◌, or_default, is_some, length,
}
use beidar_pos.Prelude.Int.{ℤ, pos, ◌-ℤ◌, ◌*ℤ◌}
use beidar_pos.Store.{truthy}
use beidar_pos.Cart.{CartItem, Customer}
use beidar_pos.Cart.Totals.{thousandths, line_total, subtotal, vat, total, items_count}
use beidar_pos.Cart.Session.{CartState}

pub record Installment : Type 0 where
  pub number : ℕ
  pub due_date : String
  pub amount : ℤ
  pub status : String
  pub paid_at : Option ℕ

pub record InstallmentPlan : Type 0 where
  pub total_amount : ℤ
  pub down_payment : ℤ
  pub months : ℕ
  pub start_date : String
  pub schedule : List Installment

pub record SaleItem : Type 0 where
  pub pid : ℕ
  pub id : String
  pub name : String
  pub qty : ℤ
  pub price : ℤ
  pub cost : ℤ
  pub discount : ℤ
  pub total : ℤ
  pub returned_qty : ℤ

-- The fields that a sale of the page has.
pub record Sale : Type 0 where
  pub id : String
  pub customer : String
  pub customer_id : Option String
  pub staff_id : String
  pub staff_name : String
  pub date : String
  pub timestamp : ℕ
  pub subtotal : ℤ
  pub discount : ℤ
  pub vat : ℤ
  pub total : ℤ
  pub payment_method : String
  pub split_details : Option (ℤ × ℤ)
  pub installment_plan : Option InstallmentPlan
  pub status : String
  pub items_count : ℤ
  pub items : List SaleItem

-- `Partial<Sale>`, at the fields that its callers give: the cash and card parts of a split, or a plan.
pub record Extras : Type 0 where
  pub payment_method : Option String
  pub status : Option String
  pub split_details : Option (ℤ × ℤ)
  pub installment_plan : Option InstallmentPlan

abbrev pub no_extras : Extras
no_extras = record {
  payment_method = none;
  status = none;
  split_details = none;
  installment_plan = none;
}

pub data Kind : Type 0 where
  success error info : Kind

pub record Prefs : Type 0 where
  pub tax_rate : Option ℤ
  pub auto_print : Bool

-- The state of the page that its handlers read and write. `notices` are the calls of `notify`, latest first.
pub record Page : Type 0 where
  pub session : CartState
  pub is_wholesale : Bool
  pub is_processing : Bool
  pub show_parked_modal : Bool
  pub show_quick_add_modal : Bool
  pub show_split_modal : Bool
  pub show_installment_modal : Bool
  pub show_shift_panel : Bool
  pub new_product_barcode : String
  pub quick_form : String × ℤ
  pub confirm_state : Bool × String
  pub last_sale_for_print : Option Sale
  pub last_completed_sale : Option Sale
  pub scanned_invoice : Option Sale
  pub notices : List (String × Kind)

abbrev pub notify : String → Kind → Page → Page
notify message kind p = record p { notices = (message, kind) ∷ p.notices }

-- What a handler reads beside the state: the user, the new invoice's number, the date and the time.
pub record Context : Type 0 where
  pub prefs : Prefs
  pub staff : Option (String × String)
  pub new_id : String
  pub today : String
  pub now : ℕ

sale_item : CartItem → SaleItem
sale_item i = record {
  pid = 0;
  id = i.id;
  name = i.name;
  qty = i.qty;
  price = i.price;
  cost = i.cost;
  discount = or_default i.item_discount (pos 0);
  total = i.price *ℤ i.qty -ℤ thousandths (or_default i.item_discount (pos 0));
  returned_qty = pos 0;
}

abbrev pub guest : String
guest = "\u{632}\u{628}\u{648}\u{646} \u{639}\u{627}\u{645}"

abbrev name_of : Option Customer → String
name_of none = guest
name_of (some c) = or_default (truthy (some c.name)) guest

abbrev id_of : Option Customer → Option String
id_of none = none
id_of (some c) = some c.id

abbrev staff_id_of : Option (String × String) → String
staff_id_of none = ""
staff_id_of (some (id, name)) = id

abbrev staff_name_of : Option (String × String) → String
staff_name_of none = ""
staff_name_of (some (id, name)) = name

-- The sale that `handleCheckout` builds from what was rendered.
unfoldable pub build_sale : Context → Extras → CartState → Sale
unfolding sale_item items_count
build_sale x extras s = record {
  id = x.new_id;
  customer = name_of s.selected_customer;
  customer_id = id_of s.selected_customer;
  staff_id = staff_id_of x.staff;
  staff_name = staff_name_of x.staff;
  date = x.today;
  timestamp = x.now;
  subtotal = thousandths (subtotal s.cart);
  discount = s.discount;
  vat = thousandths (vat s.cart s.discount x.prefs.tax_rate);
  total = thousandths (total s.cart s.discount x.prefs.tax_rate);
  payment_method = or_default extras.payment_method s.payment_method;
  split_details = extras.split_details;
  installment_plan = extras.installment_plan;
  status =
      or_default extras.status (if s.payment_method === "credit" then "pending" else "completed");
  items_count = items_count s.cart;
  items = map sale_item s.cart;
}

-- `handleCheckout` up to the call of the backend: `seen` is the page that its closure rendered, `p` the
-- page now. `none` is the early return.
unfoldable pub begin_checkout : Context → Extras → Page → Page → Page × Option Sale
unfolding build_sale
begin_checkout x extras seen p =
    if ltb 0 (length seen.session.cart)
    then (if seen.is_processing
        then (p, none)
        else (record p { is_processing = true }, some (build_sale x extras seen.session)))
    else (p, none)

-- The answer of `api.sales.process`: done, or a rejection with its message.
pub data Reply : Type 0 where
  done : Reply
  failed : Option String → Reply

abbrev includes : String → String → Bool
includes text part = is_some (find? text part)

-- The rest of `handleCheckout`.
unfoldable pub finish_checkout : Context → Sale → Reply → Page → Page
finish_checkout x sale done p =
    let sold = record p {
      session = record (p.session) {
        cart = [];
        discount = pos 0;
        selected_customer = none;
        payment_method = "cash";
        received_amount = pos 0;
      };
      show_split_modal = false;
      show_installment_modal = false;
      last_sale_for_print = if x.prefs.auto_print then some sale else p.last_sale_for_print;
      last_completed_sale = some sale;
      is_processing = false;
    } in
    notify "\u{62a}\u{645} \u{627}\u{644}\u{628}\u{64a}\u{639} \u{628}\u{646}\u{62c}\u{627}\u{62d}"
      success sold
finish_checkout x sale (failed message) p =
    let text =
      or_default (truthy message)
        "\u{62d}\u{62f}\u{62b} \u{62e}\u{637}\u{623} \u{623}\u{62b}\u{646}\u{627}\u{621} \u{627}\u{644}\u{645}\u{639}\u{627}\u{644}\u{62c}\u{629}" in
    let told = notify text error p in
    record told {
      show_shift_panel =
          if includes text "\u{634}\u{641}\u{62a}" || includes text "Shift"
          then true
          else p.show_shift_panel;
      is_processing = false;
    }

abbrev pub plan_extras : InstallmentPlan → Extras
plan_extras plan = record {
  payment_method = some "installment";
  status = some "pending";
  split_details = none;
  installment_plan = some plan;
}

-- `handleInstallmentConfirm`: once the plan is there, it checks out from the page that was rendered when
-- the button was pressed.
unfoldable pub installment_plan_ready :
    Context → Option InstallmentPlan → Page → Page → Page × Option Sale
unfolding begin_checkout
installment_plan_ready x none seen p = (
  notify
      "\u{641}\u{634}\u{644} \u{62d}\u{633}\u{627}\u{628} \u{627}\u{644}\u{623}\u{642}\u{633}\u{627}\u{637}"
      error p,
  none,
)
installment_plan_ready x (some plan) seen p = begin_checkout x (plan_extras plan) seen p
