-- ===== src/Purchases/Tests.antt =====
-- The properties of the purchase orders at small orders.
use beidar_pos.Prelude.{
  String, ◌≡◌, refl, inl, true, false, Option, none, some, List, [], ◌∷◌, All, ◌++◌,
}
use beidar_pos.Prelude.Int.{ℤ, pos, ◌+ℤ◌, ◌-ℤ◌, ◌*ℤ◌, round_div, floor_div}
use beidar_pos.Prelude.Keys.{has_key, HasDistinctKeys}
use beidar_pos.Cart.{Product}
use beidar_pos.Confirm.{closed}
use beidar_pos.Purchases.{
  PurchaseOrderItem, PurchaseOrder, CreateForm, FormAction, item_added, quantity_typed,
  supplier_chosen, step, run, empty_form, order_of, create_form_total, add_item_to_order, line_of,
  receive_all, items_to_receive, set_received,
}
use beidar_pos.Purchases.Form.{stale_add_duplicates, line_key}
use beidar_pos.Purchases.Receive.{item_key, is_covered, typed_all, receives_at_most_what_is_left}
use beidar_pos.Purchases.Tab.{TabState, pay}
use beidar_pos.Purchases.Tab.Dialogs.{pay_button, begin}
use beidar_pos.Purchases.Tab.Calls.{Outcome, calls_are_proper}

abbrev product : String → ℤ → Product
product id cost = record {
  id = id;
  name = id;
  price = pos 0;
  cost = cost;
  stock = pos 0;
  min_stock = pos 0;
  wholesale_price = pos 0;
  category = "";
  image = "";
  barcode = "";
  supplier = none;
  description = none;
}

abbrev rice : Product
rice = product "rice" (pos 1_500)

abbrev tea : Product
tea = product "tea" (pos 400)

abbrev actions : List FormAction
actions =
    item_added rice
    ∷ item_added tea
    ∷ item_added rice
    ∷ supplier_chosen "s1"
    ∷ quantity_typed "tea" (some (pos 3_000))
    ∷ []

abbrev form : CreateForm
form = run actions empty_form

-- Two of rice at 1.5, and three of tea at 0.4, each line rounded.
form_costs_4 : create_form_total form.items ≡ pos 4
unfolding create_form_total run step ◌+ℤ◌ ◌*ℤ◌ round_div floor_div
form_costs_4 = refl

abbrev sent_order : PurchaseOrder
sent_order = order_of form

tea_is_new : has_key line_key "tea" empty_form.items ≡ false
unfolding has_key
tea_is_new = refl

stale_add_duplicates_example :
    (add_item_to_order tea empty_form (add_item_to_order tea empty_form empty_form)).items
    ≡ empty_form.items ++ (line_of tea ∷ line_of tea ∷ [])
stale_add_duplicates_example = stale_add_duplicates tea empty_form tea_is_new

abbrev line : String → ℤ → ℤ → PurchaseOrderItem
line id quantity received = record {
  product_id = id;
  product_name = id;
  quantity = quantity;
  received_qty = received;
  unit_cost = pos 100;
  total = pos 0;
}

abbrev order : PurchaseOrder
order = record {
  id = some "o1";
  supplier_id = "s1";
  supplier_name = none;
  status = some "partial";
  total_amount = some (pos 900);
  paid_amount = some (pos 200);
  note = "";
  items = line "rice" (pos 5_000) (pos 2_000) ∷ line "tea" (pos 3_000) (pos 3_000) ∷ [];
}

abbrev edits : List (PurchaseOrderItem × Option ℤ)
edits = (line "rice" (pos 5_000) (pos 2_000), some (pos 9_000)) ∷ []

-- Nine are typed where three are left.
three_are_sent :
    items_to_receive (typed_all edits (receive_all order))
    ≡ record { product_id = "rice"; received_qty = pos 3_000 } ∷ []
unfolding items_to_receive typed_all receive_all set_received ◌-ℤ◌
three_are_sent = refl

order-HasDistinctKeys : HasDistinctKeys item_key order.items
unfolding has_key
order-HasDistinctKeys = (refl, (refl, tt))

receives_at_most_what_is_left_example :
    All
      (λ r. is_covered order.items r ≡ true)
      (items_to_receive (typed_all edits (receive_all order)))
receives_at_most_what_is_left_example =
    receives_at_most_what_is_left order edits order-HasDistinctKeys (inl refl, tt)

abbrev tab : TabState
tab = record {
  show_create_modal = false;
  show_receive_modal = false;
  show_pay_modal = true;
  selected_order = some order;
  create_form = form;
  product_search = "";
  receive_items = [];
  pay_amount = pos 700;
  pay_method = "cash";
  confirm_state = closed;
  notices = [];
  effects = [];
}

pays_700 : begin pay_button tab ≡ (some (pay "o1" (pos 700) "cash"), tab)
unfolding begin
pays_700 = refl

calls_are_proper_example : Outcome pay_button tab (begin pay_button tab)
calls_are_proper_example = calls_are_proper pay_button tab
