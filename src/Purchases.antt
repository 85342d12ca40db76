-- ===== src/Purchases.antt =====
-- The purchase orders of frontend/src/features/finance/components/PurchaseOrdersTab.tsx: the records of
-- frontend/src/core/api/types.ts, the form of a new order, and the amounts that the page computes. Quantities
-- and unit costs count thousandths, totals are whole.
mod Tests
pub mod Form
pub mod Receive
pub mod Tab
use mathlib.Core.List.{foldl}
use text.Mathlib.Text.{find?}
use beidar_pos.Prelude.{
  ℕ, String, Bool, true, false, ◌||◌, ◌^◌, Option, none, some, List, [], ◌∷◌, ◌++◌, map, length,
  ◌===◌, if◌then◌else◌, or_default, is_some, find, keep_if, take, not,
}
use beidar_pos.Prelude.Int.{ℤ, pos, ◌+ℤ◌, ◌-ℤ◌, ◌*ℤ◌, eqb_ℤ, ltb_ℤ, min_ℤ, round_div}
use beidar_pos.Cart.{Product, one_piece}

-- The identifier of the database is left out.
pub record PurchaseOrderItem : Type 0 where
  pub product_id : String
  pub product_name : String
  pub quantity : ℤ
  pub received_qty : ℤ
  pub unit_cost : ℤ
  pub total : ℤ

pub record PurchaseOrder : Type 0 where
  pub id : Option String
  pub supplier_id : String
  pub supplier_name : Option String
  pub status : Option String
  pub total_amount : Option ℤ
  pub paid_amount : Option ℤ
  pub note : String
  pub items : List PurchaseOrderItem

pub record ReceiveOrderItem : Type 0 where
  pub product_id : String
  pub received_qty : ℤ

pub record FormItem : Type 0 where
  pub product_id : String
  pub product_name : String
  pub quantity : ℤ
  pub unit_cost : ℤ

pub record CreateForm : Type 0 where
  pub supplier_id : String
  pub note : String
  pub items : List FormItem

abbrev pub empty_form : CreateForm
empty_form = record { supplier_id = ""; note = ""; items = [] }

-- `Number(text) || d`, where `none` is a text that is no number.
abbrev pub number_or : Option ℤ → ℤ → ℤ
number_or none d = d
number_or (some v) d = if eqb_ℤ v (pos 0) then d else v

-- `Math.round(quantity * unitCost)`
abbrev pub item_total : ℤ → ℤ → ℤ
item_total quantity unit_cost = round_div (quantity *ℤ unit_cost) (10 ^ 6)

unfoldable pub create_form_total : List FormItem → ℤ
create_form_total = foldl (λ sum i. sum +ℤ item_total i.quantity i.unit_cost) (pos 0)

abbrev pub order_item : FormItem → PurchaseOrderItem
order_item i = record {
  product_id = i.product_id;
  product_name = i.product_name;
  quantity = i.quantity;
  received_qty = pos 0;
  unit_cost = i.unit_cost;
  total = item_total i.quantity i.unit_cost;
}

-- The order that `handleCreateOrder` sends.
unfoldable pub order_of : CreateForm → PurchaseOrder
order_of form = record {
  id = none;
  supplier_id = form.supplier_id;
  supplier_name = none;
  status = none;
  total_amount = none;
  paid_amount = none;
  note = form.note;
  items = map order_item form.items;
}

abbrev pub one_more : String → FormItem → FormItem
one_more id i = if i.product_id === id then record i { quantity = i.quantity +ℤ one_piece } else i

abbrev pub line_of : Product → FormItem
line_of p = record {
  product_id = p.id;
  product_name = p.name;
  quantity = one_piece;
  unit_cost = p.cost;
}

-- `addItemToOrder`: it looks the product up in the form of the render, `shown`, and changes the latest form.
unfoldable pub add_item_to_order : Product → CreateForm → CreateForm → CreateForm
add_item_to_order p shown prev =
    if is_some (find (λ i. i.product_id === p.id) shown.items)
    then record prev { items = map (one_more p.id) prev.items }
    else record prev { items = prev.items ++ (line_of p ∷ []) }

unfoldable pub remove_item_from_order : String → CreateForm → CreateForm
remove_item_from_order id prev = record prev {
  items = keep_if (λ i. not (i.product_id === id)) prev.items;
}

abbrev pub with_quantity : String → ℤ → FormItem → FormItem
with_quantity id quantity i = if i.product_id === id then record i { quantity = quantity } else i

abbrev pub with_cost : String → ℤ → FormItem → FormItem
with_cost id unit_cost i = if i.product_id === id then record i { unit_cost = unit_cost } else i

-- The inputs of a line.
unfoldable pub set_quantity : String → Option ℤ → CreateForm → CreateForm
set_quantity id typed prev = record prev {
  items = map (with_quantity id (number_or typed one_piece)) prev.items;
}

unfoldable pub set_unit_cost : String → Option ℤ → CreateForm → CreateForm
set_unit_cost id typed prev = record prev {
  items = map (with_cost id (number_or typed (pos 0))) prev.items;
}

-- What the form's buttons and inputs do.
pub data FormAction : Type 0 where
  item_added : Product → FormAction
  item_removed : String → FormAction
  quantity_typed : String → Option ℤ → FormAction
  cost_typed : String → Option ℤ → FormAction
  supplier_chosen : String → FormAction
  note_typed : String → FormAction

-- An action on the form that is shown.
unfoldable pub step : FormAction → CreateForm → CreateForm
unfolding add_item_to_order remove_item_from_order set_quantity set_unit_cost
step (item_added p) f = add_item_to_order p f f
step (item_removed id) f = remove_item_from_order id f
step (quantity_typed id typed) f = set_quantity id typed f
step (cost_typed id typed) f = set_unit_cost id typed f
step (supplier_chosen id) f = record f { supplier_id = id }
step (note_typed note) f = record f { note = note }

unfoldable pub run : List FormAction → CreateForm → CreateForm
run [] f = f
run (a ∷ actions) f = run actions (step a f)

-- `quantity - receivedQty` of a line of an order.
abbrev pub remaining : PurchaseOrderItem → ℤ
remaining i = i.quantity -ℤ i.received_qty

-- What `openReceiveModal` proposes.
unfoldable pub receive_all : PurchaseOrder → List ReceiveOrderItem
receive_all order =
    map (λ i. record { product_id = i.product_id; received_qty = remaining i }) order.items

abbrev pub with_received : String → ℤ → ReceiveOrderItem → ReceiveOrderItem
with_received id received r =
    if r.product_id === id then record r { received_qty = received } else r

-- The input of a line of the order in the dialog.
unfoldable pub set_received :
    PurchaseOrderItem → Option ℤ → List ReceiveOrderItem → List ReceiveOrderItem
set_received item typed prev =
    map (with_received item.product_id (min_ℤ (number_or typed (pos 0)) (remaining item))) prev

-- `itemsToReceive` of `handleReceiveOrder`.
unfoldable pub items_to_receive : List ReceiveOrderItem → List ReceiveOrderItem
items_to_receive items = keep_if (λ i. ltb_ℤ (pos 0) i.received_qty) items

-- What is left to pay of an order.
abbrev pub unpaid : PurchaseOrder → ℤ
unpaid order = or_default order.total_amount (pos 0) -ℤ or_default order.paid_amount (pos 0)

pub record Stats : Type 0 where
  pub pending : ℕ
  pub total_value : ℤ
  pub total_unpaid : ℤ

abbrev pub is_open : PurchaseOrder → Bool
is_open order = or_default order.status "" === "pending" || or_default order.status "" === "partial"

unfoldable pub stats : List PurchaseOrder → Stats
stats orders = record {
  pending = length (keep_if is_open orders);
  total_value = foldl (λ sum o. sum +ℤ or_default o.total_amount (pos 0)) (pos 0) orders;
  total_unpaid = foldl (λ sum o. sum +ℤ unpaid o) (pos 0) orders;
}
