-- ===== src/Cart/Session.antt =====
-- The whole state of useCart.ts: its setters, its three effects and what a mount does. The effects of a
-- commit run in the order of the source, read the values that were rendered, and queue updates that are
-- applied in order.
pub mod Restart
use beidar_pos.Prelude.{
  String, ◌<◌, ◌≡◌, ◌≢◌, Bool, true, false, List, [], ◌∷◌, Option, none, some, length, ltb, ◌===◌,
  if◌then◌else◌,
}
use beidar_pos.Prelude.Int.{ℤ, pos}
use beidar_pos.Store.{Storage, set_item, remove_item, truthy, Parsed, throws, other, value}
use beidar_pos.Cart.{CartItem, Customer, Product, add_item}

abbrev pub cart_storage_key : String
cart_storage_key = "beidar_pos_cart"

abbrev pub customer_storage_key : String
customer_storage_key = "beidar_pos_customer"

abbrev pub discount_storage_key : String
discount_storage_key = "beidar_pos_discount"

abbrev pub payment_method_storage_key : String
payment_method_storage_key = "beidar_pos_payment_method"

-- The payment method is any text: the restore casts what it reads without a check.
pub record CartState : Type 0 where
  pub cart : List CartItem
  pub selected_customer : Option Customer
  pub discount : ℤ
  pub payment_method : String
  pub is_zen_mode : Bool
  pub received_amount : ℤ
  pub just_added_id : Option String

abbrev pub initial : CartState
initial = record {
  cart = [];
  selected_customer = none;
  discount = pos 0;
  payment_method = "cash";
  is_zen_mode = false;
  received_amount = pos 0;
  just_added_id = none;
}

-- `JSON` and the conversions of numbers, at the types that the hook uses them. A saved customer is its
-- name and identifier, empty where missing.
pub record Codec : Type 0 where
  pub stringify_cart : List CartItem → String
  pub parse_cart : String → Parsed (List CartItem)
  pub stringify_customer : String → String → String
  pub parse_customer : String → Parsed (String × String)
  pub number_to_string : ℤ → String
  pub to_number : String → ℤ

-- What the hook relies on: a cart or a customer that was written is read back, and its text is not empty.
pub record CartIsRead (c : Codec) (items : List CartItem) : Type 0 where
  pub cart_back : c.parse_cart (c.stringify_cart items) ≡ value items
  pub cart_text : truthy (some (c.stringify_cart items)) ≡ some (c.stringify_cart items)

pub record CustomerIsRead (c : Codec) (who : Customer) : Type 0 where
  pub customer_back :
      c.parse_customer (c.stringify_customer who.id who.name) ≡ value (who.id, who.name)
  pub customer_text :
      truthy (some (c.stringify_customer who.id who.name))
      ≡ some (c.stringify_customer who.id who.name)

pub data Sound : Type 0 where
  success failure warning click : Sound

-- `addToCart`, with the sound that it plays; `setTimeout` ends the mark 300 ms later.
unfoldable pub add_to_cart : Product → Bool → CartState → CartState × Option Sound
unfolding add_item
add_to_cart p silent s = (
  record s { cart = add_item p s.cart; just_added_id = some p.id },
  if silent then none else some success,
)

unfoldable pub just_added_timeout : CartState → CartState
just_added_timeout s = record s { just_added_id = none }

unfoldable pub clear_cart : CartState → CartState
clear_cart s = record s {
  cart = [];
  discount = pos 0;
  payment_method = "cash";
  selected_customer = none;
  received_amount = pos 0;
}

abbrev pub restored_customer : String → String → Customer
restored_customer id name = record {
  id = id;
  name = name;
  phone = "";
  total_purchases = pos 0;
  debt = pos 0;
  installment_debt = pos 0;
  last_visit = "";
  points = pos 0;
  notes = none;
}

module _ (c : Codec) (st : Storage) where
  -- The rest of the `try` block, from its last statement upwards; the flag is `restored`, and the result
  -- says whether `onCartRestored` is called.
  restore_payment_method : CartState → Bool → CartState × Bool
  restore_payment_method s restored = elim (truthy (st payment_method_storage_key)) [
    | none ↦ (record s { is_zen_mode = false }, restored)
    | some m ↦ (record s { payment_method = m; is_zen_mode = false }, restored)
  ]

  restore_customer : CartState → Bool → CartState × Bool
  unfolding restore_payment_method
  restore_customer s restored = elim (truthy (st customer_storage_key)) [
    | none ↦ restore_payment_method s restored
    | some text ↦ elim (c.parse_customer text) [
      | throws ↦ (s, false)
      | other ↦ restore_payment_method s restored
      | value (id, name) ↦
          restore_payment_method
            (if id === ""
              then s
              else (if name === ""
                  then s
                  else record s { selected_customer = some (restored_customer id name) }))
            restored
    ]
  ]

  restore_discount : CartState → Bool → CartState × Bool
  unfolding restore_customer
  restore_discount s restored = elim (truthy (st discount_storage_key)) [
    | none ↦ restore_customer s restored
    | some text ↦
        restore_customer (if restored then record s { discount = c.to_number text } else s) restored
  ]

  -- The effect that restores the cart on mount.
  unfoldable pub restore : CartState → CartState × Bool
  unfolding restore_discount
  restore s = elim (truthy (st cart_storage_key)) [
    | none ↦ restore_discount s false
    | some text ↦ elim (c.parse_cart text) [
      | throws ↦ (s, false)
      | other ↦ restore_discount s false
      | value items ↦
          if ltb 0 (length items)
          then restore_discount (record s { cart = items }) true
          else restore_discount s false
    ]
  ]

-- The effect that saves the cart: `r` was rendered, `s` carries the updates queued so far.
unfoldable pub save_effect : Codec → CartState → CartState × Storage → CartState × Storage
save_effect c r (s, st) =
    if ltb 0 (length r.cart)
    then (
      s,
      let base = set_item payment_method_storage_key r.payment_method (
            set_item discount_storage_key (c.number_to_string r.discount)
              (set_item cart_storage_key (c.stringify_cart r.cart) st)) in
          elim r.selected_customer [
            | none ↦ base
            | some who ↦ set_item customer_storage_key (c.stringify_customer who.id who.name) base
          ],
    )
    else (
      record s { payment_method = "cash"; discount = pos 0; is_zen_mode = false },
      remove_item payment_method_storage_key (
          remove_item customer_storage_key
            (remove_item discount_storage_key (remove_item cart_storage_key st))),
    )

-- The effect that resets the received amount.
unfoldable pub received_effect : CartState → CartState → CartState
received_effect r s = if ltb 0 (length r.cart) then s else record s { received_amount = pos 0 }

-- The effects after a commit that rendered `r`.
unfoldable pub commit : Codec → CartState → CartState × Storage → CartState × Storage
unfolding save_effect received_effect
commit c r queued = let (s, st) = save_effect c r queued in (received_effect r s, st)

-- The first commit renders the initial state and runs all three effects; the second renders what they
-- queued.
unfoldable pub mount : Codec → Storage → CartState × Storage
unfolding restore commit
mount c st =
    let (s, called) = restore c st initial in
    let (s', st') = commit c initial (s, st) in commit c s' (s', st')
