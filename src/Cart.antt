-- ===== src/Cart.antt =====
-- The state of the sales cart and the operations on it: frontend/src/features/pos/hooks/useCart.ts,
-- with the types of frontend/src/core/types.ts. Prices, discounts and quantities count thousandths
-- (a quantity of 1 is `pos 1000`), since goods are sold by weight with three decimal places.
pub mod Items
mod Tests
pub mod Refine
pub mod Totals
pub mod Session
use beidar_pos.Prelude.{
  String, Option, none, some, Bool, true, false, List, [], ◌∷◌, ◌++◌, map, ◌===◌, if◌then◌else◌,
  is_some, find, keep_if, not,
}
use beidar_pos.Prelude.Int.{ℤ, pos, ◌+ℤ◌, ltb_ℤ, leb_ℤ}

-- `customDetails` is only carried along, and is left out.
pub record Product : Type 0 where
  pub id : String
  pub name : String
  pub price : ℤ
  pub cost : ℤ
  pub stock : ℤ
  pub min_stock : ℤ
  pub wholesale_price : ℤ
  pub category : String
  pub image : String
  pub barcode : String
  pub supplier : Option String
  pub description : Option String

pub record CartItem : Type 0 where
  pub product : Product
  pub open product use *
  pub qty : ℤ
  pub item_discount : Option ℤ
  pub sale_id : Option String

pub record Customer : Type 0 where
  pub id : String
  pub name : String
  pub phone : String
  pub total_purchases : ℤ
  pub debt : ℤ
  pub installment_debt : ℤ
  pub last_visit : String
  pub points : ℤ
  pub notes : Option String

-- A quantity of one piece, in thousandths.
abbrev pub one_piece : ℤ
one_piece = pos 1000

-- The updaters that the actions hand to `setCart`.
abbrev pub new_item : Product → CartItem
new_item p = record {
  product = p;
  qty = one_piece;
  item_discount = some (pos 0);
  sale_id = some "";
}

abbrev pub bump_qty : String → ℤ → CartItem → CartItem
bump_qty id delta item = if item.id === id then record item { qty = item.qty +ℤ delta } else item

abbrev pub with_qty : String → ℤ → CartItem → CartItem
with_qty id qty item = if item.id === id then record item { qty = qty } else item

unfoldable pub add_item : Product → List CartItem → List CartItem
add_item p prev =
    if is_some (find (λ item. item.id === p.id) prev)
    then map (bump_qty p.id one_piece) prev
    else prev ++ (new_item p ∷ [])

-- `item.qty > 0.001`
abbrev pub is_kept : CartItem → Bool
is_kept item = ltb_ℤ (pos 1) item.qty

unfoldable pub update_qty : String → ℤ → List CartItem → List CartItem
update_qty id delta prev = keep_if is_kept (map (bump_qty id delta) prev)

unfoldable pub remove_from_cart : String → List CartItem → List CartItem
remove_from_cart id prev = keep_if (λ item. not (item.id === id)) prev

unfoldable pub set_item_quantity : String → ℤ → List CartItem → List CartItem
unfolding remove_from_cart
set_item_quantity id qty prev =
    if leb_ℤ qty (pos 0) then remove_from_cart id prev else map (with_qty id qty) prev

-- The actions of the hook that change the items.
pub data Action : Type 0 where
  add : Product → Action
  update : String → ℤ → Action
  set_quantity : String → ℤ → Action
  remove : String → Action
  clear : Action

unfoldable pub step : Action → List CartItem → List CartItem
unfolding add_item update_qty set_item_quantity remove_from_cart
step (add p) items = add_item p items
step (update id delta) items = update_qty id delta items
step (set_quantity id qty) items = set_item_quantity id qty items
step (remove id) items = remove_from_cart id items
step clear items = []

unfoldable pub run : List Action → List CartItem → List CartItem
run [] items = items
run (a ∷ actions) items = run actions (step a items)
