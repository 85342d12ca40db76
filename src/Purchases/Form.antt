-- ===== src/Purchases/Form.antt =====
-- The form of a new purchase order: which lines it can have, and the order that is made of it.
use mathlib.Core.List.{foldl, append_assoc}
use beidar_pos.Prelude.{
  String, ◌≡◌, refl, ◌∙◌, ap, inl, inr, false, List, [], ◌∷◌, ◌++◌, map, arith, Bool-cases,
}
use beidar_pos.Prelude.Int.{ℤ, pos, ◌+ℤ◌}
use beidar_pos.Prelude.Keys.{
  has_key, HasDistinctKeys, find-has_key, keep_if-HasDistinctKeys, append-HasDistinctKeys,
  map-HasDistinctKeys,
}
use beidar_pos.Cart.{Product}
use beidar_pos.Purchases.Receive.{item_key}
use beidar_pos.Purchases.{
  FormItem, CreateForm, FormAction, item_added, item_removed, quantity_typed, cost_typed,
  supplier_chosen, note_typed, one_more, line_of, with_quantity, with_cost, step, run, empty_form,
  order_of, order_item, create_form_total, PurchaseOrderItem, add_item_to_order, item_total,
}

abbrev pub line_key : FormItem → String
line_key i = i.product_id

-- No product has two lines.
abbrev pub IsDistinct : CreateForm → Type 0
IsDistinct f = HasDistinctKeys line_key f.items

step-IsDistinct : (a : FormAction) (f : CreateForm) → IsDistinct f → IsDistinct (step a f)
unfolding step
step-IsDistinct (item_added p) f d = elim (Bool-cases (has_key line_key p.id f.items)) [
  | inl old ↦
      rw (find-has_key line_key p.id f.items, old)
        (map-HasDistinctKeys line_key (one_more p.id) (λ i. ground arith) f.items d)
  | inr new ↦
      rw (find-has_key line_key p.id f.items, new)
        (append-HasDistinctKeys line_key f.items (line_of p) d new)
]
step-IsDistinct (item_removed id) f d = keep_if-HasDistinctKeys line_key _ f.items d
step-IsDistinct (quantity_typed id typed) f d =
    map-HasDistinctKeys line_key (with_quantity id _) (λ i. ground arith) f.items d
step-IsDistinct (cost_typed id typed) f d =
    map-HasDistinctKeys line_key (with_cost id _) (λ i. ground arith) f.items d
step-IsDistinct (supplier_chosen id) f d = d
step-IsDistinct (note_typed note) f d = d

-- The actions keep that no product has two lines.
pub run-IsDistinct :
    (actions : List FormAction) (f : CreateForm) → IsDistinct f → IsDistinct (run actions f)
unfolding run
run-IsDistinct [] f d = d
run-IsDistinct (a ∷ actions) f d = run-IsDistinct actions (step a f) (step-IsDistinct a f d)

has_key-order_item :
    (k : String) (items : List FormItem)
    → has_key item_key k (map order_item items) ≡ has_key line_key k items
unfolding has_key
has_key-order_item k [] = refl
has_key-order_item k (i ∷ items) = rw (has_key-order_item k items) refl

order_item-HasDistinctKeys :
    (items : List FormItem)
    → HasDistinctKeys line_key items
    → HasDistinctKeys item_key (map order_item items)
order_item-HasDistinctKeys [] d = tt
order_item-HasDistinctKeys (i ∷ items) d =
    (has_key-order_item i.product_id items ∙ d.0, order_item-HasDistinctKeys items d.1)

-- Whatever is done with the empty form, each action on the form that is then shown, the order that is made of
-- it has no two lines for a product.
pub order_lines_are_distinct :
    (actions : List FormAction) → HasDistinctKeys item_key (order_of (run actions empty_form)).items
unfolding order_of
order_lines_are_distinct actions =
    order_item-HasDistinctKeys (run actions empty_form).items (run-IsDistinct actions empty_form tt)

-- The sum of what the lines of an order cost.
abbrev pub items_total : List PurchaseOrderItem → ℤ
items_total = foldl (λ sum i. sum +ℤ i.total) (pos 0)

sums_agree :
    (items : List FormItem) (start : ℤ)
    → foldl (λ sum i. sum +ℤ i.total) start (map order_item items)
      ≡ foldl (λ sum i. sum +ℤ item_total i.quantity i.unit_cost) start items
sums_agree [] start = refl
sums_agree (i ∷ items) start = sums_agree items (start +ℤ item_total i.quantity i.unit_cost)

same_products :
    (items : List FormItem)
    → map (λ i. i.product_id) (map order_item items) ≡ map (λ i. i.product_id) items
same_products [] = refl
same_products (i ∷ items) = ap (λ t. i.product_id ∷ t) (same_products items)

-- An order that is made of a form costs in its lines what the form showed as its total, for the supplier that
-- was chosen, with a line for each line of the form.
pub order_costs_what_is_shown :
    (f : CreateForm)
    → (items_total (order_of f).items ≡ create_form_total f.items)
      × ((order_of f).supplier_id ≡ f.supplier_id)
      × (map (λ i. i.product_id) (order_of f).items ≡ map (λ i. i.product_id) f.items)
unfolding order_of create_form_total
order_costs_what_is_shown f = (sums_agree f.items (pos 0), refl, same_products f.items)

-- A product that is added twice from one render, in which it has no line, has two lines afterwards.
pub stale_add_duplicates :
    (p : Product) (f : CreateForm)
    → has_key line_key p.id f.items ≡ false
    → (add_item_to_order p f (add_item_to_order p f f)).items
      ≡ f.items ++ (line_of p ∷ line_of p ∷ [])
unfolding add_item_to_order
stale_add_duplicates p f new =
    rw (find-has_key line_key p.id f.items, new)
      (append_assoc f.items (line_of p ∷ []) (line_of p ∷ []))
