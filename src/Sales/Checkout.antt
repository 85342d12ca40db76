-- ===== src/Sales/Checkout.antt =====
-- What a checkout of SalesPage.tsx sends, and what its answers leave.
use mathlib.Core.List.{foldl}
use beidar_pos.Prelude.{
  ◌<◌, ◌^◌, String, ◌≡◌, refl, sym, ◌∙◌, ◌===◌, any, true, false, Option, some, List, [], ◌∷◌, map,
  arith, length,
}
use beidar_pos.Prelude.Int.{ℤ, pos, ◌+ℤ◌, ◌-ℤ◌, ◌≤ℤ◌, ◌<ℤ◌, round_div, int_laws}
use beidar_pos.Cart.{CartItem}
use beidar_pos.Cart.Items.{has_id}
use beidar_pos.Cart.Totals.{thousandths, line_total, exact_subtotal, subtotal, total, items_count}
use beidar_pos.Cart.Totals.Bounds.{total_exact, thousandths_parts}
use beidar_pos.Cart.Session.{CartState}
use beidar_pos.Sales.{
  Sale, SaleItem, Extras, Page, Context, sale_item, build_sale, begin_checkout, done, failed,
  finish_checkout, installment_plan_ready, plan_extras, InstallmentPlan,
}

-- The sum of the lines' totals, in millionths, and of their quantities.
abbrev pub sum_of : (SaleItem → ℤ) → List SaleItem → ℤ
sum_of f = foldl (λ sum item. sum +ℤ f item) (pos 0)

fold_totals :
    (acc : ℤ) (items : List CartItem)
    → foldl (λ sum item. sum +ℤ item.total) acc (map sale_item items)
      ≡ foldl (λ sum item. sum +ℤ line_total item) acc items
unfolding sale_item line_total
fold_totals acc [] = refl
fold_totals acc (i ∷ items) = fold_totals (acc +ℤ line_total i) items

fold_quantities :
    (acc : ℤ) (items : List CartItem)
    → foldl (λ sum item. sum +ℤ item.qty) acc (map sale_item items)
      ≡ foldl (λ sum item. sum +ℤ item.qty) acc items
unfolding sale_item
fold_quantities acc [] = refl
fold_quantities acc (i ∷ items) = fold_quantities (acc +ℤ i.qty) items

-- The sale agrees with its own lines: the subtotal is their totals' sum, rounded to a whole number, and
-- the count of items is the sum of their quantities.
pub sale_adds_up :
    (x : Context) (extras : Extras) (s : CartState)
    → let sale = build_sale x extras s in
      (sale.subtotal ≡ thousandths (round_div (sum_of (λ i. i.total) sale.items) (10 ^ 6)))
      × (sale.items_count ≡ sum_of (λ i. i.qty) sale.items)
unfolding build_sale subtotal exact_subtotal items_count
sale_adds_up x extras s = (rw (fold_totals (pos 0) s.cart), sym (fold_quantities (pos 0) s.cart))

-- If the discount is a whole number of at most the subtotal, the amounts of the sale balance.
pub sale_balances :
    (x : Context) (extras : Extras) (s : CartState) (w : ℤ)
    → s.discount ≡ thousandths w
    → w ≤ℤ subtotal s.cart
    → let sale = build_sale x extras s in sale.total ≡ sale.subtotal -ℤ sale.discount +ℤ sale.vat
unfolding build_sale
sale_balances x extras s w e h =
    let exact = total_exact s.cart w x.prefs.tax_rate in
    rw e (grind (int_laws, thousandths_parts, exact))

-- If the discount is a whole number above the subtotal, the amounts of the sale do not balance: the total
-- was computed from the clamped discount, and the sale records the discount as it was typed.
pub over_discount_unbalanced :
    (x : Context) (extras : Extras) (s : CartState) (w : ℤ)
    → s.discount ≡ thousandths w
    → subtotal s.cart <ℤ w
    → let sale = build_sale x extras s in sale.subtotal -ℤ sale.discount +ℤ sale.vat <ℤ sale.total
unfolding build_sale
over_discount_unbalanced x extras s w e h =
    let exact = total_exact s.cart w x.prefs.tax_rate in
    rw e (grind (int_laws, thousandths_parts, exact))

-- A rejected sale can be tried again: if a page whose cart is not empty and that is not processing sends
-- its sale and the answer is a rejection, the next checkout sends the same cart, customer and amounts, if
-- nothing else has changed them.
pub retry_after_failure :
    (x y : Context) (extras : Extras) (p : Page) (message : Option String)
    → 0 < length p.session.cart
    → p.is_processing ≡ false
    → let sale = build_sale x extras p.session in
      let p' = finish_checkout x sale (failed message) (begin_checkout x extras p p).0 in
      ((begin_checkout x extras p p).1 ≡ some sale)
      × ((begin_checkout y extras p' p').1 ≡ some (build_sale y extras p.session))
unfolding begin_checkout finish_checkout
retry_after_failure x y extras p message l h = ground arith

any-sale_item :
    (id : String) (items : List CartItem)
    → any (λ i. i.id === id) (map sale_item items) ≡ has_id id items
unfolding sale_item has_id
any-sale_item id [] = refl
any-sale_item id (i ∷ items) = ground (arith, any-sale_item id items)

-- A line that joins the cart while a sale is under way, for a product that the sale does not have, is lost
-- when the sale succeeds: it is neither in the sale nor in the cart.
pub late_line_is_lost :
    (x : Context) (extras : Extras) (seen p : Page) (id : String)
    → has_id id p.session.cart ≡ true
    → has_id id seen.session.cart ≡ false
    → let sale = build_sale x extras seen.session in
      (has_id id (finish_checkout x sale done p).session.cart ≡ false)
      × (any (λ i. i.id === id) sale.items ≡ false)
unfolding build_sale finish_checkout has_id
late_line_is_lost x extras seen p id h n = (refl, any-sale_item id seen.session.cart ∙ n)

-- A checkout that follows a plan of instalments is decided by the page that was rendered when the plan was
-- asked for: if that one had a cart and was not processing, the sale is sent, even while another sale is
-- under way.
pub installment_checkout_ignores_processing :
    (x : Context) (plan : InstallmentPlan) (seen p : Page)
    → 0 < length seen.session.cart
    → seen.is_processing ≡ false
    → p.is_processing ≡ true
    → (sale : Sale) × ((installment_plan_ready x (some plan) seen p).1 ≡ some sale)
      × (sale.installment_plan ≡ some plan)
      × (sale.total ≡ thousandths (total seen.session.cart seen.session.discount x.prefs.tax_rate))
unfolding installment_plan_ready build_sale
installment_checkout_ignores_processing x plan seen p l h busy =
    (build_sale x (plan_extras plan) seen.session, ground arith, refl, refl)
