-- ===== src/Sales/Wholesale.antt =====
-- Retail and wholesale prices in SalesPage.tsx: the price that a product is added at, and the effect that
-- reprices the cart whenever it, the mode or the products change.
use beidar_pos.Prelude.{
  String, ◌≡◌, refl, ap₂, Bool, true, false, not, ◌||◌, Option, none, some, List, [], ◌∷◌, map,
  arith, ◌===◌, if◌then◌else◌, find, Bool-cases, Option-cases, inl, inr,
}
use beidar_pos.Prelude.Int.{ℤ, pos, eqb_ℤ}
use beidar_pos.Cart.{Product, CartItem}
use beidar_pos.Cart.Items.{IsValid, has_id}
use beidar_pos.Cart.Refine.{qty_of}
use beidar_pos.Cart.Session.{Sound, add_to_cart}
use beidar_pos.Sales.{Page, notify, info}

-- `isWholesale ? (p.wholesalePrice || p.price) : p.price`
abbrev pub price_to_use : Bool → Product → ℤ
price_to_use wholesale p =
    if wholesale
    then (if eqb_ℤ p.wholesale_price (pos 0) then p.price else p.wholesale_price)
    else p.price

-- The page's own `addToCart`; the sound is silent while the scanner is open.
unfoldable pub add_at_price : Bool → Product → Page → Page × Option Sound
unfolding add_to_cart
add_at_price scanner_open p page =
    let (s, sound) =
      add_to_cart (record p { price = price_to_use page.is_wholesale p }) scanner_open
        page.session in
    (record page { session = s }, sound)

unfoldable pub reprice_item : List Product → Bool → CartItem → CartItem
reprice_item products wholesale item = elim (find (λ p. p.id === item.id) products) [
  | none ↦ item
  | some original ↦ record item {
    product = record (item.product) { price = price_to_use wholesale original };
  }
]

-- `updatedCart`: writing an equal price is the same as keeping the item.
unfoldable pub reprice : List Product → Bool → List CartItem → List CartItem
reprice products wholesale = map (reprice_item products wholesale)

-- `updatedCart.some((item, i) => item.price !== cart[i].price)`
unfoldable pub has_changes : List CartItem → List CartItem → Bool
has_changes [] old = false
has_changes (x ∷ xs) [] = false
has_changes (x ∷ xs) (y ∷ ys) = not (eqb_ℤ x.price y.price) || has_changes xs ys

-- `setCart(updatedCart)` and its notice.
repriced : List Product → Page → Page
unfolding reprice
repriced products p =
    notify
      (if p.is_wholesale
        then "\u{62a}\u{645} \u{62a}\u{641}\u{639}\u{64a}\u{644} \u{623}\u{633}\u{639}\u{627}\u{631} \u{627}\u{644}\u{62c}\u{645}\u{644}\u{629}"
        else "\u{62a}\u{645} \u{62a}\u{641}\u{639}\u{64a}\u{644} \u{623}\u{633}\u{639}\u{627}\u{631} \u{627}\u{644}\u{645}\u{641}\u{631}\u{62f}")
      info
      (record p {
        session = record (p.session) { cart = reprice products p.is_wholesale p.session.cart };
      })

unfoldable pub reprice_effect : List Product → Page → Page
unfolding reprice has_changes repriced
reprice_effect products p =
    if has_changes (reprice products p.is_wholesale p.session.cart) p.session.cart
    then repriced products p
    else p

reprice_item_twice :
    (products : List Product) (w w' : Bool) (i : CartItem)
    → reprice_item products w (reprice_item products w' i) ≡ reprice_item products w i
unfolding reprice_item
reprice_item_twice products w w' i = elim (Option-cases (find (λ p. p.id === i.id) products)) [
  | inl missing ↦ ground arith
  | inr (original, e) ↦ ground arith
]

-- The last mode alone decides the prices: switching to wholesale and back gives the retail cart again.
pub reprice_last_mode :
    (products : List Product) (w w' : Bool) (cart : List CartItem)
    → reprice products w (reprice products w' cart) ≡ reprice products w cart
unfolding reprice
reprice_last_mode products w w' [] = refl
reprice_last_mode products w w' (i ∷ cart) =
    ap₂ ◌∷◌ (reprice_item_twice products w w' i) (reprice_last_mode products w w' cart)

has_changes_self : (cart : List CartItem) → has_changes cart cart ≡ false
unfolding has_changes
has_changes_self [] = refl
has_changes_self (x ∷ xs) = ground (arith, has_changes_self xs)

reprice_effect_changed :
    (products : List Product) (p : Page)
    → has_changes (reprice products p.is_wholesale p.session.cart) p.session.cart ≡ true
    → reprice_effect products p ≡ repriced products p
unfolding reprice_effect
reprice_effect_changed products p h = rw h

reprice_effect_same :
    (products : List Product) (p : Page)
    → has_changes (reprice products p.is_wholesale p.session.cart) p.session.cart ≡ false
    → reprice_effect products p ≡ p
unfolding reprice_effect
reprice_effect_same products p h = rw h

repriced_settled :
    (products : List Product) (p : Page)
    → reprice_effect products (repriced products p) ≡ repriced products p
unfolding reprice_effect
repriced_settled products p =
    rw (reprice_last_mode products p.is_wholesale p.is_wholesale p.session.cart)
      (rw (has_changes_self (reprice products p.is_wholesale p.session.cart)))

-- The effect that reprices the cart, which runs again after each change of the cart that it makes, stops
-- after one: run on its own result it changes nothing and notifies nobody.
pub reprice_effect_settles :
    (products : List Product) (p : Page)
    → reprice_effect products (reprice_effect products p) ≡ reprice_effect products p
reprice_effect_settles products p =
    elim (Bool-cases
      (has_changes (reprice products p.is_wholesale p.session.cart) p.session.cart)) [
        | inl changed ↦ rw (reprice_effect_changed products p changed) (repriced_settled products p)
        | inr same ↦ rw (reprice_effect_same products p same) (reprice_effect_same products p same)
      ]

reprice_item_kept :
    (products : List Product) (w : Bool) (i : CartItem)
    → ((reprice_item products w i).id ≡ i.id) × ((reprice_item products w i).qty ≡ i.qty)
unfolding reprice_item
reprice_item_kept products w i = ground arith

has_id-reprice :
    (products : List Product) (w : Bool) (j : String) (cart : List CartItem)
    → has_id j (map (reprice_item products w) cart) ≡ has_id j cart
unfolding has_id
has_id-reprice products w j [] = refl
has_id-reprice products w j (i ∷ cart) =
    ground (arith, has_id-reprice products w j cart, reprice_item_kept products w i)

qty_of-reprice :
    (products : List Product) (w : Bool) (j : String) (cart : List CartItem)
    → qty_of j (map (reprice_item products w) cart) ≡ qty_of j cart
unfolding qty_of
qty_of-reprice products w j [] = refl
qty_of-reprice products w j (i ∷ cart) =
    ground (arith, qty_of-reprice products w j cart, reprice_item_kept products w i)

reprice-IsValid :
    (products : List Product) (w : Bool) (cart : List CartItem)
    → IsValid cart
    → IsValid (map (reprice_item products w) cart)
reprice-IsValid products w [] v = tt
reprice-IsValid products w (i ∷ cart) v = ground (
  arith,
  reprice-IsValid products w cart v.2,
  has_id-reprice products w i.id cart,
  reprice_item_kept products w i,
)

-- Repricing a valid cart touches no quantity, and keeps the cart valid.
pub reprice_keeps_quantities :
    (products : List Product) (w : Bool) (j : String) (cart : List CartItem)
    → IsValid cart
    → (qty_of j (reprice products w cart) ≡ qty_of j cart) × IsValid (reprice products w cart)
unfolding reprice
reprice_keeps_quantities products w j cart v =
    (qty_of-reprice products w j cart, reprice-IsValid products w cart v)
