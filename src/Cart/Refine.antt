-- ===== src/Cart/Refine.antt =====
-- The cart as a map from products to quantities: what each action of useCart.ts does to it.
use beidar_pos.Prelude.{
  String, ◌≡◌, refl, ◌&&◌, false, List, [], ◌∷◌, ◌++◌, map, arith, eq_iff, ◌===◌, not,
  if◌then◌else◌, keep_if, Bool-cases, inl, inr,
}
use beidar_pos.Prelude.Int.{ℤ, pos, ◌<ℤ◌, ◌+ℤ◌, ltb_ℤ, leb_ℤ}
use beidar_pos.Cart.{
  CartItem, new_item, bump_qty, with_qty, one_piece, is_kept, Action, add, update, set_quantity,
  remove, clear, step,
}
use beidar_pos.Cart.Items.{IsValid, has_id, find-has_id}

-- The quantity of a product in the cart, 0 where it has no line.
unfoldable pub qty_of : String → List CartItem → ℤ
qty_of j [] = pos 0
qty_of j (x ∷ xs) = if x.id === j then x.qty else qty_of j xs

abbrev pub Quantities : Type 0
Quantities = String → ℤ

-- The filter of `updateQty`, at one quantity: what is 0.001 or less goes.
abbrev pub cleared : ℤ → ℤ
cleared q = if ltb_ℤ (pos 1) q then q else pos 0

-- `updateQty` changes only what is in the cart.
abbrev pub adjusted : ℤ → ℤ → ℤ
adjusted d q = if ltb_ℤ (pos 0) q then q +ℤ d else pos 0

abbrev pub replaced : ℤ → ℤ → ℤ
replaced new q = if leb_ℤ new (pos 0) then pos 0 else (if ltb_ℤ (pos 0) q then new else pos 0)

-- The actions on the map, as the sales page means them.
unfoldable pub intended : Action → Quantities → Quantities
intended (add p) m j = if p.id === j then m j +ℤ one_piece else m j
intended (update id d) m j = cleared (if id === j then adjusted d (m j) else m j)
intended (set_quantity id q) m j = if id === j then replaced q (m j) else m j
intended (remove id) m j = if id === j then pos 0 else m j
intended clear m j = pos 0

qty_of-absent : (j : String) (xs : List CartItem) → has_id j xs ≡ false → qty_of j xs ≡ pos 0
unfolding qty_of has_id
qty_of-absent j [] h = refl
qty_of-absent j (x ∷ xs) h = ground (arith, qty_of-absent j xs)

qty_of-bump_up :
    (j id : String) (xs : List CartItem)
    → qty_of j (map (bump_qty id one_piece) xs)
      ≡ (if id === j && has_id id xs then qty_of j xs +ℤ one_piece else qty_of j xs)
unfolding qty_of has_id
qty_of-bump_up j id [] = ground arith
qty_of-bump_up j id (x ∷ xs) =
    ground (arith, qty_of-bump_up j id xs, eq_iff x.id id, eq_iff x.id j, eq_iff id j)

qty_of-append :
    (j : String) (xs : List CartItem) (y : CartItem)
    → has_id y.id xs ≡ false
    → qty_of j (xs ++ (y ∷ [])) ≡ (if y.id === j then y.qty else qty_of j xs)
unfolding qty_of has_id
qty_of-append j [] y h = refl
qty_of-append j (x ∷ xs) y h =
    ground (arith, qty_of-append j xs y, eq_iff x.id y.id, eq_iff x.id j, eq_iff y.id j)

qty_of-absent-update :
    (j id : String) (d : ℤ) (xs : List CartItem)
    → has_id j xs ≡ false
    → qty_of j (keep_if is_kept (map (bump_qty id d) xs)) ≡ pos 0
unfolding qty_of has_id
qty_of-absent-update j id d [] h = refl
qty_of-absent-update j id d (x ∷ xs) h = ground (arith, qty_of-absent-update j id d xs)

qty_of-update :
    (j id : String) (d : ℤ) (xs : List CartItem)
    → IsValid xs
    → qty_of j (keep_if is_kept (map (bump_qty id d) xs))
      ≡ cleared (if id === j then adjusted d (qty_of j xs) else qty_of j xs)
unfolding qty_of
qty_of-update j id d [] v = ground arith
qty_of-update j id d (x ∷ xs) v = ground (
  arith,
  qty_of-update j id d xs v.2,
  qty_of-absent-update x.id id d xs v.1,
  eq_iff x.id id,
  eq_iff x.id j,
  eq_iff id j,
)

qty_of-with_qty :
    (j id : String) (q : ℤ) (xs : List CartItem)
    → IsValid xs
    → pos 0 <ℤ q
    → qty_of j (map (with_qty id q) xs)
      ≡ (if id === j then replaced q (qty_of j xs) else qty_of j xs)
unfolding qty_of
qty_of-with_qty j id q [] v h = ground arith
qty_of-with_qty j id q (x ∷ xs) v h =
    ground (arith, qty_of-with_qty j id q xs v.2, eq_iff x.id id, eq_iff x.id j, eq_iff id j)

qty_of-remove :
    (j id : String) (xs : List CartItem)
    → qty_of j (keep_if (λ item. not (item.id === id)) xs)
      ≡ (if id === j then pos 0 else qty_of j xs)
unfolding qty_of
qty_of-remove j id [] = ground arith
qty_of-remove j id (x ∷ xs) =
    ground (arith, qty_of-remove j id xs, eq_iff x.id id, eq_iff x.id j, eq_iff id j)

-- At a valid cart every action changes the quantities as `intended` says: `addToCart` adds one piece
-- of its product, `updateQty` adds its delta to a product in the cart and drops every line at 0.001 or
-- less, `setItemQuantity` replaces the quantity of a product in the cart, `removeFromCart` takes the
-- product out, `clearCart` takes out all, and no other product is touched.
pub qty_of-step :
    (a : Action) (xs : List CartItem) (j : String)
    → IsValid xs
    → qty_of j (step a xs) ≡ intended a (λ k. qty_of k xs) j
unfolding step intended ◌+ℤ◌ qty_of
qty_of-step (add p) xs j v = elim (Bool-cases (has_id p.id xs)) [
  | inl old ↦ rw (find-has_id p.id xs, old) (ground (arith, qty_of-bump_up j p.id xs))
  | inr new ↦
      rw (find-has_id p.id xs, new)
        (ground (arith, qty_of-append j xs (new_item p) new, qty_of-absent j xs, eq_iff p.id j))
]
qty_of-step (update id d) xs j v = qty_of-update j id d xs v
qty_of-step (set_quantity id q) xs j v = elim (Bool-cases (leb_ℤ q (pos 0))) [
  | inl low ↦ rw (low, qty_of-remove j id xs)
  | inr high ↦ ground (arith, qty_of-with_qty j id q xs v)
]
qty_of-step (remove id) xs j v = qty_of-remove j id xs
qty_of-step clear xs j v = refl
