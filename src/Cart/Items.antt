-- ===== src/Cart/Items.antt =====
-- The invariant of the cart's items, kept by every action of useCart.ts.
use beidar_pos.Prelude.{
  String, ◌≡◌, refl, inl, inr, Bool, true, false, List, [], ◌∷◌, ◌++◌, map, arith, eq_iff, ◌===◌,
  if◌then◌else◌, find, keep_if, is_some, Bool-cases,
}
use beidar_pos.Prelude.Int.{ℤ, pos, ◌<ℤ◌, ◌+ℤ◌, leb_ℤ}
use beidar_pos.Cart.{
  CartItem, new_item, bump_qty, with_qty, one_piece, is_kept, Action, add, update, set_quantity,
  remove, clear, step, run,
}

-- Some line of the cart is for the product.
unfoldable pub has_id : String → List CartItem → Bool
has_id id [] = false
has_id id (x ∷ xs) = if x.id === id then true else has_id id xs

-- Every line has a positive quantity, and no product has two lines.
abbrev pub IsValid : List CartItem → Type 0
IsValid [] = Unit
IsValid (x ∷ xs) = (pos 0 <ℤ x.qty) × (has_id x.id xs ≡ false) × IsValid xs

pub find-has_id :
    (id : String) (xs : List CartItem) → is_some (find (λ item. item.id === id) xs) ≡ has_id id xs
unfolding has_id
find-has_id id [] = refl
find-has_id id (x ∷ xs) = ground (arith, find-has_id id xs)

has_id-bump :
    (j id : String) (d : ℤ) (xs : List CartItem) → has_id j (map (bump_qty id d) xs) ≡ has_id j xs
unfolding has_id
has_id-bump j id d [] = refl
has_id-bump j id d (x ∷ xs) = ground (arith, has_id-bump j id d xs)

has_id-with_qty :
    (j id : String) (q : ℤ) (xs : List CartItem) → has_id j (map (with_qty id q) xs) ≡ has_id j xs
unfolding has_id
has_id-with_qty j id q [] = refl
has_id-with_qty j id q (x ∷ xs) = ground (arith, has_id-with_qty j id q xs)

has_id-keep_if :
    (j : String) (p : CartItem → Bool) (xs : List CartItem)
    → has_id j xs ≡ false
    → has_id j (keep_if p xs) ≡ false
unfolding has_id
has_id-keep_if j p [] h = refl
has_id-keep_if j p (x ∷ xs) h = ground (arith, has_id-keep_if j p xs)

has_id-append :
    (j : String) (xs : List CartItem) (y : CartItem)
    → has_id j xs ≡ false
    → (y.id === j) ≡ false
    → has_id j (xs ++ (y ∷ [])) ≡ false
unfolding has_id
has_id-append j [] y h n = ground arith
has_id-append j (x ∷ xs) y h n = ground (arith, has_id-append j xs y)

pub keep_if-IsValid :
    (p : CartItem → Bool) (xs : List CartItem) → IsValid xs → IsValid (keep_if p xs)
keep_if-IsValid p [] v = tt
keep_if-IsValid p (x ∷ xs) v =
    ground (arith, keep_if-IsValid p xs v.2, has_id-keep_if x.id p xs v.1)

pub with_qty-IsValid :
    (id : String) (q : ℤ) (xs : List CartItem)
    → pos 0 <ℤ q
    → IsValid xs
    → IsValid (map (with_qty id q) xs)
with_qty-IsValid id q [] h v = tt
with_qty-IsValid id q (x ∷ xs) h v =
    ground (arith, with_qty-IsValid id q xs h v.2, has_id-with_qty x.id id q xs)

pub append-IsValid :
    (xs : List CartItem) (y : CartItem)
    → IsValid xs
    → pos 0 <ℤ y.qty
    → has_id y.id xs ≡ false
    → IsValid (xs ++ (y ∷ []))
unfolding has_id
append-IsValid [] y v h n = (h, refl, tt)
append-IsValid (x ∷ xs) y v h n = ground (
  arith,
  append-IsValid xs y v.2 h,
  has_id-append x.id xs y v.1,
  eq_iff x.id y.id,
  eq_iff y.id x.id,
)

pub bump_up-IsValid :
    (id : String) (xs : List CartItem) → IsValid xs → IsValid (map (bump_qty id one_piece) xs)
unfolding ◌+ℤ◌
bump_up-IsValid id [] v = tt
bump_up-IsValid id (x ∷ xs) v =
    ground (arith, bump_up-IsValid id xs v.2, has_id-bump x.id id one_piece xs)

-- `updateQty` filters after it has changed the quantities, so only the identifiers matter before.
pub update-IsValid :
    (id : String) (d : ℤ) (xs : List CartItem)
    → IsValid xs
    → IsValid (keep_if is_kept (map (bump_qty id d) xs))
update-IsValid id d [] v = tt
update-IsValid id d (x ∷ xs) v = ground (
  arith,
  update-IsValid id d xs v.2,
  has_id-keep_if x.id is_kept (map (bump_qty id d) xs),
  has_id-bump x.id id d xs,
)

-- Every action keeps the invariant: quantities stay positive, and no product gets a second line.
pub step-IsValid : (a : Action) (xs : List CartItem) → IsValid xs → IsValid (step a xs)
unfolding step
step-IsValid (add p) xs v = elim (Bool-cases (has_id p.id xs)) [
  | inl old ↦ rw (find-has_id p.id xs, old) (bump_up-IsValid p.id xs v)
  | inr new ↦ rw (find-has_id p.id xs, new) (append-IsValid xs (new_item p) v (omega arith) new)
]
step-IsValid (update id d) xs v = update-IsValid id d xs v
step-IsValid (set_quantity id q) xs v = elim (Bool-cases (leb_ℤ q (pos 0))) [
  | inl low ↦ rw low (keep_if-IsValid _ xs v)
  | inr high ↦ rw high (with_qty-IsValid id q xs (ground arith) v)
]
step-IsValid (remove id) xs v = keep_if-IsValid _ xs v
step-IsValid clear xs v = tt

-- Every cart that the actions build from a valid one is valid: each quantity is positive, and no product has
-- two lines.
pub run-IsValid :
    (actions : List Action) (xs : List CartItem) → IsValid xs → IsValid (run actions xs)
unfolding run
run-IsValid [] xs v = v
run-IsValid (a ∷ actions) xs v = run-IsValid actions (step a xs) (step-IsValid a xs v)
