-- ===== src/Catalog/Stock.antt =====
-- The quick change of a product's stock, which products.tsx and the inventory page make alike.
use beidar_pos.Prelude.{
  ℕ, ◌≡◌, refl, ap, inl, inr, ◌⊎◌, ◌≢◌, ◌+◌, String, Bool, false, List, [], ◌∷◌, arith, ◌===◌,
  if◌then◌else◌, Bool-cases,
}
use beidar_pos.Prelude.Int.{
  ℤ, pos, negsuc, ◌+ℤ◌, ◌-ℤ◌, ◌≤ℤ◌, ◌<ℤ◌, pos_part, neg_part, max_ℤ, ltb_ℤ, +ℤ_parts, -ℤ_parts,
  eq_of_parts,
}
use beidar_pos.Cart.{Product}

-- What `api.stock.log` is told of a movement.
pub record StockLog : Type 0 where
  pub product_id : String
  pub product_name : String
  pub is_in : Bool
  pub qty : ℤ
  pub reason : String

-- `Math.abs`
abbrev pub abs : ℤ → ℤ
abs (pos n) = pos n
abs (negsuc n) = pos 0 -ℤ negsuc n

unfoldable pub log_of : Product → ℤ → StockLog
log_of p change = record {
  product_id = p.id;
  product_name = p.name;
  is_in = ltb_ℤ (pos 0) change;
  qty = abs change;
  reason =
      "\u{62a}\u{639}\u{62f}\u{64a}\u{644} \u{633}\u{631}\u{64a}\u{639} \u{644}\u{644}\u{645}\u{62e}\u{632}\u{648}\u{646}";
}

unfoldable pub with_change : Product → ℤ → Product
with_change p change = record p { stock = max_ℤ (pos 0) (p.stock +ℤ change) }

-- The calls of the backend, in their order: the product is saved, and the movement is logged where that succeeded.
pub data Call : Type 0 where
  save : Product → Call
  log : StockLog → Call

unfoldable pub update_stock : Product → ℤ → Bool → List Call
update_stock p change saved =
    if p.id === ""
    then []
    else if saved
    then save (with_change p change) ∷ log (log_of p change) ∷ []
    else save (with_change p change) ∷ []

-- What a movement does to a stock.
abbrev pub replayed : StockLog → ℤ → ℤ
replayed l stock = if l.is_in then stock +ℤ l.qty else stock -ℤ l.qty

abs-minus : (n : ℕ) (stock : ℤ) → stock -ℤ (pos 0 -ℤ negsuc n) ≡ stock +ℤ negsuc n
abs-minus n stock = eq_of_parts _ _ (
    omega (
      arith,
      -ℤ_parts stock (pos 0 -ℤ negsuc n),
      -ℤ_parts (pos 0) (negsuc n),
      +ℤ_parts stock (negsuc n),
    ))

nothing-moved : (n : ℕ) (stock : ℤ) → n ≡ 0 → stock -ℤ pos n ≡ stock +ℤ pos n
nothing-moved n stock e =
    eq_of_parts _ _ (omega (arith, e, -ℤ_parts stock (pos n), +ℤ_parts stock (pos n)))

no_gain : (n : ℕ) → ltb_ℤ (pos 0) (negsuc n) ≡ false
no_gain n = ground arith

replays-change :
    (p : Product) (change stock : ℤ) → replayed (log_of p change) stock ≡ stock +ℤ change
unfolding log_of
replays-change p (pos n) stock = elim (Bool-cases (ltb_ℤ (pos 0) (pos n))) [
  | inl more ↦ rw more refl
  | inr none_more ↦ rw none_more (nothing-moved n stock (ground (arith, none_more)))
]
replays-change p (negsuc n) stock = rw (no_gain n) (abs-minus n stock)

-- A stock is as it would be, or it would be negative and is 0, which is another one.
abbrev Clamps : ℤ → Type 0
Clamps a =
    ((pos 0 ≤ℤ a) × (max_ℤ (pos 0) a ≡ a))
    ⊎ ((a <ℤ pos 0) × (max_ℤ (pos 0) a ≡ pos 0) × (max_ℤ (pos 0) a ≢ a))

clamped : (a : ℤ) → Clamps a
clamped (pos n) = inl (omega arith, ground arith)
clamped (negsuc n) = inr (omega arith, ground arith, λ e. absurd (ground (arith, ap neg_part e)))

abs_size : (change : ℤ) → abs change ≡ pos (pos_part change + neg_part change)
abs_size (pos n) = ground arith
abs_size (negsuc n) = eq_of_parts _ _ (omega (arith, -ℤ_parts (pos 0) (negsuc n)))

-- The log names the product and has the size of the whole change, and replaying it on the old stock makes the whole
-- change, whatever is saved. If that leaves a stock that is not negative, it is the one that is saved; after a
-- greater withdrawal 0 is saved, which the log does not explain.
pub log_explains_stock :
    (p : Product) (change : ℤ)
    → let l = log_of p change in
      let stock = (with_change p change).stock in
      (l.product_id ≡ p.id)
      × (l.qty ≡ pos (pos_part change + neg_part change))
      × (replayed l p.stock ≡ p.stock +ℤ change)
      × (((pos 0 ≤ℤ p.stock +ℤ change) × (stock ≡ replayed l p.stock))
          ⊎ ((p.stock +ℤ change <ℤ pos 0) × (stock ≡ pos 0) × (stock ≢ replayed l p.stock)))
unfolding with_change log_of
log_explains_stock p change = (
  refl,
  abs_size change,
  replays-change p change p.stock,
  rw (replays-change p change p.stock) (clamped (p.stock +ℤ change)),
)
