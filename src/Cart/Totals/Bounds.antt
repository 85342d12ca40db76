-- ===== src/Cart/Totals/Bounds.antt =====
-- What the amounts of useCart.ts guarantee: rounding, the clamped discount, the total and the change.
use beidar_pos.Prelude.{◌+◌, ◌*◌, ◌^◌, ◌≡◌, Option, List, arith, or_default}
use beidar_pos.Prelude.Int.{
  ℤ, pos, pos_part, neg_part, ◌+ℤ◌, ◌-ℤ◌, ◌*ℤ◌, ◌≤ℤ◌, ◌<ℤ◌, min_ℤ, max_ℤ, round_div, int_laws,
  +ℤ_parts, -ℤ_parts, *ℤ_parts, floor_div_bounds, round_div_mono, *ℤ_nonneg, *ℤ_mono, *ℤ_mono_right,
}
use beidar_pos.Cart.{CartItem}
use beidar_pos.Cart.Totals.{
  thousandths, exact_subtotal, subtotal, effective_discount, taxable_total, vat, total, change,
}

pub thousandths_parts :
    (a : ℤ)
    → pos_part (thousandths a) + 1000 * neg_part a ≡ neg_part (thousandths a) + 1000 * pos_part a
thousandths_parts a = omega (arith, *ℤ_parts a (pos 1000))

thousandths-add : (a b : ℤ) → thousandths a +ℤ thousandths b ≡ thousandths (a +ℤ b)
thousandths-add a b =
    omega (int_laws, thousandths_parts a, thousandths_parts b, thousandths_parts (a +ℤ b))

thousandths-max-sub :
    (a b : ℤ)
    → max_ℤ (pos 0) (thousandths a -ℤ thousandths b) ≡ thousandths (max_ℤ (pos 0) (a -ℤ b))
thousandths-max-sub a b = grind (int_laws, thousandths_parts)

-- Rounding to a whole number: the result is nearest, and a half goes up.
round_1000_bounds :
    (a : ℤ)
    → (thousandths (round_div a 1000) ≤ℤ a +ℤ pos 500)
      × (a +ℤ pos 500 <ℤ thousandths (round_div a 1000) +ℤ pos 1000)
unfolding round_div
round_1000_bounds a = omega (
  arith,
  floor_div_bounds (a +ℤ pos 500) 1000 (omega arith),
  thousandths_parts (round_div a 1000),
  +ℤ_parts a (pos 500),
  +ℤ_parts (thousandths (round_div a 1000)) (pos 1000),
)

round_thousandths : (a : ℤ) → round_div (thousandths a) 1000 ≡ a
round_thousandths a = omega (
  int_laws,
  round_1000_bounds (thousandths a),
  thousandths_parts a,
  thousandths_parts (round_div (thousandths a) 1000),
)

-- The subtotal is the whole number nearest to the exact sum of the lines, a half going up.
pub subtotal_nearest :
    (cart : List CartItem)
    → (subtotal cart *ℤ pos (10 ^ 6) ≤ℤ exact_subtotal cart +ℤ pos 500_000)
      × (exact_subtotal cart +ℤ pos 500_000 <ℤ subtotal cart *ℤ pos (10 ^ 6) +ℤ pos (10 ^ 6))
unfolding subtotal round_div
subtotal_nearest cart = omega (
  int_laws,
  floor_div_bounds (exact_subtotal cart +ℤ pos 500_000) (10 ^ 6) (omega arith),
  *ℤ_parts (subtotal cart) (pos (10 ^ 6)),
)

taxable_nonneg : (cart : List CartItem) (d : ℤ) → pos 0 ≤ℤ taxable_total cart d
unfolding taxable_total
taxable_nonneg cart d = ground arith

-- A discount that is not negative takes at most the subtotal off, and adds nothing to it.
taxable_le :
    (cart : List CartItem) (d : ℤ)
    → pos 0 ≤ℤ d
    → taxable_total cart d ≤ℤ max_ℤ (pos 0) (thousandths (subtotal cart))
unfolding taxable_total effective_discount
taxable_le cart d h = ground (
  arith,
  -ℤ_parts (thousandths (subtotal cart)) d,
  -ℤ_parts (thousandths (subtotal cart)) (thousandths (subtotal cart)),
)

-- A larger discount never leaves a larger amount to tax.
taxable_antitone :
    (cart : List CartItem) (c d : ℤ) → c ≤ℤ d → taxable_total cart d ≤ℤ taxable_total cart c
unfolding taxable_total effective_discount
taxable_antitone cart c d h = ground (
  arith,
  -ℤ_parts (thousandths (subtotal cart)) d,
  -ℤ_parts (thousandths (subtotal cart)) c,
  -ℤ_parts (thousandths (subtotal cart)) (thousandths (subtotal cart)),
)

vat_nonneg :
    (cart : List CartItem) (d : ℤ) (rate : Option ℤ)
    → pos 0 ≤ℤ or_default rate (pos 0)
    → pos 0 ≤ℤ vat cart d rate
unfolding vat round_div
vat_nonneg cart d rate h =
    let product = taxable_total cart d *ℤ or_default rate (pos 0) in
    omega (
      arith,
      floor_div_bounds (product +ℤ pos 50_000_000) (10 ^ 8) (omega arith),
      +ℤ_parts product (pos 50_000_000),
      *ℤ_nonneg _ _ (taxable_nonneg cart d) h,
    )

-- The sum that `total` rounds, rounded.
abbrev total_before : List CartItem → ℤ → Option ℤ → ℤ
total_before cart d rate = round_div (taxable_total cart d +ℤ thousandths (vat cart d rate)) 1000

vat_antitone :
    (cart : List CartItem) (c d : ℤ) (rate : Option ℤ)
    → pos 0 ≤ℤ or_default rate (pos 0)
    → c ≤ℤ d
    → vat cart d rate ≤ℤ vat cart c rate
unfolding vat
vat_antitone cart c d rate h le =
    round_div_mono _ _ (10 ^ 8) (omega arith) (*ℤ_mono _ _ _ (taxable_antitone cart c d le) h)

vat_le :
    (cart : List CartItem) (d : ℤ) (rate : Option ℤ)
    → pos 0 ≤ℤ d
    → or_default rate (pos 0) ≤ℤ pos 100_000
    → vat cart d rate ≤ℤ max_ℤ (pos 0) (subtotal cart)
unfolding vat round_div
vat_le cart d rate hd le =
    let product = taxable_total cart d *ℤ or_default rate (pos 0) in
    ground (
      arith,
      *ℤ_mono_right (taxable_total cart d) (or_default rate (pos 0)) (pos 100_000)
          (taxable_nonneg cart d) le,
      *ℤ_parts (taxable_total cart d) (pos 100_000),
      taxable_le cart d hd,
      thousandths_parts (subtotal cart),
      +ℤ_parts product (pos 50_000_000),
      floor_div_bounds (product +ℤ pos 50_000_000) (10 ^ 8) (omega arith),
    )

taxable_whole :
    (cart : List CartItem) (w : ℤ)
    → taxable_total cart (thousandths w) ≡ thousandths (subtotal cart -ℤ min_ℤ w (subtotal cart))
unfolding taxable_total effective_discount
taxable_whole cart w = grind (int_laws, thousandths_parts)

-- The total is never negative, for any cart and any discount, if the tax rate is not.
pub total_nonneg :
    (cart : List CartItem) (d : ℤ) (rate : Option ℤ)
    → pos 0 ≤ℤ or_default rate (pos 0)
    → pos 0 ≤ℤ total cart d rate
unfolding total
total_nonneg cart d rate h = omega (
  int_laws,
  round_1000_bounds (taxable_total cart d +ℤ thousandths (vat cart d rate)),
  thousandths_parts (total_before cart d rate),
  taxable_nonneg cart d,
  vat_nonneg cart d rate h,
  thousandths_parts (vat cart d rate),
  +ℤ_parts (taxable_total cart d) (thousandths (vat cart d rate)),
)

-- A larger discount never makes the total larger.
pub total_antitone :
    (cart : List CartItem) (c d : ℤ) (rate : Option ℤ)
    → pos 0 ≤ℤ or_default rate (pos 0)
    → c ≤ℤ d
    → total cart d rate ≤ℤ total cart c rate
unfolding total
total_antitone cart c d rate h le = round_div_mono _ _ 1000 (omega arith) (
    omega (
      int_laws,
      taxable_antitone cart c d le,
      vat_antitone cart c d rate h le,
      thousandths_parts (vat cart c rate),
      thousandths_parts (vat cart d rate),
    ))

-- At a discount of w whole units the total is exactly the subtotal, less the smaller of the discount and
-- the subtotal, plus the tax: the last rounding changes nothing.
pub total_exact :
    (cart : List CartItem) (w : ℤ) (rate : Option ℤ)
    → total cart (thousandths w) rate
      ≡ subtotal cart -ℤ min_ℤ w (subtotal cart) +ℤ vat cart (thousandths w) rate
unfolding total
total_exact cart w rate = rw (taxable_whole cart w, thousandths-add, round_thousandths)

-- A tax rate of at most 100 % takes at most the taxed amount, rounded: the total stays within twice the subtotal.
pub total_le :
    (cart : List CartItem) (d : ℤ) (rate : Option ℤ)
    → pos 0 ≤ℤ d
    → or_default rate (pos 0) ≤ℤ pos 100_000
    → total cart d rate ≤ℤ max_ℤ (pos 0) (subtotal cart +ℤ subtotal cart)
unfolding total
total_le cart d rate hd le =
    let before = taxable_total cart d +ℤ thousandths (vat cart d rate) in
    ground (
      arith,
      vat_le cart d rate hd le,
      taxable_le cart d hd,
      thousandths_parts (subtotal cart),
      thousandths_parts (vat cart d rate),
      thousandths_parts (total_before cart d rate),
      +ℤ_parts (subtotal cart) (subtotal cart),
      +ℤ_parts (taxable_total cart d) (thousandths (vat cart d rate)),
      +ℤ_parts before (pos 500),
      +ℤ_parts (thousandths (total_before cart d rate)) (pos 1000),
      round_1000_bounds before,
    )

-- When a whole amount is received, the change is exactly what it exceeds the total by, and 0 below it.
pub change_exact :
    (cart : List CartItem) (d : ℤ) (rate : Option ℤ) (w : ℤ)
    → change cart d rate (thousandths w) ≡ max_ℤ (pos 0) (w -ℤ total cart d rate)
unfolding change
change_exact cart d rate w = rw (thousandths-max-sub w, round_thousandths)
