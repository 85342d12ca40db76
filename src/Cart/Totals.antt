-- ===== src/Cart/Totals.antt =====
-- The computed values of useCart.ts. Item prices, quantities, discounts and received money count
-- thousandths, the tax rate thousandths of a percent; a price times a quantity counts millionths. What
-- `Math.round` returns is a whole number of currency units.
pub mod Bounds
use mathlib.Core.List.{foldl}
use beidar_pos.Prelude.{◌^◌, Option, List, or_default}
use beidar_pos.Prelude.Int.{ℤ, pos, ◌+ℤ◌, ◌-ℤ◌, ◌*ℤ◌, min_ℤ, max_ℤ, round_div}
use beidar_pos.Cart.{CartItem}

-- A whole number of currency units, in thousandths.
abbrev pub thousandths : ℤ → ℤ
thousandths a = a *ℤ pos 1000

-- `(item.price * item.qty) - (item.itemDiscount || 0)`, in millionths.
unfoldable pub line_total : CartItem → ℤ
line_total item = item.price *ℤ item.qty -ℤ thousandths (or_default item.item_discount (pos 0))

unfoldable pub exact_subtotal : List CartItem → ℤ
exact_subtotal = foldl (λ sum item. sum +ℤ line_total item) (pos 0)

unfoldable pub subtotal : List CartItem → ℤ
subtotal cart = round_div (exact_subtotal cart) (10 ^ 6)

unfoldable pub effective_discount : List CartItem → ℤ → ℤ
effective_discount cart discount = min_ℤ discount (thousandths (subtotal cart))

unfoldable pub taxable_total : List CartItem → ℤ → ℤ
taxable_total cart discount =
    max_ℤ (pos 0) (thousandths (subtotal cart) -ℤ effective_discount cart discount)

-- `Math.round(taxableTotal * (vatRate / 100))`
unfoldable pub vat : List CartItem → ℤ → Option ℤ → ℤ
vat cart discount tax_rate =
    round_div (taxable_total cart discount *ℤ or_default tax_rate (pos 0)) (10 ^ 8)

unfoldable pub total : List CartItem → ℤ → Option ℤ → ℤ
total cart discount tax_rate =
    round_div (taxable_total cart discount +ℤ thousandths (vat cart discount tax_rate)) 1000

unfoldable pub change : List CartItem → ℤ → Option ℤ → ℤ → ℤ
change cart discount tax_rate received =
    round_div (max_ℤ (pos 0) (received -ℤ thousandths (total cart discount tax_rate))) 1000

unfoldable pub items_count : List CartItem → ℤ
items_count = foldl (λ sum item. sum +ℤ item.qty) (pos 0)
