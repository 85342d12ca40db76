-- ===== src/Cash/Tests.antt =====
-- The properties of the proposed amounts at a small cart.
use beidar_pos.Prelude.{suc, ◌≡◌, refl, none, List, [], ◌∷◌, All}
use beidar_pos.Prelude.Int.{pos, ◌+ℤ◌, ◌-ℤ◌, ◌*ℤ◌, round_div, floor_div}
use beidar_pos.Cart.{CartItem}
use beidar_pos.Cart.Totals.{
  total, subtotal, exact_subtotal, line_total, effective_discount, vat, taxable_total,
}
use beidar_pos.Cash.{smart_amounts, round_up, push_amount, push_all}
use beidar_pos.Cash.Amounts.{IsOffer, Pays, offers_pay_cart}

abbrev cart : List CartItem
cart =
    record {
      product = record {
        id = "tea";
        name = "tea";
        price = pos 12_000_000;
        cost = pos 0;
        stock = pos 0;
        min_stock = pos 0;
        wholesale_price = pos 0;
        category = "";
        image = "";
        barcode = "";
        supplier = none;
        description = none;
      };
      qty = pos 1_000;
      item_discount = none;
      sale_id = none;
    }
    ∷ []

offer_of_12_000 : smart_amounts (pos 12_000) ≡ 12_000 ∷ 15_000 ∷ 20_000 ∷ 25_000 ∷ []
unfolding smart_amounts round_up push_amount push_all
offer_of_12_000 = refl

cart_owes : total cart (pos 0) none ≡ pos (suc 11_999)
unfolding total subtotal exact_subtotal line_total effective_discount vat taxable_total ◌+ℤ◌ ◌-ℤ◌
    ◌*ℤ◌ round_div floor_div
cart_owes = refl

offers_pay_cart_example :
    IsOffer 12_000 (smart_amounts (total cart (pos 0) none))
    × All (Pays cart (pos 0) none 11_999) (smart_amounts (total cart (pos 0) none))
offers_pay_cart_example = offers_pay_cart cart (pos 0) none 11_999 cart_owes
