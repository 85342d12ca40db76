-- ===== src/Products/Tests.antt =====
-- The property of useProducts.ts at two products.
use beidar_pos.Prelude.{◌≡◌, refl, none, List, [], ◌∷◌}
use beidar_pos.Prelude.Int.{pos}
use beidar_pos.Cart.{Product}
use beidar_pos.Products.{categories}

abbrev tea : Product
tea = record {
  id = "tea";
  name = "Tea";
  price = pos 1_500_000;
  cost = pos 500_000;
  stock = pos 10_000;
  min_stock = pos 0;
  wholesale_price = pos 0;
  category = "drinks";
  image = "";
  barcode = "622";
  supplier = none;
  description = none;
}

abbrev stock : List Product
stock = tea ∷ record tea { id = "coffee" } ∷ record tea { id = "bag"; category = "" } ∷ []

drinks_once : categories stock ≡ "drinks" ∷ []
unfolding categories
drinks_once = refl
