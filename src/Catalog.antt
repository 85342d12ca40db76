-- ===== src/Catalog.antt =====
-- The products page: frontend/src/features/products/products.tsx, with the checks of
-- frontend/src/core/schemas/product.schema.ts and common.schema.ts. `t` is the translation of a key. Prices and stocks
-- count thousandths, the values of a stock millionths.
mod Tests
pub mod Pages
pub mod Form
pub mod Saving
pub mod Handlers
pub mod Assist
pub mod Categories
pub mod Scanning
pub mod Stock
pub mod Labels
use mathlib.Core.List.{foldl}
use text.Mathlib.Text.{find?}
use beidar_pos.Prelude.{
  ℕ, ◌*◌, String, Bool, true, false, ◌&&◌, ◌||◌, not, Option, none, some, List, [], ◌∷◌, ◌===◌,
  if◌then◌else◌, is_some, or_default, keep_if, length, take, drop,
}
use beidar_pos.Prelude.Int.{ℤ, pos, ◌+ℤ◌, ◌-ℤ◌, ◌*ℤ◌, ltb_ℤ, leb_ℤ}
use beidar_pos.Store.{truthy}
use beidar_pos.Cart.{Product}

pub data StatusFilter : Type 0 where
  every low out : StatusFilter

-- The filters and the page that the user has chosen.
pub record Filters : Type 0 where
  pub search : String
  pub selected_category : String
  pub selected_supplier : String
  pub status_filter : StatusFilter
  pub page : ℕ

abbrev pub page_size : ℕ
page_size = 50

abbrev pub includes : String → String → Bool
includes whole part = is_some (find? whole part)

abbrev pub is_low : Product → Bool
is_low p = leb_ℤ p.stock p.min_stock && ltb_ℤ (pos 0) p.stock

abbrev pub is_out : Product → Bool
is_out p = leb_ℤ p.stock (pos 0)

abbrev pub has_status : StatusFilter → Product → Bool
has_status every p = true
has_status low p = is_low p
has_status out p = is_out p

-- `p.supplier === supplier`
abbrev pub is_supplier : String → Product → Bool
is_supplier supplier p = elim p.supplier [ none ↦ false | some s ↦ s === supplier ]

-- What `to_lower_case` makes of a text is an argument.
abbrev pub is_found : (String → String) → String → Product → Bool
is_found to_lower_case search p =
    includes (to_lower_case p.name) (to_lower_case search)
    || includes p.barcode (to_lower_case search)

abbrev pub keep_unless : Bool → (Product → Bool) → List Product → List Product
keep_unless true p products = products
keep_unless false p products = keep_if p products

unfoldable pub filtered :
    (String → String) → (String → String) → Filters → List Product → List Product
filtered t to_lower_case f products = keep_if (has_status f.status_filter) (
    keep_unless (f.selected_supplier === t "common.all") (is_supplier f.selected_supplier) (
      keep_unless (f.selected_category === t "common.all") (λ p. p.category === f.selected_category)
        (keep_unless (f.search === "") (is_found to_lower_case f.search) products)))

-- `slice(start, start + pageSize)` of the filtered products.
unfoldable pub paginated : ℕ → List Product → List Product
paginated page products = take page_size (drop (page * page_size) products)

pub record Stats : Type 0 where
  pub total_stock : ℤ
  pub total_value : ℤ
  pub total_cost : ℤ
  pub profit : ℤ

abbrev pub sum_of : (Product → ℤ) → List Product → ℤ
sum_of f products = foldl (λ sum p. sum +ℤ f p) (pos 0) products

unfoldable pub stats : List Product → Stats
stats products =
    let value : ℤ = sum_of (λ p. p.price *ℤ p.stock) products in
    let cost : ℤ = sum_of (λ p. p.cost *ℤ p.stock) products in
    record {
      total_stock = sum_of (λ p. p.stock) products;
      total_value = value;
      total_cost = cost;
      profit = value -ℤ cost;
    }

-- `Partial<Product>`, without the custom details.
pub record ProductForm : Type 0 where
  pub id : Option String
  pub name : Option String
  pub price : Option ℤ
  pub cost : Option ℤ
  pub stock : Option ℤ
  pub min_stock : Option ℤ
  pub wholesale_price : Option ℤ
  pub category : Option String
  pub image : Option String
  pub barcode : Option String
  pub supplier : Option String
  pub description : Option String
