-- ===== src/Products.antt =====
-- The products that the sales page shows: frontend/src/hooks/useProducts.ts, from the answer of its query on.
mod Tests
use text.Mathlib.Text.{find?}
use beidar_pos.Prelude.{
  ℕ, ◌<◌, String, ◌≡◌, refl, ◌∙◌, Bool, true, false, not, ◌&&◌, ◌||◌, List, [], ◌∷◌, ◌++◌, map,
  arith, eq_iff, ◌===◌, if◌then◌else◌, any, keep_if, is_some, length, ltb,
}
use beidar_pos.Cart.{Product}

-- The category that stands for all.
abbrev pub every : String
every = "\u{627}\u{644}\u{643}\u{644}"

abbrev includes : String → String → Bool
includes whole part = is_some (find? whole part)

abbrev in_category : String → List Product → List Product
in_category category products =
    if not (category === every) then keep_if (λ p. p.category === category) products else products

-- `filteredProducts`; `lower` is `toLowerCase`.
unfoldable pub filtered_products : (String → String) → String → String → List Product → List Product
filtered_products lower category search products =
    let result = in_category category products in
    if search === ""
    then result
    else keep_if (λ p. includes (lower p.name) (lower search) || includes p.barcode (lower search))
        result

-- `new Set(…)`: the first occurrence of each, in order, after those that are there.
abbrev pub distinct : List String → List String → List String
distinct seen [] = seen
distinct seen (c ∷ cs) =
    if any (λ s. s === c) seen then distinct seen cs else distinct (seen ++ (c ∷ [])) cs

-- `uniqueCategories`
unfoldable pub categories : List Product → List String
categories products = keep_if (λ c. not (c === "")) (distinct [] (map (λ p. p.category) products))

any-append :
    (c : String) (xs ys : List String)
    → any (λ s. s === c) (xs ++ ys) ≡ (any (λ s. s === c) xs || any (λ s. s === c) ys)
any-append c [] ys = refl
any-append c (x ∷ xs) ys = ground (arith, any-append c xs ys)

any-keep_if :
    (c : String) (xs : List String)
    → any (λ s. s === c) (keep_if (λ s. not (s === "")) xs)
      ≡ (not (c === "") && any (λ s. s === c) xs)
any-keep_if c [] = ground arith
any-keep_if c (x ∷ xs) = ground (arith, any-keep_if c xs, eq_iff x c, eq_iff x "", eq_iff c "")

any-distinct :
    (c : String) (seen cs : List String)
    → any (λ s. s === c) (distinct seen cs) ≡ (any (λ s. s === c) seen || any (λ s. s === c) cs)
any-distinct c seen [] = ground arith
any-distinct c seen (d ∷ cs) = ground (
  arith,
  any-distinct c seen cs,
  any-distinct c (seen ++ (d ∷ [])) cs,
  any-append c seen (d ∷ []),
  eq_iff d c,
)

any-category :
    (c : String) (products : List Product)
    → any (λ s. s === c) (map (λ p. p.category) products) ≡ any (λ p. p.category === c) products
any-category c [] = refl
any-category c (p ∷ products) = ground (arith, any-category c products)

shown :
    (c : String) (products : List Product)
    → ltb 0 (length (keep_if (λ p. p.category === c) products))
      ≡ any (λ p. p.category === c) products
shown c [] = refl
shown c (p ∷ products) = ground (arith, shown c products)

-- The categories that are offered are those of the products, but the empty one; and choosing any, with no
-- search, shows a product, if it is not the name that stands for all.
pub categories_are_used :
    (lower : String → String) (products : List Product) (c : String)
    → (c === every) ≡ false
    → (any (λ s. s === c) (categories products)
        ≡ (not (c === "") && any (λ p. p.category === c) products))
      × (any (λ s. s === c) (categories products)
          ≡ (not (c === "") && ltb 0 (length (filtered_products lower c "" products))))
unfolding categories filtered_products
categories_are_used lower products c n =
    let listed = any-keep_if c (distinct [] (map (λ p. p.category) products)) in
    let named = any-distinct c [] (map (λ p. p.category) products) in
    ground (arith, listed, named, any-category c products, shown c products)
