-- ===== src/Catalog/Pages.antt =====
-- The pages of the products page, and its numbers.
use mathlib.Core.List.{append-nil, append_assoc}
use beidar_pos.Prelude.{
  ℕ, zero, suc, ◌+◌, ◌*◌, ◌≤◌, ◌≡◌, refl, ap, sym, ◌∙◌, List, [], ◌∷◌, ◌++◌, arith, length, take,
  drop,
}
use beidar_pos.Cart.{Product}
use beidar_pos.Catalog.{paginated, page_size}

-- The first pages, one after the other.
unfoldable pub pages : ℕ → ℕ → List Product → List Product
pages from zero products = []
pages from (suc n) products = paginated from products ++ pages (suc from) n products

take-drop : (n : ℕ) (xs : List Product) → take n xs ++ drop n xs ≡ xs
take-drop zero xs = refl
take-drop (suc n) [] = refl
take-drop (suc n) (x ∷ xs) = ap (◌∷◌ x) (take-drop n xs)

drop-nil : (n : ℕ) → drop {A = Product} n [] ≡ []
drop-nil zero = refl
drop-nil (suc n) = refl

suc-plus : (m n : ℕ) → suc (m + n) ≡ suc m + n
suc-plus m n = omega arith

drop-drop : (n m : ℕ) (xs : List Product) → drop n (drop m xs) ≡ drop (m + n) xs
drop-drop n zero xs = ap (λ k. drop k xs) (omega arith)
drop-drop n (suc m) [] = drop-nil n ∙ sym (drop-nil (suc m + n))
drop-drop n (suc m) (x ∷ xs) = drop-drop n m xs ∙ ap (λ k. drop k (x ∷ xs)) (suc-plus m n)

drop-all : (n : ℕ) (xs : List Product) → length xs ≤ n → drop n xs ≡ []
drop-all zero [] h = refl
drop-all (suc n) [] h = refl
drop-all zero (x ∷ xs) h = absurd (omega (arith, h))
drop-all (suc n) (x ∷ xs) h = drop-all n xs (omega (arith, h))

next_page : (from : ℕ) → from * page_size + page_size ≡ suc from * page_size
next_page from = omega arith

shifted : (from n : ℕ) → from + suc n ≡ suc from + n
shifted from n = omega arith

pages-drop :
    (n from : ℕ) (xs : List Product)
    → pages from n xs ++ drop ((from + n) * page_size) xs ≡ drop (from * page_size) xs
unfolding pages paginated
pages-drop zero from xs = ap (λ k. drop (k * page_size) xs) (omega arith)
pages-drop (suc n) from xs =
    append_assoc (paginated from xs) (pages (suc from) n xs) (drop ((from + suc n) * page_size) xs)
    ∙ ap (λ k. paginated from xs ++ (pages (suc from) n xs ++ drop (k * page_size) xs))
        (shifted from n)
    ∙ ap (◌++◌ (paginated from xs)) (
        pages-drop n (suc from) xs
        ∙ sym (drop-drop page_size (from * page_size) xs ∙ ap (λ k. drop k xs) (next_page from)))
    ∙ take-drop page_size (drop (from * page_size) xs)

-- The pages show every product that the filters keep once, in its place: so many pages as there is room for them,
-- one after the other, are the list. The page behind them shows nothing.
pub pages_show_all :
    (n : ℕ) (products : List Product)
    → length products ≤ n * page_size
    → (pages 0 n products ≡ products) × (paginated n products ≡ [])
unfolding paginated
pages_show_all n products h = (
  sym (append-nil (pages 0 n products))
      ∙ ap (◌++◌ (pages 0 n products))
          (sym (drop-all ((0 + n) * page_size) products (omega (arith, h))))
      ∙ pages-drop n 0 products,
  ap (take page_size) (drop-all (n * page_size) products h),
)
