-- ===== src/Catalog/Saving.antt =====
-- What the checks of the product form let through, and what is saved of it.
use beidar_pos.Prelude.{
  ◌≤◌, ◌≡◌, refl, ap, inl, inr, ◌⊎◌, String, true, Option, none, some, List, [], arith, eq_iff,
  ◌===◌, or_default, Bool-cases,
}
use beidar_pos.Prelude.Int.{ℤ, pos, ◌≤ℤ◌, eqb_ℤ, eq_of_parts}
use beidar_pos.Store.{truthy}
use beidar_pos.Catalog.{ProductForm}
use beidar_pos.Catalog.Form.{
  Schema, is_whole, name_error, price_error, stock_error, category_error, error_at, form_errors,
  number_or, text_of, product_of,
}

module _ (z : Schema) where
  no_error :
      (field : String) (o : Option String) (rest : List (String × String))
      → error_at z field o rest ≡ []
      → (o ≡ none) × (rest ≡ [])
  no_error field none rest h = (refl, h)
  no_error field (some message) rest h = absurd (cc)

number_or-zero : (v : ℤ) → number_or (some v) (pos 0) ≡ v
number_or-zero v = elim (Bool-cases (eqb_ℤ v (pos 0))) [
  | inl nothing ↦ rw nothing (eq_of_parts (pos 0) v (ground (arith, nothing)))
  | inr something ↦ rw something refl
]

number_or-default :
    (v d : ℤ)
    → (some v ≡ some (number_or (some v) d))
      ⊎ ((some v ≡ some (pos 0)) × (number_or (some v) d ≡ d))
number_or-default v d = elim (Bool-cases (eqb_ℤ v (pos 0))) [
  | inl nothing ↦ inr (ap some (eq_of_parts v (pos 0) (ground (arith, nothing))), rw nothing refl)
  | inr something ↦ inl (rw something refl)
]

module _ (z : Schema) where
  name-fits :
      (o : Option String)
      → name_error z o ≡ none
      → (o ≡ some (text_of o)) × (2 ≤ z.text_length (text_of o)) × (z.text_length (text_of o) ≤ 100)
  unfolding name_error
  name-fits none h = absurd (cc)
  name-fits (some t) h = (refl, ground (arith, h), ground (arith, h))

  price-fits :
      (o : Option ℤ)
      → price_error z o ≡ none
      → (o ≡ some (or_default o (pos 0))) × (pos 0 ≤ℤ or_default o (pos 0))
  unfolding price_error
  price-fits none h = absurd (cc)
  price-fits (some v) h = (refl, ground (arith, h))

  number-fits :
      (o : Option ℤ)
      → price_error z o ≡ none
      → (o ≡ some (number_or o (pos 0))) × (pos 0 ≤ℤ number_or o (pos 0))
  unfolding price_error
  number-fits none h = absurd (cc)
  number-fits (some v) h = rw (number_or-zero v) (refl, ground (arith, h))

  stock-fits :
      (negative : String) (o : Option ℤ)
      → stock_error z negative o ≡ none
      → (o ≡ some (number_or o (pos 0)))
        × (pos 0 ≤ℤ number_or o (pos 0))
        × (is_whole (number_or o (pos 0)) ≡ true)
  unfolding stock_error
  stock-fits negative none h = absurd (cc)
  stock-fits negative (some v) h =
      rw (number_or-zero v) (refl, ground (arith, h), ground (arith, h))

  min_stock-fits :
      (negative : String) (o : Option ℤ) (d : ℤ)
      → stock_error z negative o ≡ none
      → (o ≡ some (number_or o d)) ⊎ ((o ≡ some (pos 0)) × (number_or o d ≡ d))
  unfolding stock_error
  min_stock-fits negative none d h = absurd (cc)
  min_stock-fits negative (some v) d h = number_or-default v d

  category-fits :
      (o : Option String) (d : String)
      → z.text_length "" ≡ 0
      → category_error z o ≡ none
      → o ≡ some (or_default (truthy o) d)
  unfolding category_error
  category-fits none d empty h = absurd (cc)
  category-fits (some t) d empty h = elim (Bool-cases (t === "")) [
    | inl blank ↦ absurd (ground (arith, h, empty, ap z.text_length ((eq_iff t "").0 blank)))
    | inr filled ↦ rw filled refl
  ]

-- What is saved of a form that passes the checks: its name of 2 to 100 characters, its price and cost, which are not
-- negative, its stock, a whole number that is not negative, and its category, all as they were typed. So is the
-- number at which the stock is low, except that 5 is saved for 0. A stock with a fraction is refused, though the
-- comment of its field in frontend/src/core/types.ts allows one.
pub saves_what_is_typed :
    (z : Schema) (t : String → String) (f : ProductForm)
    → z.text_length "" ≡ 0
    → form_errors z f ≡ []
    → let p = product_of t f in
      (f.name ≡ some p.name)
      × (2 ≤ z.text_length p.name)
      × (z.text_length p.name ≤ 100)
      × (f.price ≡ some p.price)
      × (pos 0 ≤ℤ p.price)
      × (f.cost ≡ some p.cost)
      × (pos 0 ≤ℤ p.cost)
      × (f.stock ≡ some p.stock)
      × (pos 0 ≤ℤ p.stock)
      × (is_whole p.stock ≡ true)
      × (f.category ≡ some p.category)
      × ((f.min_stock ≡ some p.min_stock)
          ⊎ ((f.min_stock ≡ some (pos 0)) × (p.min_stock ≡ pos 5000)))
unfolding form_errors product_of
saves_what_is_typed z t f empty h =
    let (n, h1) = no_error z "name" (name_error z f.name) _ h in
    let (p, h2) = no_error z "price" (price_error z f.price) _ h1 in
    let (c, h3) = no_error z "cost" (price_error z f.cost) _ h2 in
    let (s, h4) = no_error z "stock" (stock_error z _ f.stock) _ h3 in
    let (m, h5) = no_error z "minStock" (stock_error z z.negative f.min_stock) _ h4 in
    let (k, h6) = no_error z "category" (category_error z f.category) _ h5 in
    let name = name-fits z f.name n in
    let price = price-fits z f.price p in
    let cost = number-fits z f.cost c in
    let stock = stock-fits z _ f.stock s in
    (
      name.0,
      name.1,
      name.2,
      price.0,
      price.1,
      cost.0,
      cost.1,
      stock.0,
      stock.1,
      stock.2,
      category-fits z f.category _ empty k,
      min_stock-fits z z.negative f.min_stock (pos 5000) m,
    )
