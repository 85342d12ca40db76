-- ===== src/Catalog/Scanning.antt =====
-- Scans on the products page: what is found of a code, and what is found after a new product got it.
use beidar_pos.Prelude.{
  ◌≡◌, refl, ap, inl, inr, String, true, none, some, List, [], ◌∷◌, ◌++◌, arith, eq_iff, ◌===◌,
  find, Bool-cases,
}
use beidar_pos.Cart.{Product}
use beidar_pos.Catalog.Form.{product_of}
use beidar_pos.Catalog.Handlers.{CatalogState, scanned, finish_scan, fill_barcode, handle_init_add}

find-last :
    (code : String) (before : List Product) (p : Product)
    → p.barcode ≡ code
    → (q : Product) × (find (λ (x : Product). x.barcode === code) (before ++ (p ∷ [])) ≡ some q)
      × (q.barcode ≡ code)
find-last code [] p e = (p, ground (arith, e, eq_iff p.barcode code), e)
find-last code (x ∷ before) p e = elim (Bool-cases (x.barcode === code)) [
  | inl same ↦ (x, ground (arith, same), (eq_iff x.barcode code).0 same)
  | inr other ↦
      let rest = find-last code before p e in (rest.0, ground (arith, other, rest.1), rest.2)
]

-- A code that no product has opens the form of a new product with that code. Once the product of that form is
-- among the products that the search gives, the same scan shows a product with the code. Both scans are answered
-- with success.
pub new_code_is_found :
    (t : String → String) (code fresh later : String) (s : CatalogState) (before all : List Product)
    → let first = finish_scan t code none fresh s in
      let form = (fill_barcode code first.1).form in
      let again =
        finish_scan t code (scanned code (some (before ++ (product_of t form ∷ []))) all) later s in
      (first.1.modal_open ≡ true)
      × (first.0.success ≡ true)
      × (again.0.success ≡ true)
      × ((q : Product) × (again.1.scanned_product ≡ some q) × (q.barcode ≡ code))
unfolding finish_scan fill_barcode product_of scanned handle_init_add
new_code_is_found t code fresh later s before all =
    let (q, found, same) =
      find-last code before
        (product_of t (fill_barcode code (finish_scan t code none fresh s).1).form) refl in
    (
      refl,
      refl,
      ap (λ o. (finish_scan t code o later s).0.success) found,
      (q, ap (λ o. (finish_scan t code o later s).1.scanned_product) found, same),
    )
