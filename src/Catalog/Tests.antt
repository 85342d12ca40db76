-- ===== src/Catalog/Tests.antt =====
-- Examples of the products page.
use beidar_pos.Prelude.{
  ◌≤◌, ◌≡◌, ◌≢◌, ◌⊎◌, refl, true, false, none, some, List, [], ◌∷◌, arith, ◌===◌, if◌then◌else◌,
}
use beidar_pos.Prelude.Int.{pos, negsuc, ◌+ℤ◌, ◌≤ℤ◌, ◌<ℤ◌}
use beidar_pos.Confirm.{closed}
use beidar_pos.Cart.{Product}
use beidar_pos.Catalog.{every, ProductForm, paginated}
use beidar_pos.Catalog.Pages.{pages, pages_show_all}
use beidar_pos.Catalog.Form.{
  Schema, form_errors, name_error, price_error, stock_error, category_error, notes_error, is_whole,
  product_of, form_of,
}
use beidar_pos.Catalog.Saving.{saves_what_is_typed}
use beidar_pos.Catalog.Stock.{with_change, log_of, replayed, log_explains_stock}
use beidar_pos.Catalog.Labels.{QueueAction, added, typed, removed, IsPrintQueue, run-IsPrintQueue}
use beidar_pos.Catalog.Labels
use beidar_pos.Catalog.Handlers.{CatalogState}

abbrev tea : Product
tea = record {
  id = "p1";
  name = "tea";
  price = pos 2000;
  cost = pos 1000;
  stock = pos 3000;
  min_stock = pos 5000;
  wholesale_price = pos 0;
  category = "hot";
  image = "";
  barcode = "111";
  supplier = none;
  description = none;
}

pages_show_all_example :
    (pages 0 1 (tea ∷ tea ∷ []) ≡ tea ∷ tea ∷ []) × (paginated 1 (tea ∷ tea ∷ []) ≡ [])
pages_show_all_example = pages_show_all 1 (tea ∷ tea ∷ []) (omega arith)

-- Of a schema whose texts are all of three characters, but for the empty one.
abbrev schema : Schema
schema = record {
  text_length = λ t. if t === "" then 0 else 3;
  required = "Required";
  negative = "negative";
}

abbrev typed_form : ProductForm
typed_form = record (form_of tea) { min_stock = some (pos 0) }

no_errors : form_errors schema typed_form ≡ []
unfolding form_errors name_error price_error stock_error category_error notes_error form_of
no_errors = refl

saves_what_is_typed_example :
    (typed_form.name ≡ some (product_of (λ k. k) typed_form).name)
    × (2 ≤ schema.text_length (product_of (λ k. k) typed_form).name)
    × (schema.text_length (product_of (λ k. k) typed_form).name ≤ 100)
    × (typed_form.price ≡ some (product_of (λ k. k) typed_form).price)
    × (pos 0 ≤ℤ (product_of (λ k. k) typed_form).price)
    × (typed_form.cost ≡ some (product_of (λ k. k) typed_form).cost)
    × (pos 0 ≤ℤ (product_of (λ k. k) typed_form).cost)
    × (typed_form.stock ≡ some (product_of (λ k. k) typed_form).stock)
    × (pos 0 ≤ℤ (product_of (λ k. k) typed_form).stock)
    × (is_whole (product_of (λ k. k) typed_form).stock ≡ true)
    × (typed_form.category ≡ some (product_of (λ k. k) typed_form).category)
    × ((typed_form.min_stock ≡ some (product_of (λ k. k) typed_form).min_stock)
        ⊎ ((typed_form.min_stock ≡ some (pos 0))
            × ((product_of (λ k. k) typed_form).min_stock ≡ pos 5000)))
saves_what_is_typed_example = saves_what_is_typed schema (λ k. k) typed_form refl no_errors

-- Four pieces are taken of three.
log_explains_stock_example :
    let l = log_of tea (negsuc 3999) in
    let stock = (with_change tea (negsuc 3999)).stock in
    (l.product_id ≡ "p1")
    × (l.qty ≡ pos 4000)
    × (replayed l tea.stock ≡ tea.stock +ℤ negsuc 3999)
    × (((pos 0 ≤ℤ tea.stock +ℤ negsuc 3999) × (stock ≡ replayed l tea.stock))
        ⊎ ((tea.stock +ℤ negsuc 3999 <ℤ pos 0) × (stock ≡ pos 0) × (stock ≢ replayed l tea.stock)))
log_explains_stock_example = log_explains_stock tea (negsuc 3999)

abbrev typing : List QueueAction
typing = added tea (pos 2) ∷ added tea (pos 1) ∷ typed 0 (pos 0) ∷ []

three_labels :
    Labels.run (added tea (pos 2) ∷ added tea (pos 1) ∷ []) []
    ≡ record { product = tea; qty = pos 3 } ∷ []
unfolding Labels.run Labels.step Labels.add_to_print_queue ◌+ℤ◌
three_labels = refl

abbrev page : CatalogState
page = record {
  filters = record {
    search = "";
    selected_category = "common.all";
    selected_supplier = "common.all";
    status_filter = every;
    page = 0;
  };
  selected_ids = [];
  modal_open = false;
  category_modal_open = false;
  scanner_open = true;
  confirm_state = closed;
  editing_product = none;
  form = typed_form;
  is_generating = false;
  errors = [];
  cat_form = record { name = some ""; fields = [] };
  editing_category = none;
  scanned_product = none;
  notices = [];
  refreshes = 0;
}
