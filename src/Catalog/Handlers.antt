-- ===== src/Catalog/Handlers.antt =====
-- The state and the handlers of products.tsx. One that awaits the backend is two functions: up to the call, which is
-- `none` where it returns without one, and from the answer on. A generated barcode is an argument.
use Prim.Native.String.{◌++◌ as text_append}
use beidar_pos.Prelude.{
  ℕ, ◌+◌, String, Bool, true, false, Option, none, some, List, [], ◌∷◌, ◌===◌, if◌then◌else◌,
  or_default, is_some, find,
}
use beidar_pos.Prelude.Int.{pos}
use beidar_pos.Store.{truthy}
use beidar_pos.Cart.{Product}
use beidar_pos.Sales.Scan.{ScanResult}
use beidar_pos.Confirm.{ConfirmState, open_confirm, close_confirm}
use beidar_pos.Confirm.Forced.{AppError}
use beidar_pos.Catalog.{Filters, ProductForm}
use beidar_pos.Catalog.Form.{Schema, form_errors, product_of, form_of}

pub data FieldType : Type 0 where
  text number select : FieldType

pub record CategoryField : Type 0 where
  pub name : String
  pub field_type : FieldType
  pub options : List String

pub record Category : Type 0 where
  pub id : String
  pub name : String
  pub fields : List CategoryField

-- `Partial<CategoryDef>`
pub record CategoryForm : Type 0 where
  pub name : Option String
  pub fields : List CategoryField

-- What a confirmed dialog deletes: a product, the selected ones, or a category, forced or not.
pub data Deed : Type 0 where
  of_product : String → Deed
  of_selected : List String → Deed
  of_category : String → Bool → Deed

pub data Kind : Type 0 where
  success error : Kind

-- The state that the handlers change; notices latest first. `refreshes` counts the reloads after a change.
pub record CatalogState : Type 0 where
  pub filters : Filters
  pub selected_ids : List String
  pub modal_open : Bool
  pub category_modal_open : Bool
  pub scanner_open : Bool
  pub confirm_state : ConfirmState Deed
  pub editing_product : Option Product
  pub form : ProductForm
  pub is_generating : Bool
  pub errors : List (String × String)
  pub cat_form : CategoryForm
  pub editing_category : Option Category
  pub scanned_product : Option Product
  pub notices : List (String × Kind)
  pub refreshes : ℕ

abbrev pub notify : String → Kind → CatalogState → CatalogState
notify message kind s = record s { notices = (message, kind) ∷ s.notices }

abbrev pub refresh : CatalogState → CatalogState
refresh s = record s { refreshes = s.refreshes + 1 }

-- The message of the first error that is shown.
abbrev pub first_error : List (String × String) → (String → String) → String
first_error [] t = t "errors.required"
first_error ((field, message) ∷ rest) t =
    if message === "" then t "errors.required" else text_append "\u{62e}\u{637}\u{623}: " message

-- What `handleScan` finds: in the answer of the search or, where that threw, in the products of the page.
unfoldable pub scanned : String → Option (List Product) → List Product → Option Product
scanned code (some found) all = find (λ p. p.barcode === code) found
scanned code none all = find (λ p. p.barcode === code) all

unfoldable pub fill_barcode : String → CatalogState → CatalogState
fill_barcode code s = record s { form = record s.form { barcode = some code } }

module _ (t : String → String) where
  abbrev pub new_form : String → String → ProductForm
  new_form category barcode = record {
    id = none;
    name = some "";
    price = some (pos 0);
    cost = some (pos 0);
    stock = some (pos 0);
    min_stock = some (pos 5000);
    wholesale_price = none;
    category = some category;
    image = some "";
    barcode = some barcode;
    supplier = none;
    description = none;
  }

  unfoldable pub handle_init_add : String → CatalogState → CatalogState
  handle_init_add barcode s = record s {
    form =
        new_form
          (if s.filters.selected_category === t "common.all"
            then "\u{639}\u{627}\u{645}"
            else s.filters.selected_category)
          barcode;
    editing_product = none;
    modal_open = true;
  }

  unfoldable pub handle_init_edit : Product → CatalogState → CatalogState
  handle_init_edit p s = record s { form = form_of p; editing_product = some p; modal_open = true }

  unfoldable pub handle_duplicate : Product → String → CatalogState → CatalogState
  handle_duplicate p barcode s = record s {
    form = record (form_of p) {
      id = none;
      name = some (text_append p.name " (\u{646}\u{633}\u{62e}\u{629})");
      barcode = some barcode;
    };
    editing_product = none;
    modal_open = true;
  }

  abbrev pub save_of : List (String × String) → CatalogState → Option Product × CatalogState
  save_of [] s = (some (product_of t s.form), record s { errors = [] })
  save_of (e ∷ errors) s =
      (none, notify (first_error (e ∷ errors) t) error (record s { errors = e ∷ errors }))

  unfoldable pub begin_save : Schema → CatalogState → Option Product × CatalogState
  begin_save z s = save_of (form_errors z s.form) s

  -- `none` where the product was saved, or the message of the failure. The form is that of the handler's render.
  unfoldable pub finish_save : ProductForm → Option String → CatalogState → CatalogState
  finish_save form none s =
      refresh
        (record (notify
          (t (
            if is_some (truthy form.id)
            then "products.productUpdated"
            else "products.productAdded"))
          success s) { modal_open = false })
  finish_save form (some message) s =
      notify (text_append "\u{641}\u{634}\u{644} \u{627}\u{644}\u{62d}\u{641}\u{638}: " message)
        error s

  -- `handleScan` from the answer on; the form gets the code by a timer, `fill_barcode`.
  unfoldable pub finish_scan :
      String → Option Product → String → CatalogState → ScanResult × CatalogState
  finish_scan code (some p) fresh s = (
    record { success = true; name = some p.name; message = none },
    record s { scanned_product = some p; scanner_open = false },
  )
  finish_scan code none fresh s = (
    record { success = true; name = none; message = some (t "products.addProduct") },
    record (handle_init_add fresh s) { scanner_open = false },
  )

  unfoldable pub handle_delete : String → CatalogState → CatalogState
  handle_delete id s = record s {
    confirm_state =
        open_confirm (t "confirm.deleteTitle") (t "confirm.deleteMessage") "error" none
          (of_product id) s.confirm_state;
  }

  unfoldable pub product_deleted : CatalogState → CatalogState
  product_deleted s =
      let u : CatalogState = refresh (notify (t "products.productDeleted") success s) in
      record u { confirm_state = close_confirm u.confirm_state }

  -- The button of the second dialog makes the same call again.
  unfoldable pub product_not_deleted : String → AppError → CatalogState → CatalogState
  product_not_deleted id e s =
      if e.allow_force
      then record s {
        confirm_state =
            open_confirm
              "\u{62a}\u{639}\u{630}\u{631} \u{627}\u{644}\u{62d}\u{630}\u{641} - \u{645}\u{637}\u{644}\u{648}\u{628} \u{62a}\u{623}\u{643}\u{64a}\u{62f} \u{625}\u{636}\u{627}\u{641}\u{64a}"
              (text_append (or_default e.message "undefined")
                (text_append "\n\n" (or_default e.hint "")))
              "warning" (some "\u{62d}\u{630}\u{641} \u{642}\u{633}\u{631}\u{64a} (Force Delete)")
              (of_product id) s.confirm_state;
      }
      else (let u : CatalogState = notify (t "errors.deleteFailed") error s in
          record u { confirm_state = close_confirm u.confirm_state })

-- `handleBulkDelete`; the text of the dialog, with the number of the products, is an argument.
unfoldable pub handle_bulk_delete : String → CatalogState → CatalogState
handle_bulk_delete message s = record s {
  confirm_state =
      open_confirm "\u{62d}\u{630}\u{641} \u{645}\u{62a}\u{639}\u{62f}\u{62f}" message "error" none
        (of_selected s.selected_ids) s.confirm_state;
}

-- All of them were deleted, or at least one deletion failed.
unfoldable pub finish_bulk_delete : Bool → CatalogState → CatalogState
finish_bulk_delete all_deleted s =
    let u : CatalogState =
      (if all_deleted
        then refresh (
            notify
              "\u{62a}\u{645} \u{627}\u{644}\u{62d}\u{630}\u{641} \u{628}\u{646}\u{62c}\u{627}\u{62d}"
              success (record s { selected_ids = [] }))
        else notify "\u{62e}\u{637}\u{623}" error s) in
    record u { confirm_state = close_confirm u.confirm_state }
