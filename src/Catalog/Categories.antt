-- ===== src/Catalog/Categories.antt =====
-- How products.tsx saves and deletes categories.
use Prim.Native.String.{◌++◌}
use beidar_pos.Prelude.{
  String, ◌≡◌, refl, inl, inr, Bool, true, false, Option, none, some, List, [], if◌then◌else◌,
  or_default, Bool-cases,
}
use beidar_pos.Store.{truthy}
use beidar_pos.Confirm.{ConfirmState, open_confirm, close_confirm}
use beidar_pos.Confirm.Forced.{
  AppError, Deletion, IsPlain, Event, run, IsWarranted, run-IsWarranted,
}
use beidar_pos.Catalog.Handlers.{
  CatalogState, Category, CategoryForm, Deed, of_product, of_selected, of_category, success, error,
  notify, refresh, handle_delete,
}

-- The category that is sent: `editingCategory?.id || catForm.name`.
abbrev pub category_of : Option Category → CategoryForm → String → Category
category_of editing f name = record {
  id = elim editing [ none ↦ name | some c ↦ or_default (truthy (some c.id)) name ];
  name = name;
  fields = f.fields;
}

unfoldable pub begin_save_category : CatalogState → Option Category
begin_save_category s = elim (truthy s.cat_form.name) [
  | none ↦ none
  | some name ↦ some (category_of s.editing_category s.cat_form name)
]

abbrev pub is_editing : Option Category → Bool
is_editing none = false
is_editing (some c) = true

-- `refetchCategories` and `refetchProducts`. `editing` is what the handler's render has.
unfoldable pub finish_save_category : Option Category → Bool → CatalogState → CatalogState
finish_save_category editing true s =
    record (refresh (
      notify
        (if is_editing editing
          then "\u{62a}\u{645} \u{62a}\u{62d}\u{62f}\u{64a}\u{62b} \u{627}\u{644}\u{641}\u{626}\u{629} \u{628}\u{646}\u{62c}\u{627}\u{62d}"
          else "\u{62a}\u{645} \u{625}\u{636}\u{627}\u{641}\u{629} \u{627}\u{644}\u{641}\u{626}\u{629} \u{628}\u{646}\u{62c}\u{627}\u{62d}")
        success s)) {
          category_modal_open = false;
          editing_category = none;
          cat_form = record { name = some ""; fields = [] };
        }
finish_save_category editing false s =
    notify
      "\u{62e}\u{637}\u{623} \u{641}\u{64a} \u{62d}\u{641}\u{638} \u{627}\u{644}\u{641}\u{626}\u{629}"
      error s

unfoldable pub handle_edit_category : Category → CatalogState → CatalogState
handle_edit_category c s = record s {
  editing_category = some c;
  cat_form = record { name = some c.name; fields = c.fields };
}

-- `handleDeleteCategory`, which names the category in the text of the dialog.
unfoldable pub handle_delete_category : String → String → CatalogState → CatalogState
handle_delete_category message id s = record s {
  confirm_state =
      open_confirm "\u{62d}\u{630}\u{641} \u{627}\u{644}\u{641}\u{626}\u{629}" message "warning"
        (some "\u{62d}\u{630}\u{641}") (of_category id false) s.confirm_state;
}

unfoldable pub category_deleted : CatalogState → CatalogState
category_deleted s =
    let u : CatalogState = refresh (
      notify
        "\u{62a}\u{645} \u{62d}\u{630}\u{641} \u{627}\u{644}\u{641}\u{626}\u{629} \u{628}\u{646}\u{62c}\u{627}\u{62d}"
        success s) in
    record u { confirm_state = close_confirm u.confirm_state; category_modal_open = false }

-- `message || fallback`
abbrev or_else : Option String → String → String
or_else message fallback = or_default (truthy message) fallback

unfoldable pub category_not_deleted : String → AppError → CatalogState → CatalogState
category_not_deleted id e s =
    if e.allow_force
    then record s {
      confirm_state =
          open_confirm
            "\u{62a}\u{639}\u{630}\u{631} \u{627}\u{644}\u{62d}\u{630}\u{641} - \u{645}\u{637}\u{644}\u{648}\u{628} \u{62a}\u{623}\u{643}\u{64a}\u{62f} \u{625}\u{636}\u{627}\u{641}\u{64a}"
            (or_default e.message "undefined" ++ "\n\n" ++ or_else e.hint "") "warning"
            (some "\u{62d}\u{630}\u{641} \u{642}\u{633}\u{631}\u{64a} (Force Delete)")
            (of_category id true) s.confirm_state;
    }
    else (let u : CatalogState =
          notify
            (or_else e.message (
              or_else (some e.raw)
                "\u{62e}\u{637}\u{623} \u{641}\u{64a} \u{62d}\u{630}\u{641} \u{627}\u{644}\u{641}\u{626}\u{629}"))
            error s in
        record u { confirm_state = close_confirm u.confirm_state })

-- The category that the dialog deletes when it is confirmed.
abbrev pub category_deed : Option Deed → Option (String × Bool)
category_deed none = none
category_deed (some (of_product id)) = none
category_deed (some (of_selected ids)) = none
category_deed (some (of_category id force)) = some (id, force)

abbrev pub category_dialog : ConfirmState Deed → ConfirmState (String × Bool)
category_dialog c = record {
  is_open = c.is_open;
  title = c.title;
  message = c.message;
  kind = c.kind;
  confirm_text = c.confirm_text;
  on_confirm = category_deed c.on_confirm;
}

module _ (t : String → String) (message : String) where
  -- The page's dialog as far as it deletes categories; the page uses it for products too.
  unfoldable pub category_deletion : Deletion CatalogState
  category_deletion = record {
    dialog = λ s. category_dialog s.confirm_state;
    ask = handle_delete_category message;
    cancel = λ s. record s { confirm_state = close_confirm s.confirm_state };
    succeed = category_deleted;
    refuse = category_not_deleted;
    other = handle_delete t;
  }

refuses-plain :
    (id : String) (e : AppError) (s : CatalogState)
    → category_deed (category_not_deleted id e s).confirm_state.on_confirm
      ≡ (if e.allow_force then some (id, true) else category_deed s.confirm_state.on_confirm)
unfolding category_not_deleted open_confirm close_confirm
refuses-plain id e s = elim (Bool-cases e.allow_force) [
  | inl allowed ↦ rw allowed refl
  | inr not_allowed ↦ rw not_allowed refl
]

category_deletion-IsPlain :
    (t : String → String) (message : String) → IsPlain (category_deletion t message)
unfolding category_deletion handle_delete_category category_deleted handle_delete open_confirm
    close_confirm
category_deletion-IsPlain t message = record {
  asks = λ id s. refl;
  cancels = λ s. refl;
  succeeds = λ s. refl;
  refuses = refuses-plain;
  others = λ id s. inl refl;
}

-- A category's deletion is forced only after the backend has answered one of the same category by an error that
-- allows it, whatever the user asks, confirms and cancels, deletions of products by the same dialog among them, and
-- in whatever order the answers arrive, from a page whose dialog has not been opened.
pub category_forced_only_if_allowed :
    (t : String → String) (message : String) (s : CatalogState) (events : List Event)
    → category_deed s.confirm_state.on_confirm ≡ none
    → IsWarranted
        (run (category_deletion t message) events (record { state = s; entries = [] })).entries
unfolding category_deletion
category_forced_only_if_allowed t message =
    run-IsWarranted (category_deletion t message) (category_deletion-IsPlain t message)
