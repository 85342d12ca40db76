-- ===== src/Catalog/Assist.antt =====
-- The handlers of products.tsx that ask an assistant for a text, a name or a price.
use beidar_pos.Prelude.{
  String, Bool, true, false, not, Option, none, some, ◌===◌, if◌then◌else◌, or_default,
}
use beidar_pos.Prelude.Int.{ℤ, pos, eqb_ℤ}
use beidar_pos.Store.{truthy}
use beidar_pos.Catalog.Form.{text_of}
use beidar_pos.Catalog.Handlers.{CatalogState, error, notify}

-- The AI handlers: what they ask for, and the answer.
unfoldable pub begin_description : CatalogState → Option (String × String) × CatalogState
begin_description s =
    if text_of s.form.name === ""
    then (
      none,
      notify
          "\u{627}\u{643}\u{62a}\u{628} \u{627}\u{633}\u{645} \u{627}\u{644}\u{645}\u{646}\u{62a}\u{62c} \u{623}\u{648}\u{644}\u{627}ً"
          error s,
    )
    else (
      some (text_of s.form.name, or_default (truthy s.form.category) "\u{639}\u{627}\u{645}"),
      record s { is_generating = true },
    )

unfoldable pub finish_description : String → CatalogState → CatalogState
finish_description description s = record s {
  form = record s.form { description = some description };
  is_generating = false;
}

unfoldable pub begin_improve : CatalogState → Option String × CatalogState
begin_improve s =
    if text_of s.form.name === ""
    then (none, s)
    else (some (text_of s.form.name), record s { is_generating = true })

unfoldable pub finish_improve : String → CatalogState → CatalogState
finish_improve improved s = record s {
  form = record s.form { name = some improved };
  is_generating = false;
}

abbrev pub has_cost : Option ℤ → Bool
has_cost none = false
has_cost (some c) = not (eqb_ℤ c (pos 0))

abbrev pub price_of : String → Bool → Option ℤ → CatalogState → Option (String × ℤ) × CatalogState
price_of name true (some cost) s = (some (name, cost), record s { is_generating = true })
price_of name _ _ s = (
  none,
  notify
      "\u{627}\u{644}\u{627}\u{633}\u{645} \u{648}\u{633}\u{639}\u{631} \u{627}\u{644}\u{62a}\u{643}\u{644}\u{641}\u{629} \u{645}\u{637}\u{644}\u{648}\u{628}\u{627}\u{646} \u{644}\u{644}\u{627}\u{642}\u{62a}\u{631}\u{627}\u{62d}"
      error s,
)

unfoldable pub begin_suggest : CatalogState → Option (String × ℤ) × CatalogState
begin_suggest s =
    price_of (text_of s.form.name)
      (if text_of s.form.name === "" then false else has_cost s.form.cost) s.form.cost s

-- `none` where the answer is empty.
unfoldable pub finish_suggest : Option ℤ → CatalogState → CatalogState
finish_suggest none s = record s { is_generating = false }
finish_suggest (some price) s = record s {
  form = record s.form { price = some price };
  is_generating = false;
}
