-- ===== src/Catalog/Form.antt =====
-- The form of a product: its checks, and the product that is saved.
use beidar_pos.Prelude.{
  ℕ, suc, ◌%◌, String, Bool, Option, none, some, List, [], ◌∷◌, ◌==◌, if◌then◌else◌, or_default,
  ltb,
}
use beidar_pos.Prelude.Int.{ℤ, pos, negsuc, ltb_ℤ, eqb_ℤ}
use beidar_pos.Store.{truthy}
use beidar_pos.Cart.{Product}
use beidar_pos.Catalog.{ProductForm}

-- What the schema library brings: the length of a text, and its own messages for a value that is missing and for a
-- negative one.
pub record Schema : Type 0 where
  pub text_length : String → ℕ
  pub required : String
  pub negative : String

abbrev pub is_negative : ℤ → Bool
is_negative v = ltb_ℤ v (pos 0)

-- A whole number of units, in thousandths.
abbrev pub is_whole : ℤ → Bool
is_whole (pos n) = n % 1000 == 0
is_whole (negsuc n) = suc n % 1000 == 0

module _ (z : Schema) where
  -- The last message of a field, if it has one.
  unfoldable pub name_error : Option String → Option String
  name_error none = some z.required
  name_error (some t) =
      if ltb (z.text_length t) 2
      then some
          "\u{627}\u{644}\u{627}\u{633}\u{645} \u{64a}\u{62c}\u{628} \u{623}\u{646} \u{64a}\u{643}\u{648}\u{646} \u{62d}\u{631}\u{641}\u{64a}\u{646} \u{639}\u{644}\u{649} \u{627}\u{644}\u{623}\u{642}\u{644}"
      else if ltb 100 (z.text_length t)
      then some
          "\u{627}\u{644}\u{627}\u{633}\u{645} \u{637}\u{648}\u{64a}\u{644} \u{62c}\u{62f}\u{627}ً"
      else none

  unfoldable pub price_error : Option ℤ → Option String
  price_error none = some z.required
  price_error (some v) =
      if is_negative v
      then some
          "\u{627}\u{644}\u{633}\u{639}\u{631} \u{64a}\u{62c}\u{628} \u{623}\u{646} \u{64a}\u{643}\u{648}\u{646} \u{635}\u{641}\u{631} \u{623}\u{648} \u{623}\u{643}\u{628}\u{631}"
      else none

  -- `stockSchema`, whose message for a negative number is the last check's.
  unfoldable pub stock_error : String → Option ℤ → Option String
  stock_error negative none = some z.required
  stock_error negative (some v) =
      if is_negative v
      then some negative
      else if is_whole v
      then none
      else some
          "\u{627}\u{644}\u{643}\u{645}\u{64a}\u{629} \u{64a}\u{62c}\u{628} \u{623}\u{646} \u{62a}\u{643}\u{648}\u{646} \u{639}\u{62f}\u{62f} \u{635}\u{62d}\u{64a}\u{62d}"

  unfoldable pub category_error : Option String → Option String
  category_error none = some z.required
  category_error (some t) =
      if ltb (z.text_length t) 1
      then some
          "\u{627}\u{644}\u{62a}\u{635}\u{646}\u{64a}\u{641} \u{645}\u{637}\u{644}\u{648}\u{628}"
      else none

  unfoldable pub notes_error : Option String → Option String
  notes_error none = none
  notes_error (some t) =
      if ltb 500 (z.text_length t)
      then some
          "\u{627}\u{644}\u{645}\u{644}\u{627}\u{62d}\u{638}\u{627}\u{62a} \u{637}\u{648}\u{64a}\u{644}\u{629} \u{62c}\u{62f}\u{627}ً"
      else none

  abbrev pub error_at : String → Option String → List (String × String) → List (String × String)
  error_at field none rest = rest
  error_at field (some message) rest = (field, message) ∷ rest

  -- The errors by field, in the order of the schema.
  unfoldable pub form_errors : ProductForm → List (String × String)
  form_errors f = error_at "name" (name_error f.name) (
      error_at "price" (price_error f.price) (
        error_at "cost" (price_error f.cost) (
          error_at "stock"
            (stock_error
              "\u{627}\u{644}\u{643}\u{645}\u{64a}\u{629} \u{64a}\u{62c}\u{628} \u{623}\u{646} \u{62a}\u{643}\u{648}\u{646} \u{635}\u{641}\u{631} \u{623}\u{648} \u{623}\u{643}\u{628}\u{631}"
              f.stock)
            (error_at "minStock" (stock_error z.negative f.min_stock) (
              error_at "category" (category_error f.category)
                (error_at "description" (notes_error f.description) []))))))

-- `o || ""` and `Number(o) || d`
abbrev pub text_of : Option String → String
text_of o = or_default o ""

abbrev pub number_or : Option ℤ → ℤ → ℤ
number_or none d = d
number_or (some v) d = if eqb_ℤ v (pos 0) then d else v

-- The product that `handleSave` sends.
unfoldable pub product_of : (String → String) → ProductForm → Product
product_of t f = record {
  id = text_of f.id;
  name = text_of f.name;
  price = or_default f.price (pos 0);
  cost = number_or f.cost (pos 0);
  stock = number_or f.stock (pos 0);
  min_stock = number_or f.min_stock (pos 5000);
  wholesale_price = number_or f.wholesale_price (pos 0);
  category = or_default (truthy f.category) (t "common.uncategorized");
  image = text_of f.image;
  barcode = text_of f.barcode;
  supplier = some (text_of f.supplier);
  description = some (text_of f.description);
}

-- What the form has of a product, for the edit of one.
unfoldable pub form_of : Product → ProductForm
form_of p = record {
  id = some p.id;
  name = some p.name;
  price = some p.price;
  cost = some p.cost;
  stock = some p.stock;
  min_stock = some p.min_stock;
  wholesale_price = some p.wholesale_price;
  category = some p.category;
  image = some p.image;
  barcode = some p.barcode;
  supplier = p.supplier;
  description = p.description;
}
