-- ===== src/Utils.antt =====
-- The helpers of frontend/src/core/utils.ts on money, cells of exported tables and stored preferences. Amounts
-- and quantities count thousandths, a percentage thousandths of a percent; cents are whole.
mod Tests
pub mod Money
pub mod Secrets
use mathlib.Core.List.{foldl}
use beidar_pos.Prelude.{
  ℕ, ◌+◌, ◌*◌, ◌/◌, ◌%◌, ◌^◌, String, Bool, true, false, not, ◌&&◌, ◌||◌, Option, none, some, List,
  [], ◌∷◌, ◌==◌, ◌===◌, if◌then◌else◌, any, or_default,
}
use beidar_pos.Prelude.Int.{ℤ, pos, pos_part, neg_part, ◌+ℤ◌, ◌-ℤ◌, ◌*ℤ◌, ltb_ℤ, round_div}
use beidar_pos.Store.{Storage, truthy, Parsed, throws, other, value}
use beidar_pos.Logger.Mask.{Text, trim_start}

-- `safeJSONParse`: `JSON.parse` gives a value or throws.
unfoldable pub safe_json_parse {ℓ} : {A : Type ℓ} → (String → Option A) → Storage → String → A → A
safe_json_parse parse st key fallback = elim (truthy (st key)) [
  | none ↦ fallback
  | some item ↦ or_default (parse item) fallback
]

-- A value of the preferences.
pub data Pref : Type 0 where
  text : String → Pref
  flag : Bool → Pref
  number : ℤ → Pref
  array : List String → Pref

abbrev pub Prefs : Type 0
Prefs = String → Option Pref

abbrev pub masked : String
masked = "********"

abbrev pub secret_keys : List String
secret_keys =
    "adminPin" ∷ "geminiApiKey" ∷ "geminiApiKeys" ∷ "groqApiKey" ∷ "AdminPin" ∷ "GeminiAPIKey"
    ∷ "GeminiAPIKeys" ∷ "GroqAPIKey" ∷ []

abbrev pub mask_pref : Pref → Pref
mask_pref (array items) = array (masked ∷ [])
mask_pref _ = text masked

-- One turn of the loop.
abbrev pub mask_key : String → Prefs → Prefs
mask_key key prefs j =
    if j === key then (elim (prefs key) [ none ↦ none | some v ↦ some (mask_pref v) ]) else prefs j

abbrev pub mask_keys : List String → Prefs → Prefs
mask_keys [] prefs = prefs
mask_keys (key ∷ keys) prefs = mask_keys keys (mask_key key prefs)

unfoldable pub sanitize_prefs_for_storage : Prefs → Prefs
sanitize_prefs_for_storage prefs = mask_keys secret_keys prefs

-- The parts of the text that `formatCents` writes: the sign, the whole units, which it gives to the number
-- format, and the cents, which it pads to two digits. A number that is not finite is `none`.
pub record Formatted : Type 0 where
  pub is_negative : Bool
  pub dollars : ℕ
  pub rem_cents : ℕ

unfoldable pub format_cents : Option ℤ → Formatted
format_cents none = record { is_negative = false; dollars = 0; rem_cents = 0 }
format_cents (some cents) =
    let abs_cents = pos_part cents + neg_part cents in
    record {
      is_negative = ltb_ℤ cents (pos 0);
      dollars = abs_cents / 100;
      rem_cents = abs_cents % 100;
    }

pub record PricedItem : Type 0 where
  pub price : ℤ
  pub qty : ℤ
  pub item_discount : Option ℤ

-- A number in thousandths, in whole cents.
abbrev pub cents_of : ℤ → ℤ
cents_of a = round_div (a *ℤ pos 100) 1000

abbrev pub line_cents : PricedItem → ℤ
line_cents item =
    round_div (cents_of item.price *ℤ item.qty) 1000
    -ℤ cents_of (or_default item.item_discount (pos 0))

-- `calculateCartTotal`, in cents.
unfoldable pub calculate_cart_total : List PricedItem → ℤ
calculate_cart_total = foldl (λ sum item. sum +ℤ line_cents item) (pos 0)

-- `calculateDiscount`, in cents.
unfoldable pub calculate_discount : ℤ → ℤ → ℤ
calculate_discount amount discount_percent =
    round_div (cents_of amount *ℤ discount_percent) (10 ^ 5)

-- The characters of `/^[=+\-@\t\r\n|%]/`.
abbrev pub is_formula_start : ℕ → Bool
is_formula_start c =
    c == b'='
    || c == b'+'
    || c == b'-'
    || c == b'@'
    || c == 9
    || c == 13
    || c == 10
    || c == b'|'
    || c == b'%'

abbrev pub starts_formula : Text → Bool
starts_formula [] = false
starts_formula (c ∷ s) = is_formula_start c

-- `sanitizeCSVCell`: `none` is null or undefined.
unfoldable pub sanitize_csv_cell : Option Text → Text
unfolding trim_start
sanitize_csv_cell none = []
sanitize_csv_cell (some str) = if starts_formula (trim_start str) then b'\'' ∷ str else str
