-- ===== src/Inventory.antt =====
-- The inventory page: frontend/src/features/inventory/inventory.tsx. Times count milliseconds. What JSON makes of
-- the kept report, and reads of it, is the codec's; the answers of the backend and of the assistant are arguments.
mod Tests
pub mod Analysis
pub mod Spacing
use beidar_pos.Prelude.{
  ℕ, ◌+◌, ◌*◌, ◌≤◌, ◌≡◌, String, Bool, true, false, not, ◌&&◌, Option, none, some, List, [], ◌∷◌,
  ltb, leb, ◌==◌, ◌===◌, if◌then◌else◌, or_default,
}
use beidar_pos.Store.{Storage, set_item, truthy, Parsed, throws, other, value}
use beidar_pos.Cart.{Product}

pub data StatusFilter : Type 0 where
  all low out : StatusFilter

pub record Filters : Type 0 where
  pub search : String
  pub filter_type : StatusFilter
  pub category_filter : String
  pub supplier_filter : String

pub data Kind : Type 0 where
  success error info : Kind

-- The state of the page; notices latest first. `last_updated` is null or 0 where no analysis is known.
pub record InventoryState : Type 0 where
  pub filters : Filters
  pub page : ℕ
  pub is_analyzing : Bool
  pub ai_report : String
  pub last_updated : ℕ
  pub notices : List (String × Kind)

abbrev pub notify : String → Kind → InventoryState → InventoryState
notify message kind s = record s { notices = (message, kind) ∷ s.notices }

abbrev pub initial : InventoryState
initial = record {
  filters = record {
    search = "";
    filter_type = all;
    category_filter = "all";
    supplier_filter = "all";
  };
  page = 0;
  is_analyzing = false;
  ai_report = "";
  last_updated = 0;
  notices = [];
}

-- New filters, with the effect that goes back to the first page.
unfoldable pub set_filters : Filters → InventoryState → InventoryState
set_filters filters s = record s { filters = filters; page = 0 }

pub data AbcClass : Type 0 where
  a_class b_class c_class : AbcClass

-- `getABCClass`, for values that are not negative.
unfoldable pub get_abc_class : ℕ → ℕ → AbcClass
get_abc_class total product_value =
    if total == 0
    then c_class
    else if leb total (product_value * 100)
    then a_class
    else if leb total (product_value * 200)
    then b_class
    else c_class

abbrev pub cache_key : String
cache_key = "beidar_inv_analysis_cache"

pub record Codec : Type 0 where
  pub stringify : ℕ → String → String
  pub parse : String → Parsed (ℕ × String)

-- What the codec writes is not empty, and it reads back the time that it wrote, with a report.
pub record IsRead (c : Codec) : Type 0 where
  pub full :
      (timestamp : ℕ) (report : String)
      → truthy (some (c.stringify timestamp report)) ≡ some (c.stringify timestamp report)
  pub read :
      (timestamp : ℕ) (report : String)
      → (again : String) × (c.parse (c.stringify timestamp report) ≡ value (timestamp, again))

-- What is restored of the kept text; one that is no such record has no report and no time, as a fresh page.
abbrev pub restored_of : Parsed (ℕ × String) → InventoryState → InventoryState
restored_of throws s = s
restored_of other s = s
restored_of (value (timestamp, report)) s = record s {
  ai_report = report;
  last_updated = timestamp;
}

abbrev pub restored : Codec → Option String → InventoryState → InventoryState
restored c none s = s
restored c (some text) s = restored_of (c.parse text) s

-- The effect of the mount.
unfoldable pub mount : Codec → Storage → InventoryState
mount c storage = restored c (truthy (storage cache_key)) initial

-- `lastUpdated && now - lastUpdated < 60 * 1000`
abbrev pub not_yet : ℕ → ℕ → Bool
not_yet last now = not (last == 0) && ltb now (last + 60000)

-- `handleRunAnalysis` up to its first call; the button is disabled during an analysis.
unfoldable pub begin_analysis : ℕ → InventoryState → Bool × InventoryState
begin_analysis now s =
    if s.is_analyzing
    then (false, s)
    else if not_yet s.last_updated now
    then (
      false,
      notify
          "\u{64a}\u{631}\u{62c}\u{649} \u{627}\u{644}\u{627}\u{646}\u{62a}\u{638}\u{627}\u{631} \u{642}\u{644}\u{64a}\u{644}\u{627}ً \u{642}\u{628}\u{644} \u{637}\u{644}\u{628} \u{62a}\u{62d}\u{644}\u{64a}\u{644} \u{62c}\u{62f}\u{64a}\u{62f}"
          info s,
    )
    else (true, record s { is_analyzing = true })

-- The products with a low stock, from the backend; `none` where it failed.
unfoldable pub analysis_listed : Option (List Product) → InventoryState → Bool × InventoryState
analysis_listed none s = (
  false,
  record (notify
      "\u{641}\u{634}\u{644} \u{627}\u{644}\u{62a}\u{62d}\u{644}\u{64a}\u{644} \u{627}\u{644}\u{630}\u{643}\u{64a}"
      error s) { is_analyzing = false },
)
analysis_listed (some []) s = (
  false,
  record (notify
      "\u{644}\u{627} \u{62a}\u{648}\u{62c}\u{62f} \u{645}\u{646}\u{62a}\u{62c}\u{627}\u{62a} \u{645}\u{646}\u{62e}\u{641}\u{636}\u{629} \u{627}\u{644}\u{645}\u{62e}\u{632}\u{648}\u{646} \u{644}\u{644}\u{62a}\u{62d}\u{644}\u{64a}\u{644}"
      info s) { is_analyzing = false },
)
analysis_listed (some (p ∷ products)) s = (true, s)

-- The report; `now` is the time at which the analysis began.
unfoldable pub analysis_done :
    Codec → ℕ → Option String → InventoryState × Storage → InventoryState × Storage
analysis_done c now none (s, storage) = (
  record (notify
      "\u{641}\u{634}\u{644} \u{627}\u{644}\u{62a}\u{62d}\u{644}\u{64a}\u{644} \u{627}\u{644}\u{630}\u{643}\u{64a}"
      error s) { is_analyzing = false },
  storage,
)
analysis_done c now (some report) (s, storage) = (
  record s { ai_report = report; last_updated = now; is_analyzing = false },
  set_item cache_key (c.stringify now report) storage,
)

-- The timer that hides the report.
unfoldable pub hide_report : InventoryState → InventoryState
hide_report s = record s { ai_report = "" }
