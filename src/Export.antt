-- ===== src/Export.antt =====
-- The tables that frontend/src/core/export.ts writes as CSV files. A text is the list of its character codes;
-- what `toLocaleDateString` and `toISOString` give is an argument. Options that are not read are left out.
mod Tests
pub mod Reader
pub mod Files
use beidar_pos.Prelude.{
  ℕ, Bool, true, false, Option, none, some, List, [], ◌∷◌, ◌++◌, map, ◌==◌, if◌then◌else◌,
  or_default,
}
use beidar_pos.Logger.{codes}
use beidar_pos.Logger.Mask.{Text, trim_start}
use beidar_pos.Utils.{starts_formula}

-- A property of an exported object; `shown` holds what `String` gives for a text or a number.
pub data Value : Type 0 where
  absent : Value
  flag : Bool → Value
  shown : Text → Value

pub record ExportColumn : Type 0 where
  pub key : Text
  pub header : Text

pub record ExportOptions : Type 0 where
  pub filename : Text
  pub title : Option Text
  pub subtitle : Option Text
  pub store_name : Option Text

-- What `downloadCSV` hands to the browser.
pub record Download : Type 0 where
  pub content : Text
  pub file : Text

-- `sanitizeCSVCell` of export.ts.
unfoldable pub sanitize_cell : Text → Text
sanitize_cell s = if starts_formula (trim_start s) then b'\'' ∷ s else s

-- `s.replace(/"/g, '""')`
unfoldable pub double_quotes : Text → Text
double_quotes [] = []
double_quotes (c ∷ s) =
    let rest = double_quotes s in if c == b'"' then b'"' ∷ b'"' ∷ rest else c ∷ rest

unfoldable pub quote_csv_cell : Text → Text
quote_csv_cell s = b'"' ∷ double_quotes (sanitize_cell s) ++ (b'"' ∷ [])

-- `texts.join(separator)`
unfoldable pub join : Text → List Text → Text
join separator [] = []
join separator (s ∷ []) = s
join separator (s ∷ t ∷ texts) = s ++ (separator ++ join separator (t ∷ texts))

abbrev pub csv_row : List Text → Text
csv_row row = join (b',' ∷ []) (map quote_csv_cell row)

unfoldable pub csv_of : List (List Text) → Text
csv_of rows = join (13 ∷ 10 ∷ []) (map csv_row rows)

unfoldable pub download_csv : Text → Text → Download
download_csv content filename = record { content = 65_279 ∷ content; file = filename }

-- `text || fallback`
abbrev pub or_text : Option Text → Text → Text
or_text (some (c ∷ s)) fallback = c ∷ s
or_text _ fallback = fallback

unfoldable pub cell_value : Value → Text
cell_value absent = []
cell_value (flag b) = if b then codes "\u{646}\u{639}\u{645}" else codes "\u{644}\u{627}"
cell_value (shown s) = s

unfoldable pub metadata : Text → ExportOptions → List (List Text)
metadata date options =
    (or_text options.store_name (codes "\u{627}\u{644}\u{645}\u{62a}\u{62c}\u{631}") ∷ [])
    ∷ ((codes "\u{627}\u{644}\u{62a}\u{642}\u{631}\u{64a}\u{631}: "
          ++ or_text options.title (codes "\u{62a}\u{642}\u{631}\u{64a}\u{631}"))
        ∷ [])
    ∷ ((codes "\u{627}\u{644}\u{62a}\u{627}\u{631}\u{64a}\u{62e}: " ++ date) ∷ [])
    ∷ (or_text options.subtitle [] ∷ [])
    ∷ ([] ∷ [])
    ∷ []

-- The rows that `exportToExcel` writes, before they are quoted.
unfoldable pub excel_rows :
    Text → List (Text → Value) → List ExportColumn → ExportOptions → List (List Text)
excel_rows date items columns options =
    metadata date options
    ++ (map (λ col. col.header) columns
        ∷ map (λ item. map (λ col. cell_value (item col.key)) columns) items)

unfoldable pub export_to_excel :
    Text → Text → List (Text → Value) → List ExportColumn → ExportOptions → Download
export_to_excel date filename_date items columns options =
    download_csv (csv_of (excel_rows date items columns options))
      (options.filename ++ (codes "_" ++ (filename_date ++ codes ".csv")))

pub record Sheet : Type 0 where
  pub name : Text
  pub items : List (Text → Value)
  pub columns : List ExportColumn

-- In a sheet a flag is written as `String` writes it.
unfoldable pub sheet_value : Value → Text
sheet_value absent = []
sheet_value (flag b) = if b then codes "true" else codes "false"
sheet_value (shown s) = s

unfoldable pub sheet_rows : Sheet → List (List Text)
sheet_rows sheet =
    map (λ col. col.header) sheet.columns
    ∷ map (λ item. map (λ col. sheet_value (item col.key)) sheet.columns) sheet.items

unfoldable pub export_multi_sheet : Text → List Sheet → ExportOptions → List Download
export_multi_sheet date sheets options =
    map
      (λ sheet.
        download_csv (csv_of (sheet_rows sheet)) (
          options.filename ++ (codes "_" ++ (sheet.name ++ (codes "_" ++ (date ++ codes ".csv"))))))
      sheets
