-- ===== src/Export/Files.antt =====
-- What is read back of the files that exportToExcel and exportMultiSheetExcel write.
use beidar_pos.Prelude.{◌≡◌, false, some, List, [], ◌∷◌, map, All}
use beidar_pos.Logger.Mask.{Text, trim_start}
use beidar_pos.Utils.{starts_formula}
use beidar_pos.Export.{Value, ExportColumn, Sheet, sanitize_cell, csv_of, sheet_rows, sheet_value}
use beidar_pos.Export.Reader.{HasCell, read_csv, read_csv-csv_of}

-- A cell that a spreadsheet does not take for a formula.
abbrev pub IsPlain : Text → Type 0
IsPlain cell = starts_formula (trim_start cell) ≡ false

items-HasCell :
    (value : Value → Text) (col : ExportColumn) (columns : List ExportColumn)
    (items : List (Text → Value))
    → All HasCell (map (λ item. map (λ c. value (item c.key)) (col ∷ columns)) items)
items-HasCell value col columns [] = tt
items-HasCell value col columns (item ∷ items) = (tt, items-HasCell value col columns items)

-- One sheet of an export with a column is read back as its headers and a row for each item.
pub sheet_reads_back :
    (name date : Text) (items : List (Text → Value)) (col : ExportColumn)
    (columns : List ExportColumn)
    → let sheet : Sheet = record { name = name; items = items; columns = col ∷ columns } in
      read_csv (csv_of (sheet_rows sheet)) ≡ some (map (map sanitize_cell) (sheet_rows sheet))
unfolding sheet_rows
sheet_reads_back name date items col columns =
    read_csv-csv_of _ _ (tt, items-HasCell sheet_value col columns items)
