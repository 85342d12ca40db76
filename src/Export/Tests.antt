-- ===== src/Export/Tests.antt =====
-- The properties of export.ts at small tables.
use beidar_pos.Prelude.{◌≡◌, refl, false, none, some, List, [], ◌∷◌}
use beidar_pos.Logger.{codes}
use beidar_pos.Logger.Mask.{Text, trim_start, is_space}
use beidar_pos.Export.{
  Value, flag, shown, ExportColumn, ExportOptions, sanitize_cell, csv_of, double_quotes,
  quote_csv_cell, join,
}
use beidar_pos.Export.Reader.{read_csv, read_on, add_row}

abbrev awkward : List (List Text)
awkward = (codes "a,b" ∷ codes "say \"x\"" ∷ []) ∷ (codes "=1" ∷ (13 ∷ 10 ∷ []) ∷ []) ∷ []

awkward_reads_back :
    read_csv (csv_of awkward)
    ≡ some ((codes "a,b" ∷ codes "say \"x\"" ∷ []) ∷ (codes "'=1" ∷ (13 ∷ 10 ∷ []) ∷ []) ∷ [])
unfolding read_csv read_on add_row csv_of join quote_csv_cell double_quotes sanitize_cell trim_start
    is_space
awkward_reads_back = refl

abbrev options : ExportOptions
options = record { filename = codes "sales"; title = none; subtitle = some []; store_name = none }

abbrev column : ExportColumn
column = record { key = codes "name"; header = codes "Name" }

abbrev items : List (Text → Value)
items = (λ key. shown (codes "=cmd\"|")) ∷ (λ key. flag false) ∷ []
