-- ===== src/Export/Reader.antt =====
-- A reader of CSV files whose cells are all quoted, against which the exports are stated, and what it reads
-- of them.
use mathlib.Core.List.{append-nil, append_assoc}
use beidar_pos.Prelude.{
  ℕ, ◌≡◌, refl, sym, ap, ◌∙◌, true, false, Bool-cases, inl, inr, Option, none, some, List, [], ◌∷◌,
  ◌++◌, map, ◌==◌, All, arith,
}
use beidar_pos.Logger.Mask.{Text}
use beidar_pos.Export.{sanitize_cell, double_quotes, quote_csv_cell, join, csv_row, csv_of}

-- Where the reader stands: before a cell, in one, behind its quote, or behind the carriage return of a row.
pub data Place : Type 0 where
  before inside behind returned : Place

unfoldable pub add_row : List Text → Option (List (List Text)) → Option (List (List Text))
add_row row none = none
add_row row (some rows) = some (row ∷ rows)

-- Reads on, with what was read of the cell and of the row.
unfoldable pub read_on : Place → Text → List Text → Text → Option (List (List Text))
read_on before cell row [] = none
read_on before cell row (c ∷ s) = elim (c == b'"') [ true ↦ read_on inside [] row s | false ↦ none ]
read_on inside cell row [] = none
read_on inside cell row (c ∷ s) = elim (c == b'"') [
  | true ↦ read_on behind cell row s
  | false ↦ read_on inside (cell ++ (c ∷ [])) row s
]
read_on behind cell row [] = some ((row ++ (cell ∷ [])) ∷ [])
read_on behind cell row (c ∷ s) = elim (c == b'"') [
  | true ↦ read_on inside (cell ++ (c ∷ [])) row s
  | false ↦ elim (c == b',') [
    | true ↦ read_on before [] (row ++ (cell ∷ [])) s
    | false ↦ elim (c == 13) [ true ↦ read_on returned [] (row ++ (cell ∷ [])) s | false ↦ none ]
  ]
]
read_on returned cell row [] = none
read_on returned cell row (c ∷ s) = elim (c == 10) [
  | true ↦ add_row row (read_on before [] [] s)
  | false ↦ none
]

unfoldable pub read_csv : Text → Option (List (List Text))
read_csv s = read_on before [] [] s

quote_eq : (c : ℕ) → (c == b'"') ≡ true → b'"' ≡ c
quote_eq c h = ground arith

inside_plain :
    (c : ℕ) (cell : Text) (row : List Text) (s : Text)
    → (c == b'"') ≡ false
    → read_on inside cell row (c ∷ s) ≡ read_on inside (cell ++ (c ∷ [])) row s
unfolding read_on
inside_plain c cell row s h = ground arith

double_quotes_plain :
    (c : ℕ) (s : Text) → (c == b'"') ≡ false → double_quotes (c ∷ s) ≡ c ∷ double_quotes s
unfolding double_quotes
double_quotes_plain c s h = rw h refl

regroup : (s t rest : Text) → ((s ++ (b'"' ∷ [])) ++ t) ++ rest ≡ s ++ (b'"' ∷ (t ++ rest))
regroup s t rest = append_assoc (s ++ (b'"' ∷ [])) t rest ∙ append_assoc s (b'"' ∷ []) (t ++ rest)

-- The text of a cell is read back up to its closing quote.
read_on-double_quotes :
    (s cell : Text) (row : List Text) (rest : Text)
    → read_on inside cell row (double_quotes s ++ (b'"' ∷ rest))
      ≡ read_on behind (cell ++ s) row rest
unfolding read_on double_quotes
read_on-double_quotes [] cell row rest = ap (λ t. read_on behind t row rest) (sym (append-nil cell))
read_on-double_quotes (c ∷ s) cell row rest = elim (Bool-cases (c == b'"')) [
  | inl quote ↦ rw quote (
      read_on-double_quotes s (cell ++ (b'"' ∷ [])) row rest
      ∙ ap (λ t. read_on behind t row rest)
          (append_assoc cell (b'"' ∷ []) s ∙ ap (λ d. cell ++ (d ∷ s)) (quote_eq c quote)))
  | inr plain ↦
      ap (λ t. read_on inside cell row (t ++ (b'"' ∷ rest))) (double_quotes_plain c s plain)
      ∙ inside_plain c cell row (double_quotes s ++ (b'"' ∷ rest)) plain
      ∙ read_on-double_quotes s (cell ++ (c ∷ [])) row rest
      ∙ ap (λ t. read_on behind t row rest) (append_assoc cell (c ∷ []) s)
]

-- What reads on behind a cell as the end of its row, with `next` for the rest.
abbrev Closes : Text → (List Text → Option (List (List Text))) → Type 0
Closes rest next =
    (cell : Text) (row : List Text) → read_on behind cell row rest ≡ next (row ++ (cell ∷ []))

-- A row is read back up to its end.
read_on-csv_row :
    (cell : Text) (cells row : List Text) (rest : Text)
    (next : List Text → Option (List (List Text)))
    → Closes rest next
    → read_on before [] row (csv_row (cell ∷ cells) ++ rest)
      ≡ next (row ++ map sanitize_cell (cell ∷ cells))
unfolding read_on quote_csv_cell join
read_on-csv_row cell [] row rest next closes =
    ap (λ t. read_on inside [] row t)
      (append_assoc (double_quotes (sanitize_cell cell)) (b'"' ∷ []) rest)
    ∙ read_on-double_quotes (sanitize_cell cell) [] row rest
    ∙ closes (sanitize_cell cell) row
read_on-csv_row cell (after ∷ cells) row rest next closes =
    ap (λ t. read_on inside [] row t)
      (regroup (double_quotes (sanitize_cell cell)) (b',' ∷ csv_row (after ∷ cells)) rest)
    ∙ read_on-double_quotes (sanitize_cell cell) [] row (b',' ∷ (csv_row (after ∷ cells) ++ rest))
    ∙ read_on-csv_row after cells (row ++ (sanitize_cell cell ∷ [])) rest next closes
    ∙ ap next (append_assoc row (sanitize_cell cell ∷ []) (map sanitize_cell (after ∷ cells)))

-- What follows a row in a file.
abbrev ended : List (List Text) → Text
ended [] = []
ended (row ∷ rows) = 13 ∷ 10 ∷ csv_of (row ∷ rows)

csv_of-ended :
    (row : List Text) (rows : List (List Text)) → csv_of (row ∷ rows) ≡ csv_row row ++ ended rows
unfolding csv_of join
csv_of-ended row [] = sym (append-nil (csv_row row))
csv_of-ended row (r ∷ rows) = refl

-- A row that has a cell.
abbrev pub HasCell : List Text → Type 0
HasCell [] = ⊥
HasCell (cell ∷ cells) = Unit

-- A file of rows that each have a cell is read back by the reader of quoted cells as the same rows, each cell
-- as `sanitizeCSVCell` leaves it, whatever quotes, commas and line ends the cells hold.
pub read_csv-csv_of :
    (row : List Text) (rows : List (List Text))
    → All HasCell (row ∷ rows)
    → read_csv (csv_of (row ∷ rows)) ≡ some (map (map sanitize_cell) (row ∷ rows))
unfolding read_csv read_on add_row
read_csv-csv_of [] rows h = absurd h.0
read_csv-csv_of (cell ∷ cells) [] h =
    ap (λ t. read_on before [] [] t) (csv_of-ended (cell ∷ cells) [])
    ∙ read_on-csv_row cell cells [] [] (λ row. some (row ∷ [])) (λ c r. refl)
read_csv-csv_of (cell ∷ cells) (row ∷ rows) h =
    ap (λ t. read_on before [] [] t) (csv_of-ended (cell ∷ cells) (row ∷ rows))
    ∙ read_on-csv_row cell cells [] (ended (row ∷ rows))
        (λ r. add_row r (read_csv (csv_of (row ∷ rows)))) (λ c r. refl)
    ∙ ap (add_row (map sanitize_cell (cell ∷ cells))) (read_csv-csv_of row rows h.1)
