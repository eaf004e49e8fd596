-- ===== src/Records/Csv/RoundTrip.antt =====
-- The export of an app, read back by the reader of the import: the same table of cells.
use nocode_app.Base.{
  Text, codes, true, List, [], ◌∷◌, map, filter, any, ◌≡◌, ◌≢◌, refl, ap, ◌∙◌, Bool-cases, inl, inr,
  Memᴰ,
}
use nocode_app.Json.{Json, string, get}
use nocode_app.Records.Csv.{quote_cell, guard_formula, leads_formula, raw_text, csv_cell}
use nocode_app.Records.Csv.Reader.{
  scan, has_any, finish_rows, begin, parse_csv, join_with, ExportField, ExportRow, line, heading,
  cells_of, export_csv,
}
use nocode_app.Records.Csv.Lines.{texts_line, Firsts, cells_row, lines_run, keeps_rows}

has_any-guard : (t : Text) → t ≢ [] → has_any (guard_formula t) ≡ true
unfolding guard_formula
has_any-guard [] h = absurd (h refl)
has_any-guard (c ∷ cs) h = elim (Bool-cases (leads_formula (c ∷ cs))) [
  | inl e ↦ rw e refl
  | inr e ↦ rw e refl
]

module _ {N : Type 0} (show : Json N → Text) where
  abbrev pub shown : Json N → Text
  shown v = guard_formula (raw_text show v)

  quoted_cells : (vs : List (Json N)) → map (csv_cell show) vs ≡ map quote_cell (map shown vs)
  unfolding csv_cell
  quoted_cells [] = refl
  quoted_cells (v ∷ vs) = ap (λ r. quote_cell (shown v) ∷ r) (quoted_cells vs)

  -- A row of an export as its first cell and the others.
  abbrev pair_of : List ExportField → ExportRow N → Text × List Text
  pair_of fields r =
      (shown (string r.id), map shown (map (λ f. get r.data_json f.field_code) fields))

  abbrev top : List ExportField → Text × List Text
  top fields = (shown (string (codes "レコードID")), map shown (map (λ f. string f.label) fields))

  lines_printed :
      (fields : List ExportField) (rows : List (ExportRow N))
      → map (λ r. line show (cells_of show fields r)) rows
        ≡ map (λ p. texts_line (cells_row p)) (map (pair_of fields) rows)
  lines_printed fields [] = refl
  lines_printed fields (r ∷ rs) =
      ap (λ t. join_with (44 ∷ []) t ∷ map (λ r. line show (cells_of show fields r)) rs)
        (quoted_cells (cells_of show fields r))
      ∙ ap (λ ls. texts_line (cells_row (pair_of fields r)) ∷ ls) (lines_printed fields rs)

  rows_shown :
      (fields : List ExportField) (rows : List (ExportRow N))
      → map cells_row (map (pair_of fields) rows)
        ≡ map (map shown) (map (cells_of show fields) rows)
  rows_shown fields [] = refl
  rows_shown fields (r ∷ rs) = ap (λ t. cells_row (pair_of fields r) ∷ t) (rows_shown fields rs)

  Firsts-pairs :
      (fields : List ExportField) (rows : List (ExportRow N))
      → ((s : Text) → show (string s) ≡ s)
      → ((r : ExportRow N) → Memᴰ r rows → r.id ≢ [])
      → Firsts (map (pair_of fields) rows)
  unfolding raw_text
  Firsts-pairs fields [] texts ids = tt
  Firsts-pairs fields (r ∷ rs) texts ids = (
    rw texts (has_any-guard r.id (ids r (Memᴰ.head refl))),
    Firsts-pairs fields rs texts (λ q m. ids q (Memᴰ.tail m)),
  )

  top_filled : ((s : Text) → show (string s) ≡ s) → has_any (shown (string (codes "レコードID"))) ≡ true
  unfolding raw_text
  top_filled texts = rw texts (has_any-guard (codes "レコードID") (λ e. cc))

  -- Where the text of a text is itself and no record has an empty id: what parseCsv reads from an export is
  -- the heading and a row for each record, each cell the text of its value behind the guard against formulas.
  pub parse-export :
      (fields : List ExportField) (rows : List (ExportRow N))
      → ((s : Text) → show (string s) ≡ s)
      → ((r : ExportRow N) → Memᴰ r rows → r.id ≢ [])
      → parse_csv (export_csv show fields rows)
        ≡ map (map shown) (heading show fields ∷ map (cells_of show fields) rows)
  unfolding parse_csv export_csv
  parse-export fields rows texts ids =
      let firsts : Firsts (top fields ∷ map (pair_of fields) rows) =
        (top_filled texts, Firsts-pairs fields rows texts ids) in
      ap (λ t. filter (any has_any) (finish_rows (scan begin (join_with (13 ∷ 10 ∷ []) t))))
        (ap (λ h. join_with (44 ∷ []) h ∷ map (λ r. line show (cells_of show fields r)) rows)
            (quoted_cells (heading show fields))
          ∙ ap (λ ls. texts_line (cells_row (top fields)) ∷ ls) (lines_printed fields rows))
      ∙ ap (filter (any has_any)) (lines_run [] (top fields) (map (pair_of fields) rows) firsts)
      ∙ keeps_rows (top fields ∷ map (pair_of fields) rows) firsts
      ∙ ap (λ t. cells_row (top fields) ∷ t) (rows_shown fields rows)
