-- ===== src/Records/Csv/Reader.antt =====
-- exportCsv of records.service.ts, and parseCsv of frontend/src/lib/csv.ts, which reads such a text.
use nocode_app.Base.{
  ℕ, Text, codes, Bool, true, false, ◌||◌, Option, none, some, List, [], ◌∷◌, ◌++◌, map, filter,
  any, if◌then◌else◌, ◌==◌,
}
use nocode_app.Json.{Json, Members, string, get}
use nocode_app.Records.Csv.{csv_cell}

-- What the loop of parseCsv keeps; `skips` stands for the second step of the index over a doubled quote.
pub record Scan : Type 0 where
  pub rows : List (List Text)
  pub row : List Text
  pub cell : Text
  pub in_quotes : Bool
  pub skips : Bool

abbrev pub is_quote : Option ℕ → Bool
is_quote none = false
is_quote (some c) = c == 34

abbrev pub next_of : Text → Option ℕ
next_of [] = none
next_of (c ∷ cs) = some c

abbrev pub quoted_step : Scan → ℕ → Option ℕ → Scan
quoted_step s c next =
    if c == 34
    then (if is_quote next
        then record s { cell = s.cell ++ 34 ∷ []; skips = true }
        else record s { in_quotes = false })
    else record s { cell = s.cell ++ c ∷ [] }

abbrev pub plain_step : Scan → ℕ → Scan
plain_step s c =
    if c == 34
    then record s { in_quotes = true }
    else if c == 44
    then record s { row = s.row ++ s.cell ∷ []; cell = [] }
    else if c == 10
    then record s { rows = s.rows ++ (s.row ++ s.cell ∷ []) ∷ []; row = []; cell = [] }
    else if c == 13
    then s
    else record s { cell = s.cell ++ c ∷ [] }

-- One turn: the character, and the one behind it.
unfoldable pub step : Scan → ℕ → Option ℕ → Scan
step s c next =
    if s.skips
    then record s { skips = false }
    else if s.in_quotes
    then quoted_step s c next
    else plain_step s c

unfoldable pub scan : Scan → Text → Scan
scan s [] = s
scan s (c ∷ cs) = scan (step s c (next_of cs)) cs

abbrev pub has_any {ℓ} : {A : Type ℓ} → List A → Bool
has_any [] = false
has_any (x ∷ xs) = true

-- `if (cell !== '' || row.length > 0)`
unfoldable pub finish_rows : Scan → List (List Text)
finish_rows s =
    if has_any s.cell || has_any s.row then s.rows ++ (s.row ++ s.cell ∷ []) ∷ [] else s.rows

abbrev pub without_mark : Text → Text
without_mark [] = []
without_mark (c ∷ cs) = if c == 65279 then cs else c ∷ cs

abbrev pub begin : Scan
begin = record { rows = []; row = []; cell = []; in_quotes = false; skips = false }

-- parseCsv
unfoldable pub parse_csv : Text → List (List Text)
parse_csv text = filter (any has_any) (finish_rows (scan begin (without_mark text)))

-- `xs.join(separator)`
unfoldable pub join_with : Text → List Text → Text
join_with separator [] = []
join_with separator (t ∷ []) = t
join_with separator (t ∷ u ∷ us) = t ++ separator ++ join_with separator (u ∷ us)

pub record ExportField : Type 0 where
  pub field_code : Text
  pub label : Text

pub record ExportRow (N : Type 0) : Type 0 where
  pub id : Text
  pub data_json : Members N

module _ {N : Type 0} (show : Json N → Text) where
  -- `cells.map(csvCell).join(',')`
  abbrev pub line : List (Json N) → Text
  line cells = join_with (44 ∷ []) (map (csv_cell show) cells)

  abbrev pub heading : List ExportField → List (Json N)
  heading fields = string (codes "レコードID") ∷ map (λ f. string f.label) fields

  abbrev pub cells_of : List ExportField → ExportRow N → List (Json N)
  cells_of fields r = string r.id ∷ map (λ f. get r.data_json f.field_code) fields

  -- exportCsv; the fields and the records stand in the order of their queries
  unfoldable pub export_csv : List ExportField → List (ExportRow N) → Text
  export_csv fields rows =
      65279
      ∷ join_with (13 ∷ 10 ∷ []) (line (heading fields) ∷ map (λ r. line (cells_of fields r)) rows)
