-- ===== src/Records/Import.antt =====
-- importRows, findAll and the counts of references of records.service.ts.
pub mod Cells
pub mod Counts
use nocode_app.Base.{
  ℕ, zero, suc, ◌+◌, Text, codes, text_eq, has, present, Bool, true, false, not, ◌&&◌, ◌||◌, Option,
  none, some, List, [], ◌∷◌, map, if◌then◌else◌, leb, length, filter, any, Result, ok, err,
  bad_request, ◌>>=◌, ◌>>◌, require,
}
use nocode_app.Json.{Json, undefined, string, object, Members, end, member, get}
use nocode_app.Formula.Double.{Double}
use nocode_app.Formula.Rules.{text_of}
use nocode_app.Records.Input.{FieldLike, set}
use nocode_app.Records.Csv.{decode_csv_cell}
use nocode_app.Records.Computed.{Field, has_type}
use nocode_app.Records.Service.{Values, Row, Store, fields_of, create}

abbrev pub max_import_rows : ℕ
max_import_rows = 10_000

module _ (D : Double) where
  -- The defined fields of a row, decoded.
  unfoldable pub take_row : List Text → Values D → Values D → Values D
  take_row valid end taken = taken
  take_row valid (member k v raw) taken =
      let kept = if has valid k then set taken k (decode_csv_cell v) else taken in
      take_row valid raw kept

  -- `data[c] === undefined || data[c] === ''`
  abbrev pub is_blank_cell : Json D.Num → Bool
  is_blank_cell undefined = true
  is_blank_cell (string []) = true
  is_blank_cell _ = false

  unfoldable pub lacks_required : List (Field D) → Values D → Bool
  lacks_required fields values =
      any (λ f. f.like.required && is_blank_cell (get values f.like.field_code)) fields

  abbrev pub Imported : Type 0
  Imported = ℕ × List ℕ × Store D  -- created, the numbers of the rows with errors, the store

  module _ (size : Values D → ℕ) (show : ℕ → Text) (fresh : ℕ → Text) (now : ℕ)
      (app user : Text) where
    abbrev pub row_of : Values D → Store D → Values D
    row_of raw s = take_row (map (λ f. f.like.field_code) (fields_of D s app)) raw end

    -- The loop, from the row of index `i` on.
    unfoldable pub import_loop : ℕ → List (Values D) → Store D → Result Imported
    import_loop i [] s = ok (0, [], s)
    import_loop i (raw ∷ rows) s =
        if lacks_required (fields_of D s app) (row_of raw s)
        then (import_loop (i + 1) rows s >>= λ r. ok (r.0, (i + 1) ∷ r.1, r.2))
        else (create D size show (fresh i) now app (row_of raw s) user false s >>= λ s'.
            import_loop (i + 1) rows s' >>= λ r. ok (r.0 + 1, r.1, r.2))

    unfoldable pub import_rows : List (Values D) → Store D → Result Imported
    import_rows rows s = do
      require (leb (length rows) max_import_rows) bad_request
      import_loop 0 rows s

  -- `a.includes(b)` and the lower case of text are the language's.
  module _ (includes : Text → Text → Bool) (lower : Text → Text) where
    abbrev pub any_value : Text → Values D → Bool
    any_value key end = false
    any_value key (member k v o) = includes (lower (text_of D v)) key || any_value key o

    -- `if (!val) continue`, then the filter of one field
    abbrev pub passes : List (Text × Text) → Row D → Bool
    passes [] r = true
    passes (f ∷ fs) r =
        (not (present (some f.1)) || includes (text_of D (get r.data_json f.0)) f.1) && passes fs r

    abbrev pub by_creators : Option (List Text) → Row D → Bool
    by_creators none r = true
    by_creators (some users) r = has users r.created_by

    abbrev pub in_scope : Option (Text × List Text) → Row D → Bool
    in_scope none r = true
    in_scope (some scope) r = has scope.1 (text_of D (get r.data_json scope.0))

    abbrev pub matches_search : Option Text → Row D → Bool
    matches_search none r = true
    matches_search (some []) r = true
    matches_search (some (c ∷ cs)) r = any_value (lower (c ∷ cs)) r.data_json

    -- findAll; the rows of the table stand in the order of the query
    unfoldable pub find_all :
        Text
        → List (Text × Text)
        → Option Text
        → Option (List Text)
        → Option (Text × List Text)
        → Store D
        → List (Row D)
    find_all app filters search creators scope s = filter (matches_search search) (
        filter (passes filters) (
          filter (in_scope scope)
            (filter (λ r. text_eq r.app_id app && by_creators creators r) s.records)))

  -- `(r.dataJson as any)?.[code]?.id`
  abbrev pub reference_id : Json D.Num → Json D.Num
  reference_id (object o) = get o (codes "id")
  reference_id _ = undefined

  abbrev pub is_target : List Text → Json D.Num → Bool
  is_target ids (string id) = has ids id
  is_target ids _ = false

  -- The records of one pointing field, and countReferencing over the fields that point to an app.
  unfoldable pub count_field : List Text → Field D → List (Row D) → ℕ
  count_field ids f rows = length (
      filter
        (λ r.
          text_eq r.app_id f.app_id
          && is_target ids (reference_id (get r.data_json f.like.field_code)))
        rows)

  unfoldable pub count_referencing : List (Field D) → List Text → Store D → ℕ
  count_referencing [] ids s = 0
  count_referencing (f ∷ pointing) ids s =
      count_field ids f s.records + count_referencing pointing ids s

  unfoldable pub existing_ids : List Text → Store D → List Text
  existing_ids ids s = map (λ r. r.id) (filter (λ r. has ids r.id) s.records)
