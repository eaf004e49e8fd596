-- ===== src/Records/Computed.antt =====
-- computeFields and nextSequence of records.service.ts: the automatic numbers and the calculated fields
-- that the server fixes.
pub mod Plain
use nocode_app.Base.{
  ℕ, ◌+◌, Text, codes, text_eq, Bool, true, false, not, ◌&&◌, ◌||◌, List, [], ◌∷◌, filter,
  if◌then◌else◌,
}
use nocode_app.Json.{
  Json, undefined, null, bool, string, array, object, number, Items, nil, item, Members, end, get,
}
use nocode_app.Formula.Double.{Double}
use nocode_app.Formula.Parser.{eval_formula}
use nocode_app.Formula.Rules.{RuleTable, eval_rules, format_auto_number}
use nocode_app.Records.Input.{FieldLike, has_own, set}

-- A counter of the Setting table, under `autonumber:app:field`.
pub record Counter : Type 0 where
  pub app_id : Text
  pub field_code : Text
  pub n : ℕ

-- nextSequence: one statement that makes the counter or adds one.
unfoldable pub next_sequence : List Counter → Text → Text → ℕ × List Counter
next_sequence [] app code = (1, record { app_id = app; field_code = code; n = 1 } ∷ [])
next_sequence (c ∷ cs) app code =
    let (n, rest) = next_sequence cs app code in
    if text_eq c.app_id app && text_eq c.field_code code
    then (c.n + 1, record c { n = c.n + 1 } ∷ cs)
    else (n, c ∷ rest)

module _ (D : Double) where
  -- The settings of a calculated field: `mode` is 'rules', or a formula (empty where there is none).
  pub data Calc : Type 0 where
    rules : RuleTable D → Calc
    formula : Text → Calc

  pub record Column : Type 0 where
    pub field_code : Text
    pub field_type : Text
    pub calc : Calc

  -- A field of an app; `settings` by what each type reads of them.
  pub record Field : Type 0 where
    pub app_id : Text
    pub like : FieldLike
    pub prefix : Text
    pub padding : ℕ
    pub calc : Calc
    pub columns : List Column

  unfoldable pub has_type : Text → Field → Bool
  has_type t f = text_eq f.like.field_type t

  unfoldable pub calc_value : Calc → Members D.Num → Json D.Num
  calc_value (rules table) values = eval_rules D table values
  calc_value (formula []) values = string []
  calc_value (formula (c ∷ cs)) values = eval_formula D (c ∷ cs) values

  -- `!v`
  unfoldable pub falsy : Json D.Num → Bool
  falsy undefined = true
  falsy null = true
  falsy (bool b) = not b
  falsy (number n) = D.is_nan n || D.eq n (D.of_nat 0)
  falsy (string []) = true
  falsy _ = false

  -- The automatic numbers of a new record.
  unfoldable pub fill_number :
      (ℕ → Text) → Text → Field → Members D.Num → List Counter → Members D.Num × List Counter
  fill_number show app f values counters =
      if has_type (codes "auto_number") f && falsy (get values f.like.field_code)
      then (let (n, rest) = next_sequence counters app f.like.field_code in
          (
            set values f.like.field_code (string (format_auto_number show n f.prefix f.padding)),
            rest,
          ))
      else (values, counters)

  unfoldable pub fill_numbers :
      (ℕ → Text) → Text → List Field → Members D.Num → List Counter → Members D.Num × List Counter
  fill_numbers show app [] values counters = (values, counters)
  fill_numbers show app (f ∷ fs) values counters =
      let (values', counters') = fill_number show app f values counters in
      fill_numbers show app fs values' counters'

  -- The automatic numbers of an update: those stored.
  unfoldable pub keep_number : Field → Members D.Num → Members D.Num → Members D.Num
  keep_number f stored values =
      if has_type (codes "auto_number") f && has_own stored f.like.field_code
      then set values f.like.field_code (get stored f.like.field_code)
      else values

  unfoldable pub keep_numbers : List Field → Members D.Num → Members D.Num → Members D.Num
  keep_numbers [] stored values = values
  keep_numbers (f ∷ fs) stored values = keep_numbers fs stored (keep_number f stored values)

  -- One row of a subtable: `{ ...(row || {}) }`, then its calculated columns in order.
  unfoldable pub calc_columns : List Column → Members D.Num → Members D.Num
  calc_columns [] row = row
  calc_columns (c ∷ cs) row = calc_columns cs (set row c.field_code (calc_value c.calc row))

  abbrev pub members_of : Json D.Num → Members D.Num
  members_of (object o) = o
  members_of _ = end

  unfoldable pub calc_rows : List Column → Items D.Num → Items D.Num
  calc_rows cs nil = nil
  calc_rows cs (item row rows) =
      item (object (calc_columns cs (members_of row))) (calc_rows cs rows)

  unfoldable pub calc_subtable : List Column → Json D.Num → Text → Members D.Num → Members D.Num
  calc_subtable [] rows code values = values
  calc_subtable (c ∷ cs) (array rows) code values =
      set values code (array (calc_rows (c ∷ cs) rows))
  calc_subtable (c ∷ cs) _ code values = values

  unfoldable pub calc_subtable_field : Field → Members D.Num → Members D.Num
  calc_subtable_field f values =
      if has_type (codes "subtable") f
      then calc_subtable (filter (λ c. text_eq c.field_type (codes "calc")) f.columns)
          (get values f.like.field_code) f.like.field_code values
      else values

  unfoldable pub calc_subtables : List Field → Members D.Num → Members D.Num
  calc_subtables [] values = values
  calc_subtables (f ∷ fs) values = calc_subtables fs (calc_subtable_field f values)

  unfoldable pub calc_field : Field → Members D.Num → Members D.Num
  calc_field f values =
      if has_type (codes "calc") f
      then set values f.like.field_code (calc_value f.calc values)
      else values

  unfoldable pub calc_fields : List Field → Members D.Num → Members D.Num
  calc_fields [] values = values
  calc_fields (f ∷ fs) values = calc_fields fs (calc_field f values)

  -- computeFields for a new record
  unfoldable pub compute_new :
      (ℕ → Text) → Text → List Field → Members D.Num → List Counter → Members D.Num × List Counter
  compute_new show app fields input counters =
      let (values, rest) = fill_numbers show app fields input counters in
      (calc_fields fields (calc_subtables fields values), rest)

  -- computeFields for an update
  unfoldable pub compute_update : List Field → Members D.Num → Members D.Num → Members D.Num
  compute_update fields stored input =
      calc_fields fields (calc_subtables fields (keep_numbers fields stored input))
