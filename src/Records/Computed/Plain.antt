-- ===== src/Records/Computed/Plain.antt =====
-- What computeFields leaves as it is.
use nocode_app.Base.{
  ℕ, Text, codes, text_eq, Bool, false, ◌&&◌, ◌||◌, List, [], ◌∷◌, any, ◌≡◌, refl, ◌∙◌, arith,
  Bool-cases, inl, inr,
}
use nocode_app.Json.{Json, undefined, null, bool, string, array, object, number, Members, get}
use nocode_app.Formula.Double.{Double}
use nocode_app.Records.Input.{set}
use nocode_app.Records.Input.Exact.{get-set}
use nocode_app.Records.Computed.{
  Counter, Column, Field, has_type, fill_number, fill_numbers, keep_number, keep_numbers,
  calc_subtable, calc_subtable_field, calc_subtables, calc_field, calc_fields, compute_new,
  compute_update, falsy,
}

module _ (D : Double) where
  -- A field whose value the server may fix: an automatic number, a calculated field or a subtable.
  abbrev pub is_computed : Field D → Bool
  is_computed f =
      has_type D (codes "auto_number") f
      || has_type D (codes "calc") f
      || has_type D (codes "subtable") f

  -- Whether a key is the code of such a field.
  abbrev pub is_fixed : List (Field D) → Text → Bool
  is_fixed fields key = any (λ f. is_computed f && text_eq f.like.field_code key) fields

  set_other :
      (o : Members D.Num) (k key : Text) (v : Json D.Num)
      → text_eq k key ≡ false
      → get (set o k v) key ≡ get o key
  set_other o k key v h = rw (get-set o k key v, h)

  module _ (key : Text) where
    keep_number_plain :
        (f : Field D) (stored values : Members D.Num)
        → (is_computed f && text_eq f.like.field_code key) ≡ false
        → get (keep_number D f stored values) key ≡ get values key
    unfolding keep_number
    keep_number_plain f stored values h =
        ground (arith, set_other values f.like.field_code key (get stored f.like.field_code))

    keep_numbers_plain :
        (fs : List (Field D)) (stored values : Members D.Num)
        → is_fixed fs key ≡ false
        → get (keep_numbers D fs stored values) key ≡ get values key
    unfolding keep_numbers any
    keep_numbers_plain [] stored values h = refl
    keep_numbers_plain (f ∷ fs) stored values h =
        keep_numbers_plain fs stored (keep_number D f stored values) (ground arith)
        ∙ keep_number_plain f stored values (ground arith)

    fill_number_plain :
        (show : ℕ → Text) (app : Text) (f : Field D) (values : Members D.Num)
        (counters : List Counter)
        → (is_computed f && text_eq f.like.field_code key) ≡ false
        → get (fill_number D show app f values counters).0 key ≡ get values key
    unfolding fill_number
    fill_number_plain show app f values counters h =
        elim (Bool-cases
          (has_type D (codes "auto_number") f && falsy D (get values f.like.field_code))) [
            | inl e ↦ rw e (set_other values f.like.field_code key _ (ground arith))
            | inr e ↦ rw e refl
          ]

    fill_numbers_plain :
        (show : ℕ → Text) (app : Text) (fs : List (Field D)) (values : Members D.Num)
        (counters : List Counter)
        → is_fixed fs key ≡ false
        → get (fill_numbers D show app fs values counters).0 key ≡ get values key
    unfolding fill_numbers any
    fill_numbers_plain show app [] values counters h = refl
    fill_numbers_plain show app (f ∷ fs) values counters h =
        fill_numbers_plain show app fs (fill_number D show app f values counters).0
          (fill_number D show app f values counters).1 (ground arith)
        ∙ fill_number_plain show app f values counters (ground arith)

    subtable_plain :
        (cs : List (Column D)) (rows : Json D.Num) (code : Text) (values : Members D.Num)
        → text_eq code key ≡ false
        → get (calc_subtable D cs rows code values) key ≡ get values key
    unfolding calc_subtable
    subtable_plain [] rows code values h = refl
    subtable_plain (c ∷ cs) (array rows) code values h = set_other values code key _ h
    subtable_plain (c ∷ cs) undefined code values h = refl
    subtable_plain (c ∷ cs) null code values h = refl
    subtable_plain (c ∷ cs) (bool b) code values h = refl
    subtable_plain (c ∷ cs) (string s) code values h = refl
    subtable_plain (c ∷ cs) (object o) code values h = refl
    subtable_plain (c ∷ cs) (number n) code values h = refl

    subtable_field_plain :
        (f : Field D) (values : Members D.Num)
        → (is_computed f && text_eq f.like.field_code key) ≡ false
        → get (calc_subtable_field D f values) key ≡ get values key
    unfolding calc_subtable_field
    subtable_field_plain f values h = elim (Bool-cases (has_type D (codes "subtable") f)) [
      | inl e ↦ rw e (subtable_plain _ _ _ values (ground arith))
      | inr e ↦ rw e refl
    ]

    subtables_plain :
        (fs : List (Field D)) (values : Members D.Num)
        → is_fixed fs key ≡ false
        → get (calc_subtables D fs values) key ≡ get values key
    unfolding calc_subtables any
    subtables_plain [] values h = refl
    subtables_plain (f ∷ fs) values h =
        subtables_plain fs (calc_subtable_field D f values) (ground arith)
        ∙ subtable_field_plain f values (ground arith)

    calc_field_plain :
        (f : Field D) (values : Members D.Num)
        → (is_computed f && text_eq f.like.field_code key) ≡ false
        → get (calc_field D f values) key ≡ get values key
    unfolding calc_field
    calc_field_plain f values h = elim (Bool-cases (has_type D (codes "calc") f)) [
      | inl e ↦ rw e (set_other values f.like.field_code key _ (ground arith))
      | inr e ↦ rw e refl
    ]

    calc_fields_plain :
        (fs : List (Field D)) (values : Members D.Num)
        → is_fixed fs key ≡ false
        → get (calc_fields D fs values) key ≡ get values key
    unfolding calc_fields any
    calc_fields_plain [] values h = refl
    calc_fields_plain (f ∷ fs) values h =
        calc_fields_plain fs (calc_field D f values) (ground arith)
        ∙ calc_field_plain f values (ground arith)

    pub compute_update_plain :
        (fs : List (Field D)) (stored values : Members D.Num)
        → is_fixed fs key ≡ false
        → get (compute_update D fs stored values) key ≡ get values key
    unfolding compute_update
    compute_update_plain fs stored values h =
        calc_fields_plain fs _ h ∙ subtables_plain fs _ h ∙ keep_numbers_plain fs stored values h

    pub compute_new_plain :
        (show : ℕ → Text) (app : Text) (fs : List (Field D)) (values : Members D.Num)
        (counters : List Counter)
        → is_fixed fs key ≡ false
        → get (compute_new D show app fs values counters).0 key ≡ get values key
    unfolding compute_new
    compute_new_plain show app fs values counters h =
        calc_fields_plain fs _ h
        ∙ subtables_plain fs _ h
        ∙ fill_numbers_plain show app fs values counters h
