-- ===== src/Records/Input.antt =====
-- record-input.util.ts: which values of a request are written to a record. Numbers, and the length of
-- the text that JSON.stringify gives, are the language's: parameters.
pub mod Exact
use nocode_app.Base.{
  ℕ, zero, suc, ◌+◌, ◌≤◌, Text, codes, text_eq, text_eq_iff, has, Bool, true, false, not, ◌&&◌,
  ◌||◌, List, [], ◌∷◌, map, if◌then◌else◌, leb, length, filter, any, max, Result, ok, err,
  bad_request, ◌>>◌, ◌>>=◌, ◌==◌, require, bind_ok, require_ok, ◌≡◌, ◌↔◌, refl, arith, Bool-cases,
  inl, inr,
}
use nocode_app.Json.{
  Json, undefined, null, bool, string, array, object, number, Items, nil, item, Members, end,
  member, get, count,
}

abbrev pub max_text_length : ℕ
max_text_length = 100_000

abbrev pub max_array_items : ℕ
max_array_items = 1_000

abbrev pub max_subtable_rows : ℕ
max_subtable_rows = 1_000

abbrev pub max_record_chars : ℕ
max_record_chars = 2_000_000

abbrev pub max_depth : ℕ
max_depth = 10

-- FieldLike, less the label, which only error messages show
pub record FieldLike : Type 0 where
  pub field_code : Text
  pub field_type : Text
  pub required : Bool

-- The limit of an array in a value of the field.
unfoldable pub array_limit : FieldLike → ℕ
array_limit f =
    if text_eq f.field_type (codes "subtable") then max_subtable_rows else max_array_items

module _ {N : Type 0} where
  -- assertValueWithinLimits; false where it throws
  unfoldable mutual
    pub within : ℕ → ℕ → Json N → Bool
    within limit depth (string s) = leb depth max_depth && leb (length s) max_text_length
    within limit depth (array vs) =
        leb depth max_depth && leb (count vs) limit && within_items limit (depth + 1) vs
    within limit depth (object o) = leb depth max_depth && within_members limit (depth + 1) o
    within limit depth undefined = leb depth max_depth
    within limit depth null = leb depth max_depth
    within limit depth (bool b) = leb depth max_depth
    within limit depth (number n) = leb depth max_depth

    pub within_items : ℕ → ℕ → Items N → Bool
    within_items limit depth nil = true
    within_items limit depth (item v vs) = within limit depth v && within_items limit depth vs

    pub within_members : ℕ → ℕ → Members N → Bool
    within_members limit depth end = true
    within_members limit depth (member k v o) = within limit depth v && within_members limit depth o

  -- `hasOwnProperty.call(o, key)`
  unfoldable pub has_own : Members N → Text → Bool
  has_own end key = false
  has_own (member k v o) key = text_eq k key || has_own o key

  -- `o[key] = v`
  unfoldable pub set : Members N → Text → Json N → Members N
  set end key v = member key v end
  set (member k w o) key v =
      let rest = set o key v in if text_eq k key then member k v o else member k w rest

  -- The loop over the fields.
  unfoldable pub collect_fields : List FieldLike → Members N → Members N → Result (Members N)
  collect_fields [] source clean = ok clean
  collect_fields (f ∷ fs) source clean =
      if has_own source f.field_code
      then (require (within (array_limit f) 0 (get source f.field_code)) bad_request
          >> collect_fields fs source (set clean f.field_code (get source f.field_code)))
      else collect_fields fs source clean

  -- sanitizeRecordInput; `size` is the length of the text of JSON.stringify
  unfoldable pub sanitize_record_input :
      (size : Members N → ℕ) → List FieldLike → Members N → Result (Members N)
  sanitize_record_input size fields source = do
    let clean = (← collect_fields fields source end)
    require (leb (size clean) max_record_chars) bad_request
    ok clean

  -- `v === undefined || v === null || v === '' || (Array.isArray(v) && v.length === 0)`
  unfoldable pub is_missing : Json N → Bool
  is_missing undefined = true
  is_missing null = true
  is_missing (string []) = true
  is_missing (array nil) = true
  is_missing _ = false

  -- assertRequiredFilled
  unfoldable pub assert_required_filled : List FieldLike → Members N → Result (Unit {0})
  assert_required_filled fields values =
      require
        (length
            (filter (λ f. is_missing (get values f.field_code)) (filter (λ f. f.required) fields))
          == 0)
        bad_request
