-- ===== src/Tests/Records.antt =====
-- Records of a small app, with natural numbers in the place of doubles.
use nocode_app.Base.{
  Bool, false, has, any, filter, ℕ, ◌+◌, Text, codes, text_eq, true, false, [], ◌∷◌, if◌then◌else◌,
  none, some, ok, ◌≡◌, ◌≢◌, ◌↔◌, ◌⊎◌, refl, Memᴰ, find, ◌≤◌, arith, inl, inr,
}
use mathlib.Core.List.Memᴰ
use nocode_app.Json.{Json, undefined, string, Members, end, member, get}
use nocode_app.Records.Input.{
  FieldLike, array_limit, within, has_own, set, collect_fields, sanitize_record_input,
  max_record_chars,
}
use nocode_app.Records.Input.Exact.{kept, AllFit, sanitize_record_input_exact}
use nocode_app.Records.Csv.{
  decode_text, guard_formula, leads_formula, is_lead, csv_cell, decode_csv_cell, looks_guarded,
  decode-guard, raw_text,
}
use nocode_app.Records.Csv.Reader.{scan, begin}
use nocode_app.Records.Csv.Safe.{Harmless, csv_cell_safe}
use nocode_app.Records.Computed.{
  Field, formula, compute_update, compute_new, fill_numbers, fill_number, keep_numbers, keep_number,
  calc_fields, calc_field, calc_subtables, calc_subtable_field, has_type,
}
use nocode_app.Records.Service.{
  Row, Trash, Store, AppRow, find_row, fields_of, spread, is_current, write_rows, commit, create,
  update_tx, update_read, update, assert_process_approver,
}
use nocode_app.Records.Service.Lock.{Committed, Written, update_exact}
use nocode_app.Records.Service.Patch.{HasDistinctKeys}
use nocode_app.Records.Service.Once.{still, updated, update_once}
use nocode_app.Records.Trash.{find_app_row, find_trash, remove, restore_trash}
use nocode_app.Records.Trash.Restore.{Restored, restore-remove}
use nocode_app.Records.Import.{import_rows, import_loop, lacks_required, take_row, max_import_rows}
use nocode_app.Records.Import.Counts.{Counted, import_rows_counts}
use nocode_app.Tests.Formulas.{naturals}

abbrev title : FieldLike
title = record { field_code = codes "title"; field_type = codes "text"; required = true }

abbrev pub request : Members ℕ
request =
    member (codes "title") (string (codes "hello"))
      (member (codes "hidden") (string (codes "x")) end)

abbrev pub clean : Members ℕ
clean = member (codes "title") (string (codes "hello")) end

abbrev pub no_size : Members ℕ → ℕ
no_size o = 0

sanitized : sanitize_record_input no_size (title ∷ []) request ≡ ok clean
unfolding sanitize_record_input collect_fields has_own within array_limit set get text_eq
sanitized = refl

sanitize_record_input_exact_example :
    ((key : Text)
      → get clean key ≡ (if kept (title ∷ []) request key then get request key else undefined))
    × AllFit (title ∷ []) request
    × (no_size clean ≤ max_record_chars)
sanitize_record_input_exact_example =
    sanitize_record_input_exact no_size (title ∷ []) request sanitized

decode-guard_example :
    (decode_text (guard_formula (codes "'=1")) ≡ codes "'=1")
    ↔ (looks_guarded (codes "'=1") ≡ false)
decode-guard_example = decode-guard (codes "'=1")

-- An apostrophe that a user wrote before an equals sign is lost.
apostrophe_lost : decode_text (guard_formula (codes "'=1")) ≡ codes "=1"
unfolding decode_text guard_formula leads_formula is_lead
apostrophe_lost = refl

abbrev text_show : Json ℕ → Text
text_show (string s) = s
text_show _ = []

csv_cell_safe_example :
    let seen = (scan begin (csv_cell text_show (string (codes "=1,2")))).cell in
    let raw = raw_text text_show (string (codes "=1,2")) in
    Harmless seen × ((seen ≡ raw) ⊎ (seen ≡ 39 ∷ raw))
csv_cell_safe_example = csv_cell_safe text_show (string (codes "=1,2"))

abbrev pub title_field : Field naturals
title_field = record {
  app_id = codes "app";
  like = title;
  prefix = [];
  padding = 0;
  calc = formula [];
  columns = [];
}

abbrev pub row : Row naturals
row = record {
  id = codes "r1";
  app_id = codes "app";
  created_by = codes "ann";
  updated_by = codes "ann";
  data_json = member (codes "title") (string (codes "old")) end;
  version = 3;
  created_at = 10;
}

abbrev pub store : Store naturals
store = record {
  apps = record { id = codes "app"; name = codes "App"; process_config = none } ∷ [];
  user_ids = codes "bob" ∷ [];
  fields = title_field ∷ [];
  records = row ∷ [];
  histories = [];
  comments = [];
  attachments = [];
  counters = [];
  trash = [];
}

abbrev written : Store naturals
written = record store {
  records = (record row { data_json = clean; updated_by = codes "bob"; version = 4 }) ∷ [];
  histories =
      record {
        record_id = codes "r1";
        changed_by = codes "bob";
        old_data = row.data_json;
        new_data = clean;
      }
      ∷ [];
}

abbrev pub one_digit : ℕ → Text
one_digit n = (48 + n) ∷ []

update_tx_run :
    update_tx naturals no_size one_digit row (codes "r1") request (codes "bob") 3 store ≡ ok written
unfolding update_tx commit fields_of filter text_eq sanitize_record_input collect_fields has_own
    within array_limit set get spread is_current write_rows compute_update keep_numbers keep_number
    calc_fields calc_field calc_subtables calc_subtable_field has_type
update_tx_run = refl

update_run :
    update naturals no_size one_digit (codes "r1") request (codes "bob") 3 false store ≡ ok written
unfolding update update_read find_row find assert_process_approver text_eq update_tx commit
    fields_of filter sanitize_record_input collect_fields has_own within array_limit set get spread
    is_current write_rows compute_update keep_numbers keep_number calc_fields calc_field
    calc_subtables calc_subtable_field has_type
update_run = refl

update_exact_example :
    (old : Row naturals) × (w : Members ℕ) × (find_row naturals store (codes "r1") ≡ some old)
    × (old.version ≡ 3)
    × Committed naturals no_size one_digit store written (codes "r1") (codes "bob") old w
    × Written naturals no_size one_digit
        (fields_of naturals store old.app_id)
        old.data_json
        request
        w
update_exact_example =
    update_exact naturals no_size one_digit (codes "r1") (codes "bob") request 3 false store
      update_run

-- Another user goes on from the new version, with a request that changes nothing.
abbrev written_again : Store naturals
written_again = record written {
  records = (record row { data_json = row.data_json; updated_by = codes "eve"; version = 5 }) ∷ [];
  histories =
      record {
        record_id = codes "r1";
        changed_by = codes "bob";
        old_data = row.data_json;
        new_data = clean;
      }
      ∷ record {
        record_id = codes "r1";
        changed_by = codes "eve";
        old_data = row.data_json;
        new_data = row.data_json;
      }
      ∷ [];
}

again_run :
    update_tx naturals no_size one_digit row (codes "r1") end (codes "eve") 4 written
    ≡ ok written_again
unfolding update_tx commit fields_of filter text_eq sanitize_record_input collect_fields has_own
    within array_limit set get spread is_current write_rows compute_update keep_numbers keep_number
    calc_fields calc_field calc_subtables calc_subtable_field has_type
again_run = refl

newest_row : (r : Row naturals) → Memᴰ r store.records → r.id ≡ codes "r1" → 3 ≤ r.version
newest_row r m own = rw (Memᴰ.eq_of_singleton m) (omega arith)

none_buried : (t : Trash naturals) → Memᴰ t store.trash → t.original.id ≢ codes "r1"
none_buried t m = absurd (Memᴰ.not-nil m)

update_once_example :
    update_tx naturals no_size one_digit row (codes "r1") end (codes "ann") 3 written_again
    ≢ ok store
update_once_example =
    update_once naturals no_size one_digit (codes "r1") (codes "bob") (codes "ann") request end 3
      row row store written written_again store newest_row none_buried update_tx_run
      (updated row (codes "r1") (codes "eve") end 4 still again_run)

abbrev app_row : AppRow naturals
app_row = record { id = codes "app"; name = codes "App"; process_config = none }

restore-remove_example :
    (s' : Store naturals) × (s'' : Store naturals) × (r' : Row naturals) × (remove naturals
        (codes "t1")
        (codes "r1")
        (codes "bob")
        100
        store
      ≡ ok s')
    × (find_row naturals s' (codes "r1") ≡ none)
    × (restore_trash naturals (codes "t1") (codes "bob") s' ≡ ok s'')
    × (find_row naturals s'' (codes "r1") ≡ some r')
    × Restored naturals store (codes "bob") row r'
unfolding find_row find_app_row find_trash find text_eq
restore-remove_example =
    restore-remove naturals (codes "t1") (codes "r1") (codes "bob") (codes "bob") 100 store row
      app_row refl refl refl

abbrev no_id : ℕ → Text
no_id i = one_digit i

abbrev empty_row : Members ℕ
empty_row = end

abbrev imported : Store naturals
imported = record store {
  records =
      row
      ∷ record {
        id = one_digit 1;
        app_id = codes "app";
        created_by = codes "bob";
        updated_by = codes "bob";
        data_json = clean;
        version = 1;
        created_at = 50;
      }
      ∷ [];
}

import_run :
    import_rows naturals no_size one_digit no_id 50
      (codes "app")
      (codes "bob")
      (empty_row ∷ request ∷ [])
      store
    ≡ ok (1, 1 ∷ [], imported)
unfolding import_rows import_loop lacks_required any take_row fields_of filter text_eq get set has
    decode_csv_cell decode_text leads_formula is_lead create sanitize_record_input collect_fields
    has_own within array_limit compute_new fill_numbers fill_number calc_fields calc_field
    calc_subtables calc_subtable_field has_type
import_run = refl

no_key_twice : (raw : Members ℕ) → Memᴰ raw (empty_row ∷ request ∷ []) → HasDistinctKeys raw
unfolding has_own text_eq
no_key_twice raw m = elim (Memᴰ.cases_cons m) [
  | inl e ↦ rw e tt
  | inr t ↦ rw (Memᴰ.eq_of_singleton t) (refl, (refl, tt))
]

import_rows_counts_example :
    (2 ≤ max_import_rows)
    × Counted naturals no_size one_digit no_id 50
        (codes "app")
        (codes "bob")
        (empty_row ∷ request ∷ [])
        store
        (fields_of naturals store (codes "app"))
        0
        (1, 1 ∷ [], imported)
import_rows_counts_example =
    import_rows_counts naturals no_size one_digit no_id 50 (codes "app") (codes "bob")
      (empty_row ∷ request ∷ []) store no_key_twice import_run

abbrev never : Text → Text → Bool
never a b = false

abbrev same : Text → Text
same s = s
