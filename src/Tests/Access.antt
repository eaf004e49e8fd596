-- ===== src/Tests/Access.antt =====
-- The calls on records at the company of the tests: Ann of the sales department, who may view and add.
use nocode_app.Records.Import.{find_all}
use nocode_app.Permission.Scope.{
  scope_from, record_field_scope, org_scoped_user_ids, or_no_fuel, my_scope_group_ids,
  field_scope_in, creators_in, allowed_creator_ids,
}
use nocode_app.Org.{
  walk, push_all, index_parent, index_groups, get_children, children_map, add_child,
}
use nocode_app.Json.{get}
use nocode_app.Formula.Rules.{text_of}
use nocode_app.Base.{
  to_set, opt_text_eq, add_id, has, present, filter, codes, text_eq, none, [], ◌∷◌, ok, ◌≡◌, ◌↔◌,
  refl, Memᴰ, find,
}
use nocode_app.Permission.Rights.{
  assert, own_mutation_flags, join, my_group_ids, is_applicable, join_all, restrict, effective_in,
  granted, effective,
}
use nocode_app.Schema.{find_app, find_user}
use nocode_app.Records.Service.{
  fields_of, spread, is_current, write_rows, commit, update_tx, update_read, update,
  assert_process_approver, Row, Store, find_row,
}
use nocode_app.Records.Access.{
  check_field_scope, get_record_field_value, assert_record_scope, assert_record_field_scope,
  get_record_meta, editing, assert_can_mutate, check_mutate, find_one_call, find_all_call,
  update_call,
}
use nocode_app.Records.Access.Mutations.{Permitted, assert_can_mutate_exact, update_call-Permitted}
use nocode_app.Records.Access.Reading.{listed_iff_opened}
use nocode_app.Records.Input.{
  sanitize_record_input, collect_fields, has_own, within, array_limit, set,
}
use nocode_app.Records.Computed.{
  compute_update, keep_numbers, keep_number, calc_fields, calc_field, calc_subtables,
  calc_subtable_field, has_type,
}
use nocode_app.Tests.Formulas.{naturals}
use nocode_app.Tests.Organisation.{crm, tables}
use nocode_app.Tests.Permissions.{standard, seller_rights, not_equal}
use nocode_app.Tests.Records.{row, store, title_field, no_size, one_digit, request, clean}

abbrev order : Row naturals
order = record row { app_id = codes "crm" }

abbrev orders : Store naturals
orders = record store {
  records = order ∷ [];
  fields = (record title_field { app_id = codes "crm" }) ∷ [];
}

assert_can_mutate_exact_example :
    (assert_can_mutate tables
        (codes "crm")
        editing
        seller_rights
        (codes "ann")
        (codes "ann")
        standard
      ≡ ok tt)
    ↔ Permitted tables (codes "ann") editing seller_rights crm (codes "ann")
unfolding text_eq find_app find
assert_can_mutate_exact_example =
    assert_can_mutate_exact tables (codes "crm") (codes "ann") standard crm (not_equal _ _ refl)
      refl (not_equal _ _ refl) editing seller_rights (codes "ann")

check_run :
    check_mutate naturals editing tables orders (codes "r1") (codes "ann") standard
    ≡ ok (order, seller_rights)
unfolding check_mutate get_record_meta find_row find text_eq effective effective_in find_app
    assert_can_mutate granted filter restrict join_all is_applicable present has my_group_ids add_id
    opt_text_eq to_set text_of get add_child children_map get_children index_groups index_parent
    push_all walk join own_mutation_flags allowed_creator_ids creators_in field_scope_in
    my_scope_group_ids or_no_fuel org_scoped_user_ids record_field_scope scope_from
    assert_record_field_scope assert_record_scope get_record_field_value check_field_scope find_user
check_run = refl

list_run :
    find_all_call naturals text_eq
      (λ t. t)
      tables
      (codes "crm")
      []
      none
      (codes "ann")
      standard
      orders
    ≡ ok (order ∷ [])
unfolding find_all_call assert effective text_eq effective_in find_app find granted filter restrict
    join_all is_applicable present has my_group_ids find_user join add_id opt_text_eq to_set text_of
    get add_child children_map get_children index_groups index_parent push_all walk
    allowed_creator_ids creators_in field_scope_in my_scope_group_ids or_no_fuel org_scoped_user_ids
    record_field_scope scope_from find_all
list_run = refl

abbrev updated : Store naturals
updated = record orders {
  records = (record order { data_json = clean; updated_by = codes "ann"; version = 4 }) ∷ [];
  histories =
      record {
        record_id = codes "r1";
        changed_by = codes "ann";
        old_data = row.data_json;
        new_data = clean;
      }
      ∷ [];
}

update_run :
    update_call naturals no_size one_digit tables
      (codes "r1")
      request
      3
      (codes "ann")
      standard
      orders
    ≡ ok (
      updated,
      record { user_id = codes "ann"; action_type = codes "RECORD_UPDATE"; target_id = codes "r1" },
    )
unfolding update_call update update_read find_row find assert_process_approver text_eq update_tx
    commit fields_of filter sanitize_record_input collect_fields has_own within array_limit set get
    spread is_current write_rows compute_update keep_numbers keep_number calc_fields calc_field
    calc_subtables calc_subtable_field has_type
update_run = rw check_run refl

update_call-Permitted_example :
    Permitted tables
      (codes "ann")
      editing
      (granted tables (codes "ann") standard (codes "crm"))
      crm
      (codes "ann")
unfolding find_row text_eq find_app find
update_call-Permitted_example =
    update_call-Permitted naturals tables orders (codes "r1") (codes "ann") standard order crm refl
      (not_equal _ _ refl) refl (not_equal _ _ refl) no_size one_digit request 3 (_) (update_run)

listed_iff_opened_example :
    Memᴰ order (order ∷ [])
    ↔ (find_one_call naturals tables orders (codes "r1") (codes "ann") standard ≡ ok order)
unfolding find_row text_eq find
listed_iff_opened_example =
    listed_iff_opened naturals text_eq (λ t. t) tables orders (codes "ann") standard order refl
      (order ∷ []) (Memᴰ.head refl) list_run
