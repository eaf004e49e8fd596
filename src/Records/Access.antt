-- ===== src/Records/Access.antt =====
-- RecordsController (backend/src/records/records.controller.ts): what each call on records asks of the
-- permissions before the service, and the entry it leaves in the audit log. `db` is what the permissions
-- read, `s` the records; a request has passed the guard that knows the user and the role.
pub mod Mutations
pub mod Reading
use nocode_app.Base.{
  ℕ, Text, codes, text_eq, has, Bool, true, false, not, ◌&&◌, ◌||◌, Option, none, some, List, [],
  ◌∷◌, ◌++◌, if◌then◌else◌, Result, ok, err, forbidden, ◌>>=◌, ◌>>◌, require,
}
use nocode_app.Json.{get}
use nocode_app.Schema.{Tables}
use nocode_app.Permission.Rights.{
  Effective, Action, view, add, manage, effective, assert, own_mutation_flags,
}
use nocode_app.Permission.Scope.{
  Kind, for_view, for_edit, FieldScope, allowed_creator_ids, record_field_scope,
}
use nocode_app.Formula.Double.{Double}
use nocode_app.Formula.Rules.{text_of}
use nocode_app.Records.Service.{
  Values, Row, Comment, Store, find_row, found, create, update, duplicate, bulk_distribute,
}
use nocode_app.Records.Trash.{remove, bulk_remove}
use nocode_app.Records.Import.{Imported, import_rows, find_all}

pub data Mutation : Type 0 where
  editing deleting : Mutation

pub record AuditEntry : Type 0 where
  pub user_id : Text
  pub action_type : Text
  pub target_id : Text

-- `action === 'edit' ? perm.canEdit : perm.canDelete`, and the flag of the app for one's own records
abbrev pub has_action : Mutation → Effective → Bool
has_action editing perm = perm.can_edit
has_action deleting perm = perm.can_delete

abbrev pub own_flag : Mutation → Bool × Bool → Bool
own_flag editing flags = flags.0
own_flag deleting flags = flags.1

-- `!allowed || allowed.includes(recordCreatedBy)`
abbrev pub lets_through : Option (List Text) → Text → Bool
lets_through none creator = true
lets_through (some ids) creator = has ids creator

unfoldable pub assert_record_scope :
    Tables → Text → Kind → Bool → Text → Text → Text → Result (Unit {0})
assert_record_scope db app kind can_manage created_by user role = do
  allowed ← allowed_creator_ids db app user role kind can_manage
  require (lets_through allowed created_by) forbidden

unfoldable pub assert_can_mutate :
    Tables → Text → Mutation → Effective → Text → Text → Text → Result (Unit {0})
assert_can_mutate db app action perm created_by user role =
    if has_action action perm
    then assert_record_scope db app for_edit perm.can_manage created_by user role
    else if perm.can_add && text_eq created_by user
    then (own_mutation_flags db app >>= λ flags. require (own_flag action flags) forbidden)
    else err forbidden

module _ (D : Double) where
  -- getRecordMeta, of which the row is read whole
  unfoldable pub get_record_meta : Store D → Text → Result (Row D)
  get_record_meta s id = found D (find_row D s id)

  -- getRecordFieldValue: `String(rec.dataJson?.[field] ?? '')`
  unfoldable pub get_record_field_value : Store D → Text → Text → Result Text
  get_record_field_value s id field = do
    let rec = (← found D (find_row D s id))
    ok (text_of D (get rec.data_json field))

  unfoldable pub check_field_scope : Store D → Text → Option FieldScope → Result (Unit {0})
  check_field_scope s id none = ok tt
  check_field_scope s id (some scope) = do
    let value = (← get_record_field_value s id scope.field)
    require (has scope.user_ids value) forbidden

  unfoldable pub assert_record_field_scope :
      Tables → Store D → Text → Bool → Text → Text → Text → Result (Unit {0})
  assert_record_field_scope db s app can_manage id user role = do
    let scope = (← record_field_scope db app user role can_manage)
    check_field_scope s id scope

  -- What findOne, addComment and the first part of duplicate ask.
  unfoldable pub check_view : Tables → Store D → Text → Text → Text → Result (Row D)
  check_view db s id user role = do
    let meta = (← get_record_meta s id)
    let perm = (← assert db user role meta.app_id view)
    assert_record_scope db meta.app_id for_view perm.can_manage meta.created_by user role
    assert_record_field_scope db s meta.app_id perm.can_manage id user role
    ok meta

  -- What update and remove ask: the row and the rights of the user.
  unfoldable pub check_mutate :
      Mutation → Tables → Store D → Text → Text → Text → Result (Row D × Effective)
  check_mutate action db s id user role = do
    let meta = (← get_record_meta s id)
    let perm = (← effective db user role meta.app_id)
    assert_can_mutate db meta.app_id action perm meta.created_by user role
    assert_record_field_scope db s meta.app_id perm.can_manage id user role
    ok (meta, perm)

  abbrev pub scope_pair : Option FieldScope → Option (Text × List Text)
  scope_pair none = none
  scope_pair (some scope) = some (scope.field, scope.user_ids)

  abbrev pub Audited : Type 0
  Audited = Store D × AuditEntry

  abbrev pub entry : Text → Text → Text → AuditEntry
  entry user action target = record { user_id = user; action_type = action; target_id = target }

  unfoldable pub find_one_call : Tables → Store D → Text → Text → Text → Result (Row D)
  find_one_call db s id user role = check_view db s id user role

  unfoldable pub add_comment_call :
      Tables → Text → Text → Text → Text → Text → Store D → Result (Store D)
  add_comment_call db comment_id id text user role s = do
    let meta = (← check_view db s id user role)
    ok (record s {
      comments =
          s.comments
          ++ record { id = comment_id; record_id = id; user_id = user; comment = text } ∷ [];
    })

  unfoldable pub remove_call : Tables → Text → Text → ℕ → Text → Text → Store D → Result Audited
  remove_call db trash_id id now user role s = do
    let checked = (← check_mutate deleting db s id user role)
    let s' = (← remove D trash_id id user now s)
    ok (s', entry user (codes "RECORD_DELETE") id)

  -- Whose records bulkDelete may delete.
  unfoldable pub bulk_delete_creators :
      Tables → Text → Effective → Text → Text → Result (Option (List Text))
  bulk_delete_creators db app perm user role =
      if perm.can_delete
      then allowed_creator_ids db app user role for_edit perm.can_manage
      else if perm.can_add
      then (own_mutation_flags db app >>= λ flags.
          if flags.1 then ok (some (user ∷ [])) else err forbidden)
      else err forbidden

  unfoldable pub bulk_delete_call :
      Tables → List Text → Text → List Text → ℕ → Text → Text → Store D → Result Audited
  bulk_delete_call db trash_ids app ids now user role s = do
    let perm = (← effective db user role app)
    let allowed = (← bulk_delete_creators db app perm user role)
    let scope = (← record_field_scope db app user role perm.can_manage)
    let s' = (← bulk_remove D trash_ids app ids allowed (scope_pair scope) user now s)
    ok (s', entry user (codes "RECORD_BULK_DELETE") app)

  -- The listing without pages.
  unfoldable pub find_all_call :
      (includes : Text → Text → Bool) (lower : Text → Text)
      → Tables
      → Text
      → List (Text × Text)
      → Option Text
      → Text
      → Text
      → Store D
      → Result (List (Row D))
  find_all_call includes lower db app filters search user role s = do
    let perm = (← assert db user role app view)
    let allowed = (← allowed_creator_ids db app user role for_view perm.can_manage)
    let scope = (← record_field_scope db app user role perm.can_manage)
    ok (find_all D includes lower app filters search allowed (scope_pair scope) s)

  module _ (size : Values D → ℕ) (show : ℕ → Text) where
    unfoldable pub create_call :
        Tables → Text → ℕ → Text → Values D → Text → Text → Store D → Result Audited
    create_call db id now app values user role s = do
      let perm = (← assert db user role app add)
      let s' = (← create D size show id now app values user false s)
      ok (s', entry user (codes "RECORD_CREATE") id)

    unfoldable pub update_call :
        Tables → Text → Values D → ℕ → Text → Text → Store D → Result Audited
    update_call db id values expected user role s = do
      let checked = (← check_mutate editing db s id user role)
      let s' = (← update D size show id values user expected (checked.1).can_manage s)
      ok (s', entry user (codes "RECORD_UPDATE") id)

    unfoldable pub duplicate_call :
        Tables → Text → ℕ → Text → Text → Text → Store D → Result Audited
    duplicate_call db new_id now id user role s = do
      let meta = (← check_view db s id user role)
      let perm = (← assert db user role meta.app_id add)
      let s' = (← duplicate D size show new_id now id user s)
      ok (s', entry user (codes "RECORD_CREATE") new_id)

    unfoldable pub import_call :
        Tables
        → (ℕ → Text)
        → ℕ
        → Text
        → List (Values D)
        → Text
        → Text
        → Store D
        → Result (Imported D × AuditEntry)
    import_call db fresh now app rows user role s = do
      let perm = (← assert db user role app add)
      let r = (← import_rows D size show fresh now app user rows s)
      ok (r, entry user (codes "CSV_IMPORT") app)

    unfoldable pub bulk_distribute_call :
        Tables
        → List Text
        → ℕ
        → Text
        → Text
        → List Text
        → Values D
        → Text
        → Text
        → Store D
        → Result Audited
    bulk_distribute_call db ids now app field users base user role s = do
      let perm = (← assert db user role app add)
      let s' = (← bulk_distribute D size show ids now app field users base user s)
      ok (s', entry user (codes "RECORD_CREATE") app)
