-- ===== src/Records/Service.antt =====
-- RecordsService (backend/src/records/records.service.ts): the writes of records. Notifications and the
-- search index follow a write and do not change what is modelled; ids and times are arguments.
pub mod Lock
pub mod Patch
pub mod Once
use nocode_app.Base.{
  ℕ, zero, suc, ◌+◌, Text, codes, text_eq, has, present, Bool, true, false, not, ◌&&◌, ◌||◌, Option,
  none, some, List, [], ◌∷◌, ◌++◌, map, if◌then◌else◌, ◌==◌, length, filter, any, find, Result, ok,
  err, bad_request, conflict, forbidden, not_found, no_fuel, ◌>>=◌, ◌>>◌, require, to_set,
}
use nocode_app.Json.{
  Json, undefined, null, bool, string, array, object, number, Members, end, member, get,
}
use nocode_app.Formula.Double.{Double}
use nocode_app.Records.Input.{FieldLike, has_own, set, sanitize_record_input}
use nocode_app.Records.Computed.{Counter, Field, has_type, falsy, compute_new, compute_update}

module _ (D : Double) where
  abbrev pub Values : Type 0
  Values = Members D.Num

  pub record Row : Type 0 where
    pub id : Text
    pub app_id : Text
    pub created_by : Text
    pub updated_by : Text
    pub data_json : Values
    pub version : ℕ
    pub created_at : ℕ

  pub record History : Type 0 where
    pub record_id : Text
    pub changed_by : Text
    pub old_data : Values
    pub new_data : Values

  pub record Comment : Type 0 where
    pub id : Text
    pub record_id : Text
    pub user_id : Text
    pub comment : Text

  pub record Attachment : Type 0 where
    pub id : Text
    pub record_id : Option Text

  -- An action of a process: from a status to a status, with the field that names its approver.
  pub record ProcessAction : Type 0 where
    pub from : Json D.Num
    pub to : Json D.Num
    pub approver : Option Text

  pub record Process : Type 0 where
    pub enabled : Bool
    pub status_field : Option Text
    pub actions : List ProcessAction

  pub record AppRow : Type 0 where
    pub id : Text
    pub name : Text
    pub process_config : Option Process

  -- DeletedRecord with its snapshot
  pub record Trash : Type 0 where
    pub id : Text
    pub original : Row
    pub app_name : Text
    pub comments : List Comment
    pub histories : List History
    pub attachment_ids : List Text
    pub deleted_by : Text
    pub expires_at : ℕ

  pub record Store : Type 0 where
    pub apps : List AppRow
    pub user_ids : List Text
    pub fields : List (Field D)
    pub records : List Row
    pub histories : List History
    pub comments : List Comment
    pub attachments : List Attachment
    pub counters : List Counter
    pub trash : List Trash

  unfoldable pub find_row : Store → Text → Option Row
  find_row s id = find (λ r. text_eq r.id id) s.records

  unfoldable pub fields_of : Store → Text → List (Field D)
  fields_of s app = filter (λ f. text_eq f.app_id app) s.fields

  abbrev pub found {ℓ} : {A : Type ℓ} → Option A → Result A
  found none = err not_found
  found (some a) = ok a

  -- `{ ...a, ...b }`
  unfoldable pub spread : Values → Values → Values
  spread a end = a
  spread a (member k v b) = spread (set a k v) b

  -- `a === b` of two values that were parsed apart: arrays and objects are never the same
  unfoldable pub same_value : Json D.Num → Json D.Num → Bool
  same_value undefined undefined = true
  same_value null null = true
  same_value (bool a) (bool b) = if a then b else not b
  same_value (number a) (number b) = D.eq a b
  same_value (string a) (string b) = text_eq a b
  same_value _ _ = false

  -- assertProcessApprover, from the process of the app on; false where it throws
  unfoldable pub may_approve : Process → Text → Values → Values → Text → Bool → Bool
  may_approve p sf stored patch user can_manage =
      if not (has_own patch sf)
      then true
      else if same_value (get stored sf) (get patch sf)
      then true
      else elim (find (λ a. same_value a.from (get stored sf) && same_value a.to (get patch sf))
          p.actions) [
            | none ↦ true
            | some a ↦ elim a.approver [
              | none ↦ true
              | some field ↦
                  not (present (some field))
                  || can_manage
                  || falsy D (get stored field)
                  || text_eq (D.string_of (get stored field)) user
            ]
          ]

  abbrev pub in_process : Option Process → Values → Values → Text → Bool → Bool
  in_process none stored patch user can_manage = true
  in_process (some p) stored patch user can_manage =
      if p.enabled
      then elim p.status_field [
        | none ↦ true
        | some sf ↦
            if present (some sf) then may_approve p sf stored patch user can_manage else true
      ]
      else true

  abbrev pub process_of : Option AppRow → Option Process
  process_of none = none
  process_of (some a) = a.process_config

  unfoldable pub assert_process_approver : Store → Row → Values → Text → Bool → Result (Unit {0})
  assert_process_approver s existing patch user can_manage =
      require
        (in_process (process_of (find (λ a. text_eq a.id existing.app_id) s.apps))
          existing.data_json patch user can_manage)
        forbidden

  -- `where: { id, version }` of updateMany
  unfoldable pub is_current : Text → ℕ → Row → Bool
  is_current id v r = text_eq r.id id && r.version == v

  unfoldable pub write_rows : Text → ℕ → Values → Text → List Row → List Row
  write_rows id v written user [] = []
  write_rows id v written user (r ∷ rs) =
      let rest = write_rows id v written user rs in
      if is_current id v r
      then record r { data_json = written; updated_by = user; version = r.version + 1 } ∷ rest
      else r ∷ rest

  module _ (size : Values → ℕ) (show : ℕ → Text) where
    -- create; `trusted` leaves the values as they are
    unfoldable pub create : Text → ℕ → Text → Values → Text → Bool → Store → Result Store
    create id now app values user trusted s = do
      let clean =
          (← if trusted
            then ok values
            else sanitize_record_input size (map (λ f. f.like) (fields_of s app)) values)
      let computed = compute_new D show app (fields_of s app) clean s.counters
      ok (record s {
        records =
            s.records
            ++ record {
              id = id;
              app_id = app;
              created_by = user;
              updated_by = user;
              data_json = computed.0;
              version = 1;
              created_at = now;
            }
              ∷ [];
        counters = computed.1;
      })

    -- The writes of the transaction: the row if its version is still the expected one, and the history.
    unfoldable pub commit : Row → Text → Text → ℕ → Values → Store → Result Store
    commit existing id user expected written s = do
      require (length (filter (is_current id expected) s.records) == 1) conflict
      ok (record s {
        records = write_rows id expected written user s.records;
        histories =
            s.histories
            ++ record {
              record_id = id;
              changed_by = user;
              old_data = existing.data_json;
              new_data = written;
            }
              ∷ [];
      })

    -- The transaction of update, on the row that was read before it.
    unfoldable pub update_tx : Row → Text → Values → Text → ℕ → Store → Result Store
    update_tx existing id values user expected s = do
      let patch =
          (← sanitize_record_input size (map (λ f. f.like) (fields_of s existing.app_id)) values)
      commit existing id user expected
          (compute_update D (fields_of s existing.app_id) existing.data_json
            (spread existing.data_json patch))
          s

    -- What update checks on the state that it reads.
    unfoldable pub update_read : Text → Values → Text → ℕ → Bool → Store → Result Row
    update_read id values user expected can_manage s = do
      let existing = (← found (find_row s id))
      require (existing.version == expected) conflict
      assert_process_approver s existing values user can_manage
      ok existing

    unfoldable pub update : Text → Values → Text → ℕ → Bool → Store → Result Store
    update id values user expected can_manage s = do
      let existing = (← update_read id values user expected can_manage s)
      update_tx existing id values user expected s

    -- `delete data[f.fieldCode]` of the automatic numbers
    unfoldable pub without : Text → Values → Values
    without key end = end
    without key (member k v o) =
        let rest = without key o in if text_eq k key then rest else member k v rest

    unfoldable pub drop_numbers : List (Field D) → Values → Values
    drop_numbers [] values = values
    drop_numbers (f ∷ fs) values =
        if has_type D (codes "auto_number") f
        then drop_numbers fs (without f.like.field_code values)
        else drop_numbers fs values

    unfoldable pub duplicate : Text → ℕ → Text → Text → Store → Result Store
    duplicate new_id now id user s = do
      let existing = (← found (find_row s id))
      create new_id now existing.app_id
          (drop_numbers (fields_of s existing.app_id) existing.data_json) user true s

    -- The loop of bulkDistribute, with an id for each record; without one the model is cut off.
    unfoldable pub distribute :
        (List Text) → ℕ → Text → Text → List Text → Values → Text → Store → Result Store
    distribute ids now app code [] base actor s = ok s
    distribute [] now app code (u ∷ us) base actor s = err no_fuel
    distribute (id ∷ ids) now app code (u ∷ us) base actor s = do
      let s' = (← create id now app (set base code (string u)) actor false s)
      distribute ids now app code us base actor s'

    unfoldable pub bulk_distribute :
        List Text → ℕ → Text → Text → List Text → Values → Text → Store → Result Store
    bulk_distribute ids now app code users base actor s =
        if any (λ f. text_eq f.like.field_code code && has_type D (codes "user_select") f)
          (fields_of s app)
        then distribute ids now app code (filter (λ u. present (some u)) (to_set [] users)) base
            actor s
        else err bad_request
