-- ===== src/Permission/Scope.antt =====
-- Whose records and which members a user reaches through the department tree
-- (backend/src/permissions/permission.service.ts).
pub mod Members
pub mod Decisions
use nocode_app.Base.{
  ℕ, suc, ◌+◌, Text, codes, text_eq, opt_text_eq, has, add_id, to_set, present, Bool, true, false,
  not, ◌&&◌, ◌||◌, Option, none, some, List, [], ◌∷◌, ◌++◌, map, if◌then◌else◌, length, filter, any,
  find, Failure, Result, ok, err, forbidden, not_found, no_fuel, ◌>>=◌, ◌>>◌, require,
}
use nocode_app.Schema.{
  User, Group, App, AppPermission, Tables, find_user, find_app, system_admin, viewer, target_all,
  target_user, target_group, scope_owner, scope_org,
}
use nocode_app.Org.{children_map, push_all, walk}
use nocode_app.Permission.Rights.{my_group_ids, group_of, targets_group}

unfoldable pub or_no_fuel {ℓ} : {A : Type ℓ} → Option A → Result A
or_no_fuel none = err no_fuel
or_no_fuel (some a) = ok a

-- The walk from the user's departments; the fuel is one more than the rows, and the start.
unfoldable pub scope_from : List Group → List Text → Result (List Text)
scope_from groups [] = ok []
scope_from groups (d ∷ direct) =
    or_no_fuel (walk (suc (length groups)) (children_map groups) [] (push_all (d ∷ direct) []))

-- myScopeGroupIds
unfoldable pub my_scope_group_ids : Tables → Text → Result (List Text)
my_scope_group_ids db user_id = scope_from db.groups (my_group_ids db user_id)

abbrev pub in_groups : List Text → User → Bool
in_groups ids u = elim u.group_id [ none ↦ false | some g ↦ has ids g ]

-- orgScopedUserIds
unfoldable pub org_scoped_user_ids : Tables → Text → Result (List Text)
org_scoped_user_ids db user_id = do
  scope ← my_scope_group_ids db user_id
  elim scope [
    | [] ↦ ok (user_id ∷ [])
    | g ∷ gs ↦ ok (
        add_id (to_set [] (map (λ (u : User). u.id) (filter (in_groups (g ∷ gs)) db.users)))
          user_id)
  ]

-- isUserInScope; `t?.groupId && groupIds.includes(t.groupId)`
unfoldable pub is_user_in_scope : Tables → Text → Text → Text → Result Bool
is_user_in_scope db admin_id role target_id =
    if text_eq role system_admin
    then ok true
    else if text_eq target_id admin_id
    then ok true
    else (do
      ids ← my_scope_group_ids db admin_id
      elim ids [
        | [] ↦ ok false
        | g ∷ gs ↦ ok (targets_group (g ∷ gs) (group_of (find_user db.users target_id)))
      ])

-- isGroupInScope
unfoldable pub is_group_in_scope : Tables → Text → Text → Text → Result Bool
is_group_in_scope db admin_id role group_id =
    if text_eq role system_admin
    then ok true
    else (do ids ← my_scope_group_ids db admin_id; ok (has ids group_id))

-- assertUserInScope and assertGroupInScope
unfoldable pub assert_user_in_scope : Tables → Text → Text → Text → Result (Unit {0})
assert_user_in_scope db admin_id role target_id = do
  inside ← is_user_in_scope db admin_id role target_id
  require inside forbidden

unfoldable pub assert_group_in_scope : Tables → Text → Text → Text → Result (Unit {0})
assert_group_in_scope db admin_id role group_id = do
  inside ← is_group_in_scope db admin_id role group_id
  require inside forbidden

pub data Kind : Type 0 where
  for_view for_edit : Kind

abbrev pub scope_of : Kind → App → Text
scope_of for_edit app = app.record_edit_scope
scope_of for_view app = app.record_view_scope

unfoldable pub creators_in : Tables → Text → Kind → Option App → Result (Option (List Text))
creators_in db user_id kind none = ok none
creators_in db user_id kind (some app) =
    if text_eq app.created_by user_id
    then ok none
    else if text_eq (scope_of kind app) scope_owner
    then ok (some (user_id ∷ []))
    else if text_eq (scope_of kind app) scope_org
    then (do ids ← org_scoped_user_ids db user_id; ok (some ids))
    else ok none

-- allowedCreatorIds: `none` is no restriction
unfoldable pub allowed_creator_ids :
    Tables → Text → Text → Text → Kind → Bool → Result (Option (List Text))
allowed_creator_ids db app_id user_id role kind can_manage =
    if text_eq role system_admin || can_manage
    then ok none
    else creators_in db user_id kind (find_app db.apps app_id)

pub record FieldScope : Type 0 where
  pub field : Text
  pub user_ids : List Text

unfoldable pub field_scope_in : Tables → Text → App → Option Text → Result (Option FieldScope)
field_scope_in db user_id app none = ok none
field_scope_in db user_id app (some []) = ok none
field_scope_in db user_id app (some (c ∷ cs)) =
    if text_eq app.created_by user_id then ok none else (do
      ids ← org_scoped_user_ids db user_id
      ok (some (record { field = c ∷ cs; user_ids = ids })))

-- recordFieldScope
unfoldable pub record_field_scope : Tables → Text → Text → Text → Bool → Result (Option FieldScope)
record_field_scope db app_id user_id role can_manage =
    if text_eq role system_admin || can_manage then ok none else elim (find_app db.apps app_id) [
      | none ↦ ok none
      | some app ↦ field_scope_in db user_id app app.record_scope_field
    ]
