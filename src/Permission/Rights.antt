-- ===== src/Permission/Rights.antt =====
-- The rights of a user over an app: getEffectivePermission, assert and the readers of an app's flags
-- (backend/src/permissions/permission.service.ts).
pub mod Exact
use nocode_app.Base.{
  ℕ, suc, ◌+◌, Text, codes, text_eq, opt_text_eq, has, present, Bool, true, false, not, ◌&&◌, ◌||◌,
  Option, none, some, List, [], ◌∷◌, ◌++◌, map, if◌then◌else◌, length, filter, any, find, Failure,
  Result, ok, err, forbidden, not_found, no_fuel, ◌>>=◌, ◌>>◌, require,
}
use nocode_app.Schema.{
  User, Group, App, AppPermission, Tables, find_user, find_app, system_admin, viewer, target_all,
  target_user, target_group, scope_owner, scope_org,
}

pub record Effective : Type 0 where
  pub can_view : Bool
  pub can_add : Bool
  pub can_edit : Bool
  pub can_delete : Bool
  pub can_manage : Bool

-- PermissionAction, `keyof EffectivePermission`
pub data Action : Type 0 where
  view add edit delete manage : Action

-- `perm[action]`
abbrev pub allows : Effective → Action → Bool
allows e view = e.can_view
allows e add = e.can_add
allows e edit = e.can_edit
allows e delete = e.can_delete
allows e manage = e.can_manage

-- ALL and NONE
abbrev pub all_allowed : Effective
all_allowed = record {
  can_view = true;
  can_add = true;
  can_edit = true;
  can_delete = true;
  can_manage = true;
}

abbrev pub none_allowed : Effective
none_allowed = record {
  can_view = false;
  can_add = false;
  can_edit = false;
  can_delete = false;
  can_manage = false;
}

-- `u?.groupId ? [u.groupId] : []`
abbrev pub group_list : Option Text → List Text
group_list none = []
group_list (some []) = []
group_list (some (c ∷ cs)) = (c ∷ cs) ∷ []

abbrev pub group_of : Option User → Option Text
group_of none = none
group_of (some u) = u.group_id

unfoldable pub my_group_ids : Tables → Text → List Text
my_group_ids db user_id = group_list (group_of (find_user db.users user_id))

-- `!!p.targetId && groupIds.includes(p.targetId)`
abbrev pub targets_group : List Text → Option Text → Bool
targets_group group_ids none = false
targets_group group_ids (some id) = present (some id) && has group_ids id

-- The filter that collects the permissions of rules 3 to 5.
unfoldable pub is_applicable : Text → List Text → AppPermission → Bool
is_applicable user_id group_ids p =
    text_eq p.target_type target_all
    || (text_eq p.target_type target_user && opt_text_eq p.target_id user_id)
    || (text_eq p.target_type target_group && targets_group group_ids p.target_id)

-- One round of `for (const p of applicable)`.
unfoldable pub join : Effective → AppPermission → Effective
join e p = record {
  can_view = e.can_view || p.can_view;
  can_add = e.can_add || p.can_add;
  can_edit = e.can_edit || p.can_edit;
  can_delete = e.can_delete || p.can_delete;
  can_manage = e.can_manage || p.can_manage;
}

unfoldable pub join_all : Effective → List AppPermission → Effective
join_all e [] = e
join_all e (p ∷ ps) = join_all (join e p) ps

-- A Viewer keeps the right to view alone.
unfoldable pub restrict : Text → Effective → Effective
restrict role e =
    if text_eq role viewer
    then record e { can_add = false; can_edit = false; can_delete = false; can_manage = false }
    else e

-- The rules for an app that is there and is not the user's own.
unfoldable pub granted : Tables → Text → Text → Text → Effective
granted db user_id role app_id = elim (filter (λ p. text_eq p.app_id app_id) db.permissions) [
  | [] ↦ none_allowed
  | p ∷ ps ↦
      restrict role
        (join_all none_allowed (filter (is_applicable user_id (my_group_ids db user_id)) (p ∷ ps)))
]

unfoldable pub effective_in : Tables → Text → Text → Text → Option App → Result Effective
effective_in db user_id role app_id none = err not_found
effective_in db user_id role app_id (some app) =
    if text_eq app.created_by user_id then ok all_allowed else ok (granted db user_id role app_id)

-- getEffectivePermission
unfoldable pub effective : Tables → Text → Text → Text → Result Effective
effective db user_id role app_id =
    if text_eq role system_admin
    then ok all_allowed
    else effective_in db user_id role app_id (find_app db.apps app_id)

-- assert
unfoldable pub assert : Tables → Text → Text → Text → Action → Result Effective
assert db user_id role app_id action = do
  perm ← effective db user_id role app_id
  require (allows perm action) forbidden
  ok perm

-- getOwnMutationFlags and getRecordScope
unfoldable pub own_mutation_flags : Tables → Text → Result (Bool × Bool)
own_mutation_flags db app_id = elim (find_app db.apps app_id) [
  | none ↦ err not_found
  | some app ↦ ok (app.creator_edit_own, app.creator_delete_own)
]

unfoldable pub record_scope : Tables → Text → Result (Text × Text)
record_scope db app_id = elim (find_app db.apps app_id) [
  | none ↦ err not_found
  | some app ↦ ok (app.record_view_scope, app.record_edit_scope)
]
