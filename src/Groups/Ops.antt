-- ===== src/Groups/Ops.antt =====
-- The operations of GroupsService that read or write the tree (backend/src/groups/groups.service.ts).
-- Each takes the rows that it reads and returns the rows after it, or the exception; an operation
-- makes its one write, or one transaction, at its end.
pub mod Forest
pub mod Keeps
pub mod Removal
use nocode_app.Base.{
  ℕ, zero, suc, ◌+◌, ◌≤◌, ◌<◌, Text, codes, text_eq, text_eq_iff, text_eq_refl, opt_text_eq,
  opt_text_eq_iff, has, has-append, has-append_eq, has-singleton, present, NoDup, Bool, true, false,
  not, ◌&&◌, ◌||◌, Option, none, some, List, [], ◌∷◌, ◌++◌, map, if◌then◌else◌, length,
  length-append, filter, any, find, of_filter, to_filter, any_of_mem, mem_of_any, find-some,
  Failure, Result, ok, err, bad_request, conflict, forbidden, not_found, missing_row, no_fuel,
  ◌>>=◌, ◌>>◌, require, ◌≡◌, ◌≢◌, ◌↔◌, ◌⊎◌, inl, inr, ⊎_elim, refl, sym, ap, subst, ◌∙◌, arith,
  Memᴰ, Bool-cases, Option-cases, List-cases, add_id, to_set, has-add_id, has-to_set, NoDup-add_id,
  NoDup-to_set,
}
use nocode_app.Schema.{
  User, Group, App, AppPermission, Tables, find_user, find_app, find_group, system_admin, viewer,
  target_all, target_user, target_group, scope_owner, scope_org,
}
use nocode_app.Base.Int.{ℤ, pos, negsuc, ltb_ℤ, ◌+ℤ◌}
use nocode_app.Org.{children_map, get_children, push_all, collect}

pub record Directory : Type 0 where
  pub users : List User
  pub groups : List Group

-- `s || null`
unfoldable pub or_null : Option Text → Option Text
or_null none = none
or_null (some []) = none
or_null (some (c ∷ cs)) = some (c ∷ cs)

-- Equality of nullable columns, as in `where: { parentId }`.
unfoldable pub opt_eq : Option Text → Option Text → Bool
opt_eq none none = true
opt_eq (some a) (some b) = text_eq a b
opt_eq none (some b) = false
opt_eq (some a) none = false

-- descendantGroupIds
unfoldable pub descendant_group_ids : List Group → Text → Result (List Text)
descendant_group_ids groups id =
    elim (collect (length groups) (children_map groups) (id ∷ []) []
      (push_all (get_children (children_map groups) id) [])) [
        | none ↦ err no_fuel
        | some ids ↦ ok ids
      ]

unfoldable pub check_cycle : List Group → Text → Option Text → Result (Unit {0})
check_cycle groups parent_id none = ok tt
check_cycle groups parent_id (some id) = do
  below ← descendant_group_ids groups id
  require (not (has below parent_id)) bad_request

-- assertValidParent; `self_id` is `none` where the caller passes none, or an empty one.
unfoldable pub assert_valid_parent : List Group → Text → Option Text → Result (Unit {0})
assert_valid_parent groups parent_id self_id = do
  require (not (opt_text_eq self_id parent_id)) bad_request
  elim (find_group groups parent_id) [
    | none ↦ err not_found
    | some parent ↦ check_cycle groups parent_id self_id
  ]

-- `if (parentId) await this.assertValidParent(parentId, selfId)`
unfoldable pub check_parent : List Group → Option Text → Option Text → Result (Unit {0})
check_parent groups none self_id = ok tt
check_parent groups (some parent_id) self_id = assert_valid_parent groups parent_id self_id

-- `aggregate({ where: { parentId }, _max: { sortOrder } })`
unfoldable pub max_order : Option ℤ → List Group → Option ℤ
max_order best [] = best
max_order none (g ∷ gs) = max_order (some g.sort_order) gs
max_order (some m) (g ∷ gs) = max_order (some (if ltb_ℤ m g.sort_order then g.sort_order else m)) gs

-- nextSortOrder: `(max ?? -1) + 1`
unfoldable pub next_sort_order : List Group → Option Text → ℤ
next_sort_order groups parent_id =
    elim (max_order none (filter (λ g. opt_eq g.parent_id parent_id) groups)) [
      | none ↦ negsuc 0 +ℤ pos 1
      | some m ↦ m +ℤ pos 1
    ]

pub record NewGroup : Type 0 where
  pub name : Text
  pub description : Option Text
  pub parent_id : Option Text

unfoldable pub new_row : List Group → Text → NewGroup → Group
new_row groups id d = record {
  id = id;
  name = d.name;
  description = d.description;
  parent_id = or_null d.parent_id;
  sort_order = next_sort_order groups (or_null d.parent_id);
}

-- create; `id` is the key that the database makes
unfoldable pub create : List Group → Text → NewGroup → Result (List Group)
create groups id d = do
  check_parent groups (or_null d.parent_id) none
  ok (groups ++ new_row groups id d ∷ [])

-- A field that is `none` is left alone; `parent_id` may also be set to null.
pub record GroupPatch : Type 0 where
  pub name : Option Text
  pub description : Option Text
  pub parent_id : Option (Option Text)

unfoldable pub or_old {ℓ} : {A : Type ℓ} → Option A → A → A
or_old none old = old
or_old (some new) old = new

unfoldable pub patch_parent : Option (Option Text) → Option Text → Option Text
patch_parent none old = old
patch_parent (some p) old = or_null p

unfoldable pub patch_row : GroupPatch → Option ℤ → Group → Group
patch_row d moved g = record {
  id = g.id;
  name = or_old d.name g.name;
  description = elim d.description [ none ↦ g.description | some new ↦ some new ];
  parent_id = patch_parent d.parent_id g.parent_id;
  sort_order = or_old moved g.sort_order;
}

-- `update({ where: { id }, data })`
unfoldable pub update_rows : (Group → Group) → Text → List Group → List Group
update_rows f id groups = map (λ (g : Group). if text_eq g.id id then f g else g) groups

unfoldable pub update_row : (Group → Group) → Text → List Group → Result (List Group)
update_row f id groups = elim (find_group groups id) [
  | none ↦ err missing_row
  | some g ↦ ok (update_rows f id groups)
]

-- The order of the row at the end of its new siblings, where its parent changes.
unfoldable pub moved_order : List Group → Text → Option (Option Text) → Result (Option ℤ)
moved_order groups id none = ok none
moved_order groups id (some p) = do
  check_parent groups (or_null p) (or_null (some id))
  elim (find_group groups id) [
    | none ↦ err not_found
    | some current ↦
        if opt_eq (or_null current.parent_id) (or_null p)
        then ok none
        else ok (some (next_sort_order groups (or_null p)))
  ]

-- update
unfoldable pub update : List Group → Text → GroupPatch → Result (List Group)
update groups id d = do
  moved ← moved_order groups id d.parent_id
  update_row (patch_row d moved) id groups

-- `deleteMany({ where: { id: { in: ids } } })`; what named a deleted row is set to null.
unfoldable pub forget_deleted : List Text → Option Text → Option Text
forget_deleted ids none = none
forget_deleted ids (some g) = if has ids g then none else some g

unfoldable pub delete_groups : Directory → List Text → Directory
delete_groups db ids = record {
  users = map (λ (u : User). record u { group_id = forget_deleted ids u.group_id }) db.users;
  groups =
      map (λ (g : Group). record g { parent_id = forget_deleted ids g.parent_id })
        (filter (λ g. not (has ids g.id)) db.groups);
}

-- remove: the rows left, and how many ids were handed to the deletion
unfoldable pub remove : Directory → Text → Result (Directory × ℕ)
remove db id = elim (find_group db.groups id) [
  | none ↦ err not_found
  | some g ↦ do
    below ← descendant_group_ids db.groups id
    ok (delete_groups db (id ∷ below), length (id ∷ below))
]

unfoldable pub set_group : Option Text → Text → List User → List User
set_group group_id id users =
    map (λ (u : User). if text_eq u.id id then record u { group_id = group_id } else u) users

-- addMember
unfoldable pub add_member : Directory → Text → Text → Result Directory
add_member db group_id user_id = elim (find_user db.users user_id) [
  | none ↦ err not_found
  | some u ↦
      if opt_text_eq u.group_id group_id
      then err conflict
      else ok (record db { users = set_group (some group_id) user_id db.users })
]

-- removeMember
unfoldable pub remove_member : Directory → Text → Text → Directory
remove_member db group_id user_id = record db {
  users =
      map
        (λ (u : User).
          if text_eq u.id user_id && opt_text_eq u.group_id group_id
          then record u { group_id = none }
          else u)
        db.users;
}
