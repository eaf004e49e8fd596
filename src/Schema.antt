-- ===== src/Schema.antt =====
-- The rows of backend/prisma/schema.prisma that the organisation and the permissions read. A table
-- is the list of its rows; the columns that only the display uses are left out.
use nocode_app.Base.Int.{ℤ}
use nocode_app.Base.{codes, Text, text_eq, Bool, Option, List, find}

pub record User : Type 0 where
  pub id : Text
  pub role : Text
  pub group_id : Option Text

pub record Group : Type 0 where
  pub id : Text
  pub name : Text
  pub description : Option Text
  pub parent_id : Option Text
  pub sort_order : ℤ

pub record App : Type 0 where
  pub id : Text
  pub created_by : Text
  pub record_view_scope : Text
  pub record_edit_scope : Text
  pub record_scope_field : Option Text
  pub creator_edit_own : Bool
  pub creator_delete_own : Bool

pub record AppPermission : Type 0 where
  pub app_id : Text
  pub target_type : Text
  pub target_id : Option Text
  pub can_view : Bool
  pub can_add : Bool
  pub can_edit : Bool
  pub can_delete : Bool
  pub can_manage : Bool

-- `findUnique({ where: { id } })`
unfoldable pub find_user : List User → Text → Option User
find_user users id = find (λ u. text_eq u.id id) users

unfoldable pub find_group : List Group → Text → Option Group
find_group groups id = find (λ g. text_eq g.id id) groups

unfoldable pub find_app : List App → Text → Option App
find_app apps id = find (λ a. text_eq a.id id) apps

-- What one call of a service reads of the database.
pub record Tables : Type 0 where
  pub users : List User
  pub groups : List Group
  pub apps : List App
  pub permissions : List AppPermission

-- The values of the text columns that the code compares with.
abbrev pub system_admin : Text
system_admin = codes "SystemAdmin"

abbrev pub viewer : Text
viewer = codes "Viewer"

abbrev pub target_all : Text
target_all = codes "All"

abbrev pub target_user : Text
target_user = codes "User"

abbrev pub target_group : Text
target_group = codes "Group"

abbrev pub scope_owner : Text
scope_owner = codes "owner"

abbrev pub scope_org : Text
scope_org = codes "org"
