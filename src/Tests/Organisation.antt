-- ===== src/Tests/Organisation.antt =====
-- The company of the tests: headquarters with a sales department and a team below it, and one
-- department apart.
use nocode_app.Base.{codes, some, none, true, false, List, [], ◌∷◌}
use nocode_app.Base.Int.{pos}
use nocode_app.Schema.{
  User, Group, App, AppPermission, Tables, target_group, scope_org, scope_owner,
}

abbrev pub hq : Group
hq = record {
  id = codes "hq";
  name = codes "HQ";
  description = none;
  parent_id = none;
  sort_order = pos 0;
}

abbrev pub sales : Group
sales = record {
  id = codes "sales";
  name = codes "Sales";
  description = none;
  parent_id = some (codes "hq");
  sort_order = pos 0;
}

abbrev pub team : Group
team = record {
  id = codes "team";
  name = codes "Team";
  description = none;
  parent_id = some (codes "sales");
  sort_order = pos 0;
}

abbrev pub lab : Group
lab = record {
  id = codes "lab";
  name = codes "Lab";
  description = none;
  parent_id = none;
  sort_order = pos 1;
}

abbrev pub company : List Group
company = hq ∷ sales ∷ team ∷ lab ∷ []

abbrev pub ann : User
ann = record { id = codes "ann"; role = codes "GroupAdmin"; group_id = some (codes "sales") }

abbrev pub bob : User
bob = record { id = codes "bob"; role = codes "StandardUser"; group_id = some (codes "team") }

abbrev pub eve : User
eve = record { id = codes "eve"; role = codes "StandardUser"; group_id = some (codes "lab") }

abbrev pub staff : List User
staff = ann ∷ bob ∷ eve ∷ []

abbrev pub crm : App
crm = record {
  id = codes "crm";
  created_by = codes "eve";
  record_view_scope = scope_org;
  record_edit_scope = scope_owner;
  record_scope_field = none;
  creator_edit_own = true;
  creator_delete_own = false;
}

abbrev pub crm_row : AppPermission
crm_row = record {
  app_id = codes "crm";
  target_type = target_group;
  target_id = some (codes "sales");
  can_view = true;
  can_add = true;
  can_edit = false;
  can_delete = false;
  can_manage = false;
}

abbrev pub tables : Tables
tables = record { users = staff; groups = company; apps = crm ∷ []; permissions = crm_row ∷ [] }
