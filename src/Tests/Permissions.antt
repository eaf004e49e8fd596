-- ===== src/Tests/Permissions.antt =====
-- The theorems on permissions at the company of the tests.
use mathlib.Core.List.Memᴰ
use nocode_app.Base.{
  Text, codes, text_eq, text_eq_iff, has, present, NoDup, Bool, true, false, Option, some, List,
  filter, find, ok, ◌≡◌, ◌≢◌, ◌↔◌, ◌⊎◌, refl, sym, ap, ◌∙◌, arith, Memᴰ,
}
use nocode_app.Schema.{AppPermission, find_user, find_app, scope_owner, scope_org}
use nocode_app.Permission.Rights.{
  Effective, effective, effective_in, granted, restrict, join_all, is_applicable, my_group_ids,
  join,
}
use nocode_app.Permission.Scope.{
  for_view, my_scope_group_ids, org_scoped_user_ids, is_user_in_scope, allowed_creator_ids,
}
use nocode_app.Permission.Scope.Members.{
  InOrg, IsScope, my_scope_group_ids_exact, org_scoped_user_ids_exact,
}
use nocode_app.Permission.Scope.Decisions.{
  Manages, Permits, is_user_in_scope_exact, allowed_creator_ids_exact,
}
use nocode_app.Permission.Visible.{visible_app_ids}
use nocode_app.Permission.Visible.Agrees.{visible_app_ids_agrees}
use nocode_app.Tests.Organisation.{crm, crm_row, tables}

abbrev pub standard : Text
standard = codes "StandardUser"

abbrev pub seller_rights : Effective
seller_rights = record {
  can_view = true;
  can_add = true;
  can_edit = false;
  can_delete = false;
  can_manage = false;
}

seller_may : effective tables (codes "ann") standard (codes "crm") ≡ ok seller_rights
unfolding effective text_eq find_app find filter has effective_in granted restrict join_all
    is_applicable present my_group_ids find_user join
seller_may = refl

pub not_equal : (a b : Text) → text_eq a b ≡ false → a ≢ b
not_equal a b h e = ground (arith, text_eq_iff a b)

row_named : (p : AppPermission) → Memᴰ p tables.permissions → p.target_id ≢ some (codes "__none__")
row_named p m e =
    let same : p ≡ crm_row = Memᴰ.eq_of_singleton m in
    let clash : ◌≡◌ {A = Option Text} (some (codes "sales")) (some (codes "__none__")) =
      ap (λ (r : AppPermission). r.target_id) (sym same) ∙ e in
    ground arith

visible_app_ids_agrees_example :
    (ids : List Text) × (visible_app_ids tables (codes "ann") standard ≡ some ids)
    × NoDup ids
    × ((has ids (codes "crm") ≡ true) ↔ (
        (e : Effective) × (effective tables (codes "ann") standard (codes "crm") ≡ ok e)
        × (e.can_view ≡ true)))
unfolding text_eq find_app find has
visible_app_ids_agrees_example =
    visible_app_ids_agrees tables (codes "ann") standard (codes "crm") crm (not_equal _ _ refl)
      (refl, tt) row_named refl

my_scope_group_ids_exact_example :
    (ids : List Text) × (my_scope_group_ids tables (codes "ann") ≡ ok ids)
    × IsScope tables (codes "ann") ids
my_scope_group_ids_exact_example = my_scope_group_ids_exact tables (codes "ann")

org_scoped_user_ids_exact_example :
    (ids : List Text) × (org_scoped_user_ids tables (codes "ann") ≡ ok ids)
    × NoDup ids
    × ((x : Text) → (has ids x ≡ true) ↔ InOrg tables (codes "ann") x)
org_scoped_user_ids_exact_example = org_scoped_user_ids_exact tables (codes "ann")

is_user_in_scope_exact_example :
    (b : Bool) × (is_user_in_scope tables (codes "ann") standard (codes "bob") ≡ ok b)
    × ((b ≡ true) ↔ Manages tables (codes "ann") standard (codes "bob"))
is_user_in_scope_exact_example = is_user_in_scope_exact tables (codes "ann") standard (codes "bob")

allowed_creator_ids_exact_example :
    (o : Option (List Text)) × (allowed_creator_ids tables
        (codes "crm")
        (codes "ann")
        standard
        for_view
        false
      ≡ ok o)
    × (Permits o (codes "bob") ↔ (
        (codes "bob" ≡ codes "ann")
        ⊎ ((scope_org ≡ scope_org) × InOrg tables (codes "ann") (codes "bob"))
        ⊎ ((scope_org ≢ scope_org) × (scope_org ≢ scope_owner))))
unfolding text_eq find_app find
allowed_creator_ids_exact_example =
    allowed_creator_ids_exact tables (codes "crm") (codes "ann") standard for_view crm (codes "bob")
      (not_equal _ _ refl) refl (not_equal _ _ refl)
