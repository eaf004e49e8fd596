-- ===== src/Tests/Departments.antt =====
-- The theorems on departments at the company of the tests, which is built by `create`.
use nocode_app.Base.{
  ℕ, Text, codes, text_eq, opt_text_eq, has, true, Option, none, some, List, [], ◌∷◌, filter, find,
  ok, err, bad_request, ◌≡◌, ◌↔◌, refl, Memᴰ,
}
use nocode_app.Schema.{Group, find_group}
use nocode_app.Org.{
  children_map, get_children, push_all, collect, index_groups, index_parent, add_child,
}
use nocode_app.Org.Reach.{Below}
use nocode_app.Org.Subtree.{IsSubtree}
use nocode_app.Base.Int.{◌+ℤ◌}
use nocode_app.Groups.Ops.{
  Directory, NewGroup, GroupPatch, create, update, remove, descendant_group_ids,
  assert_valid_parent, check_parent, or_null, new_row, next_sort_order, max_order, opt_eq,
  check_cycle, moved_order, update_row, update_rows, patch_row, patch_parent, or_old, delete_groups,
  forget_deleted,
}
use nocode_app.Groups.Ops.Forest.{
  IsForest, group_ids, descendant_group_ids_exact, assert_valid_parent_exact,
}
use nocode_app.Groups.Ops.Keeps.{create-IsForest, update-IsForest, nil-IsForest}
use nocode_app.Groups.Ops.Removal.{remove_exact, remove_members, remove-IsForest}
use nocode_app.Tests.Organisation.{hq, sales, team, lab, company, staff, bob, ann, eve}

abbrev placed : Text → Text → Option Text → NewGroup
placed id name parent = record { name = name; description = none; parent_id = parent }

hq-IsForest : IsForest (hq ∷ [])
unfolding create check_parent or_null new_row next_sort_order max_order filter opt_eq ◌+ℤ◌ has
hq-IsForest =
    create-IsForest [] (codes "hq") (placed (codes "hq") (codes "HQ") none) nil-IsForest refl refl

sales-IsForest : IsForest (hq ∷ sales ∷ [])
unfolding create check_parent or_null new_row next_sort_order max_order filter opt_eq ◌+ℤ◌ has
    text_eq opt_text_eq assert_valid_parent check_cycle find_group find
sales-IsForest =
    create-IsForest (hq ∷ []) (codes "sales")
      (placed (codes "sales") (codes "Sales") (some (codes "hq"))) hq-IsForest refl refl

team-IsForest : IsForest (hq ∷ sales ∷ team ∷ [])
unfolding create check_parent or_null new_row next_sort_order max_order filter opt_eq ◌+ℤ◌ has
    text_eq opt_text_eq assert_valid_parent check_cycle find_group find
team-IsForest =
    create-IsForest (hq ∷ sales ∷ []) (codes "team")
      (placed (codes "team") (codes "Team") (some (codes "sales"))) sales-IsForest refl refl

create-IsForest_example : IsForest company
unfolding create check_parent or_null new_row next_sort_order max_order filter opt_eq ◌+ℤ◌ has
    text_eq opt_text_eq assert_valid_parent check_cycle find_group find
create-IsForest_example =
    create-IsForest (hq ∷ sales ∷ team ∷ []) (codes "lab") (placed (codes "lab") (codes "Lab") none)
      team-IsForest refl refl

pub company-IsForest : IsForest company
unfolding create check_parent or_null new_row next_sort_order max_order filter opt_eq ◌+ℤ◌ has
    text_eq opt_text_eq assert_valid_parent check_cycle find_group find
company-IsForest =
    create-IsForest (hq ∷ sales ∷ team ∷ []) (codes "lab") (placed (codes "lab") (codes "Lab") none)
      team-IsForest refl refl

-- The lab moves below the team.
abbrev move : GroupPatch
move = record { name = none; description = none; parent_id = some (some (codes "team")) }

abbrev moved : List Group
moved =
    hq
    ∷ sales
    ∷ team
    ∷ (record lab { parent_id = some (codes "team"); sort_order = team.sort_order })
    ∷ []

update-IsForest_example : IsForest moved
unfolding update check_parent or_null next_sort_order max_order filter opt_eq ◌+ℤ◌ has text_eq
    opt_text_eq assert_valid_parent check_cycle find_group find moved_order update_row update_rows
    patch_row patch_parent or_old descendant_group_ids children_map get_children push_all collect
    index_groups index_parent add_child
update-IsForest_example = update-IsForest company (codes "lab") move company-IsForest (λ e. cc) refl

-- Headquarters cannot move below the team.
no_cycle :
    update company
      (codes "hq")
      (record { name = none; description = none; parent_id = some (some (codes "team")) })
    ≡ err bad_request
unfolding update check_parent or_null has text_eq opt_text_eq assert_valid_parent check_cycle
    find_group find moved_order descendant_group_ids children_map get_children push_all collect
    index_groups index_parent add_child
no_cycle = refl

assert_valid_parent_exact_example :
    (assert_valid_parent company (codes "team") (some (codes "hq")) ≡ ok tt) ↔ (
      (has (group_ids company) (codes "team") ≡ true)
      × (¬ Below company (codes "hq") (codes "team")))
assert_valid_parent_exact_example = assert_valid_parent_exact company (codes "team") (codes "hq")

descendant_group_ids_exact_example :
    (ids : List Text) × (descendant_group_ids company (codes "hq") ≡ ok ids)
    × IsSubtree company (codes "hq") (codes "hq" ∷ ids)
descendant_group_ids_exact_example = descendant_group_ids_exact company (codes "hq")

abbrev directory : Directory
directory = record { users = staff; groups = company }

abbrev without_sales : Directory
without_sales = record {
  users = (record ann { group_id = none }) ∷ (record bob { group_id = none }) ∷ eve ∷ [];
  groups = hq ∷ lab ∷ [];
}

sales_removed : remove directory (codes "sales") ≡ ok (without_sales, 2)
unfolding remove delete_groups filter forget_deleted has text_eq find_group find
    descendant_group_ids children_map get_children push_all collect index_groups index_parent
    add_child
sales_removed = refl

remove_exact_example :
    (db' : Directory) × (n : ℕ) × (remove directory (codes "sales") ≡ ok (db', n))
    × (Memᴰ hq db'.groups ↔ (Memᴰ hq company × (¬ Below company (codes "sales") (codes "hq"))))
unfolding has text_eq
remove_exact_example = remove_exact directory (codes "sales") company-IsForest hq refl

remove_members_example : ¬ Below company (codes "sales") (codes "lab")
remove_members_example =
    remove_members directory (codes "sales") company-IsForest eve (codes "lab") sales_removed
      (Memᴰ.tail (Memᴰ.tail (Memᴰ.head refl))) refl

remove-IsForest_example : IsForest (hq ∷ lab ∷ [])
remove-IsForest_example = remove-IsForest directory (codes "sales") company-IsForest sales_removed
