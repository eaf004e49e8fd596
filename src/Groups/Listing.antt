-- ===== src/Groups/Listing.antt =====
-- The listings of groups.service.ts. The orders of the queries, the comparison `contains` of the database and
-- `trim` are parameters.
pub mod Bounds
use nocode_app.Base.{
  ℕ, zero, suc, ◌-◌, ◌*◌, min, max, Text, text_eq, opt_text_eq, has, present, Bool, true, false,
  not, ◌&&◌, ◌||◌, Option, none, some, List, [], ◌∷◌, map, filter, length, take, drop,
  if◌then◌else◌, Result, ok, err, not_found,
}
use nocode_app.Base.Int.{ℤ, pos, pos_part}
use nocode_app.Schema.{User, Group, find_user, find_group}
use nocode_app.Groups.Ops.{Directory, opt_eq}

-- A department with the counts of its members and of those right below it.
pub record Summary : Type 0 where
  pub group : Group
  pub member_count : ℕ
  pub child_count : ℕ

abbrev pub summary : Directory → Group → Summary
summary db g = record {
  group = g;
  member_count = length (filter (λ u. opt_text_eq u.group_id g.id) db.users);
  child_count = length (filter (λ c. opt_text_eq c.parent_id g.id) db.groups);
}

-- findMeta
unfoldable pub find_meta : Directory → Text → Result Summary
find_meta db id = elim (find_group db.groups id) [
  | none ↦ err not_found
  | some g ↦ ok (summary db g)
]

module _ (in_order : List Group → List Group) where
  -- findChildren
  unfoldable pub find_children : Directory → Option Text → List Summary
  find_children db parent_id =
      map (summary db) (in_order (filter (λ g. opt_eq g.parent_id parent_id) db.groups))

  abbrev pub group_of_user : Option User → Option Text
  group_of_user none = none
  group_of_user (some u) = u.group_id

  abbrev pub roots_of : Directory → Option Text → List Summary
  roots_of db none = []
  roots_of db (some []) = []
  roots_of db (some (c ∷ cs)) = map (summary db) (
      filter (λ g. not (present g.parent_id && opt_text_eq g.parent_id (c ∷ cs)))
        (in_order (filter (λ g. text_eq g.id (c ∷ cs)) db.groups)))

  -- findUserRootGroups
  unfoldable pub find_user_root_groups : Directory → Text → List Summary
  find_user_root_groups db user_id = roots_of db (group_of_user (find_user db.users user_id))

-- The loop over the ancestors, which stops after 50 of them; it puts each name in front.
unfoldable pub ancestor_names : ℕ → List Group → Option Text → List Text → List Text
ancestor_names zero groups parent_id path = path
ancestor_names (suc turns) groups none path = path
ancestor_names (suc turns) groups (some []) path = path
ancestor_names (suc turns) groups (some (c ∷ cs)) path = elim (find_group groups (c ∷ cs)) [
  | none ↦ path
  | some g ↦ ancestor_names turns groups g.parent_id (g.name ∷ path)
]

abbrev pub path_guard : ℕ
path_guard = 50

pub record Found : Type 0 where
  pub summary : Summary
  pub path : List Text

abbrev pub found_group : Directory → Group → Found
found_group db g = record {
  summary = summary db g;
  path = ancestor_names path_guard db.groups g.parent_id [];
}

module _ (by_name : List Group → List Group) (contains : Text → Text → Bool) where
  abbrev pub searched : Directory → Text → ℕ → List Found
  searched db [] limit = []
  searched db (c ∷ cs) limit =
      map (found_group db)
        (take (min 100 (max 1 limit)) (by_name (filter (λ g. contains g.name (c ∷ cs)) db.groups)))

  -- searchGroups, of a term that is trimmed
  unfoldable pub search_groups : (trim : Text → Text) → Directory → Text → ℕ → List Found
  search_groups trim db q limit = searched db (trim q) limit

pub record MemberRow : Type 0 where
  pub id : Text
  pub login_id : Text
  pub name : Text
  pub role : Text
  pub is_active : Bool
  pub group_id : Option Text

pub record MemberPage : Type 0 where
  pub items : List MemberRow
  pub total : ℕ
  pub page : ℕ
  pub page_size : ℕ

abbrev pub or_default : Option ℤ → ℕ → ℕ
or_default none n = n
or_default (some z) n = pos_part z

module _ (by_login : List MemberRow → List MemberRow) (contains : Text → Text → Bool) where
  abbrev pub is_wanted : Text → Text → MemberRow → Bool
  is_wanted group_id [] u = opt_text_eq u.group_id group_id
  is_wanted group_id (c ∷ cs) u =
      opt_text_eq u.group_id group_id && (contains u.login_id (c ∷ cs) || contains u.name (c ∷ cs))

  -- findMembers, of a term that is trimmed
  unfoldable pub find_members : List MemberRow → Text → Text → Option ℤ → Option ℤ → MemberPage
  find_members users group_id q page page_size =
      let number = max 1 (or_default page 1) in
      let size = min 200 (max 1 (or_default page_size 50)) in
      let rows = by_login (filter (is_wanted group_id q) users) in
      record {
        items = take size (drop ((number - 1) * size) rows);
        total = length (filter (is_wanted group_id q) users);
        page = number;
        page_size = size;
      }
