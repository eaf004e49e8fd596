-- ===== src/Tests/Listings.antt =====
-- The second page of the members of a department.
use nocode_app.Base.{
  ◌-◌, ◌*◌, ◌≤◌, Text, codes, text_eq, true, some, List, [], ◌∷◌, ◌++◌, filter, take, length, ◌≡◌,
}
use nocode_app.Base.Int.{pos}
use nocode_app.Groups.Listing.{MemberRow, is_wanted, find_members}
use nocode_app.Groups.Listing.Bounds.{find_members_bounds}

abbrev member_row : Text → MemberRow
member_row id = record {
  id = id;
  login_id = id;
  name = id;
  role = codes "StandardUser";
  is_active = true;
  group_id = some (codes "sales");
}

abbrev three : List MemberRow
three = member_row (codes "ann") ∷ member_row (codes "bob") ∷ member_row (codes "eve") ∷ []

find_members_bounds_example :
    let answer =
      find_members (λ rows. rows) text_eq three (codes "sales") [] (some (pos 2)) (some (pos 2)) in
    let sorted = filter (is_wanted (λ rows. rows) text_eq (codes "sales") []) three in
    (answer.page ≡ 2)
    × (answer.page_size ≡ 2)
    × (answer.total ≡ length (filter (is_wanted (λ rows. rows) text_eq (codes "sales") []) three))
    × (length answer.items ≤ answer.page_size)
    × (take ((answer.page - 1) * answer.page_size) sorted ++ answer.items
        ≡ take (answer.page * answer.page_size) sorted)
find_members_bounds_example =
    find_members_bounds (λ rows. rows) text_eq three (codes "sales") [] (some (pos 2))
      (some (pos 2))
