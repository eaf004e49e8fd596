-- ===== src/Groups/Import.antt =====
-- importRows of groups.service.ts: departments from the rows of a CSV file, in two passes. `to_text` is
-- `String(v ?? '').trim()`, `integer` the number of a text where it is an integer, `fresh` the key that the database
-- makes. What the database itself refuses is left out.
pub mod Forest
use nocode_app.Base.{
  ℕ, zero, suc, Text, codes, text_eq, Bool, true, false, not, ◌&&◌, ◌||◌, Option, none, some, List,
  [], ◌∷◌, ◌++◌, find, if◌then◌else◌, Result, ok, err, Failure, ◌>>◌,
}
use nocode_app.Base.Int.{ℤ, pos}
use nocode_app.Json.{Json, prop}
use nocode_app.Schema.{Group}
use nocode_app.Groups.Ops.{
  GroupPatch, patch_row, update_rows, update_row, assert_valid_parent, or_null,
}

pub record ParsedRow : Type 0 where
  pub row : ℕ
  pub name : Text
  pub description : Text
  pub parent_name : Text
  pub sort_order : Option ℤ

pub data ImportProblem : Type 0 where
  no_name own_parent no_parent refused_parent : ImportProblem

pub record GroupImport : Type 0 where
  pub groups : List Group
  pub id_by_name : List (Text × Text)
  pub created : ℕ
  pub updated : ℕ
  pub errors : List (ℕ × ImportProblem)

abbrev pub lacks_text : Text → Bool
lacks_text [] = true
lacks_text (c ∷ cs) = false

-- `s || null`, and `if (p.description)`
abbrev pub unless_blank : Text → Option Text
unless_blank [] = none
unless_blank (c ∷ cs) = some (c ∷ cs)

abbrev pub order_or_zero : Option ℤ → ℤ
order_or_zero none = pos 0
order_or_zero (some n) = n

abbrev pub has_order : Option ℤ → Bool
has_order none = false
has_order (some n) = true

unfoldable pub group_named : List Group → Text → Option Group
group_named groups name = find (λ g. text_eq g.name name) groups

-- `idByName.get(name)`, where an empty id counts as none
unfoldable pub id_of : List (Text × Text) → Text → Option Text
id_of [] name = none
id_of (e ∷ es) name =
    let rest = id_of es name in if text_eq e.0 name then or_null (some e.1) else rest

abbrev pub row_patch : Text → GroupPatch
row_patch description = record {
  name = none;
  description = unless_blank description;
  parent_id = none;
}

abbrev pub parent_patch : Text → GroupPatch
parent_patch parent_id = record {
  name = none;
  description = none;
  parent_id = some (some parent_id);
}

abbrev pub root_row : Text → ParsedRow → Group
root_row id p = record {
  id = id;
  name = p.name;
  description = unless_blank p.description;
  parent_id = none;
  sort_order = order_or_zero p.sort_order;
}

abbrev pub add_error : ℕ → ImportProblem → GroupImport → GroupImport
add_error row problem st = record st { errors = st.errors ++ (row, problem) ∷ [] }

module _ (fresh : List Group → Text) where
  -- The first pass on a row with a name, after the look for a department of that name.
  abbrev pub take_group_row : ParsedRow → GroupImport → Option Group → GroupImport
  take_group_row p st none =
      let id = fresh st.groups in
      record st {
        groups = st.groups ++ root_row id p ∷ [];
        id_by_name = (p.name, id) ∷ st.id_by_name;
        created = suc st.created;
      }
  take_group_row p st (some g) = record st {
    groups =
        if not (lacks_text p.description) || has_order p.sort_order
        then update_rows (patch_row (row_patch p.description) p.sort_order) g.id st.groups
        else st.groups;
    id_by_name = (p.name, g.id) ∷ st.id_by_name;
    updated = suc st.updated;
  }

  unfoldable pub first_step : ParsedRow → GroupImport → GroupImport
  first_step p st =
      if lacks_text p.name
      then add_error p.row no_name st
      else take_group_row p st (group_named st.groups p.name)

  unfoldable pub first_pass : List ParsedRow → GroupImport → GroupImport
  first_pass [] st = st
  first_pass (p ∷ ps) st = first_pass ps (first_step p st)

abbrev pub named_id : Option Group → Option Text
named_id none = none
named_id (some g) = or_null (some g.id)

-- The id of the parent by its name: of the rows, or of a department that is there.
abbrev pub parent_id_of : GroupImport → Text → Option Text → Option Text
parent_id_of st parent_name none = named_id (group_named st.groups parent_name)
parent_id_of st parent_name (some id) = some id

abbrev pub placed_or_error : ParsedRow → GroupImport → Result (List Group) → GroupImport
placed_or_error p st (ok groups) = record st { groups = groups }
placed_or_error p st (err e) = add_error p.row refused_parent st

unfoldable pub set_parent : ParsedRow → GroupImport → Text → Option Text → GroupImport
set_parent p st id none = add_error p.row no_parent st
set_parent p st id (some parent_id) = placed_or_error p st (
    assert_valid_parent st.groups parent_id (some id)
    >> update_row (patch_row (parent_patch parent_id) none) id st.groups)

abbrev pub place_row : ParsedRow → GroupImport → Option Text → GroupImport
place_row p st none = st
place_row p st (some id) =
    if lacks_text p.parent_name
    then st
    else if text_eq p.parent_name p.name
    then add_error p.row own_parent st
    else set_parent p st id (parent_id_of st p.parent_name (id_of st.id_by_name p.parent_name))

unfoldable pub second_step : ParsedRow → GroupImport → GroupImport
second_step p st = place_row p st (if lacks_text p.name then none else id_of st.id_by_name p.name)

unfoldable pub second_pass : List ParsedRow → GroupImport → GroupImport
second_pass [] st = st
second_pass (p ∷ ps) st = second_pass ps (second_step p st)

module _ {N : Type 0} (to_text : Json N → Text) (integer : Text → Option ℤ) where
  unfoldable pub parse_rows : ℕ → List (Json N) → List ParsedRow
  parse_rows i [] = []
  parse_rows i (r ∷ rs) =
      record {
        row = suc i;
        name = to_text (prop r (codes "name"));
        description = to_text (prop r (codes "description"));
        parent_name = to_text (prop r (codes "parent"));
        sort_order = integer (to_text (prop r (codes "sortOrder")));
      }
      ∷ parse_rows (suc i) rs

  -- importRows
  unfoldable pub import_groups : (List Group → Text) → List (Json N) → List Group → GroupImport
  import_groups fresh rows groups =
      let parsed = parse_rows 0 rows in
      second_pass parsed (
        first_pass fresh parsed
          (record { groups = groups; id_by_name = []; created = 0; updated = 0; errors = [] }))
