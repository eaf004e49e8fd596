-- ===== src/Groups/Import/Forest.antt =====
-- An import of departments keeps the forest.
use mathlib.Core.List.Memᴰ
use mathlib.Core.List.{map-append}
use nocode_app.Base.{
  Text, text_eq, has, has-append_eq, NoDup-concat, Bool, true, false, not, ◌||◌, Option, none, some,
  List, [], ◌∷◌, ◌++◌, if◌then◌else◌, Result, ok, err, bind_ok, ok_inj, some_inj, ◌>>◌, ◌≡◌, ◌≢◌,
  ◌⊎◌, inl, inr, ⊎_elim, refl, ap, subst, ◌∙◌, arith, Memᴰ, Bool-cases, Option-cases,
}
use nocode_app.Base.Int.{ℤ}
use nocode_app.Json.{Json}
use nocode_app.Schema.{Group, find_group}
use nocode_app.Org.Children.{IsChildRow}
use nocode_app.Org.Reach.{Below}
use nocode_app.Groups.Ops.{
  patch_row, patch_parent, update_rows, update_row, assert_valid_parent, or_null,
}
use nocode_app.Groups.Ops.Forest.{group_ids, IsForest, assert_valid_parent_exact, acyclic_moved}
use nocode_app.Groups.Ops.Keeps.{after-IsForest, or_null_nonempty}
use nocode_app.Groups.Import.{
  ParsedRow, GroupImport, group_named, id_of, row_patch, parent_patch, root_row, take_group_row,
  first_step, first_pass, parent_id_of, placed_or_error, set_parent, place_row, second_step,
  second_pass, parse_rows, import_groups, lacks_text, has_order,
}

-- A row without a parent, under a key of its own.
root-IsForest :
    (groups : List Group) (r : Group)
    → IsForest groups
    → r.parent_id ≡ none
    → has (group_ids groups) r.id ≡ false
    → IsForest (groups ++ r ∷ [])
root-IsForest groups r forest top fresh = record {
  keys = rw map-append (NoDup-concat (group_ids groups) r.id fresh forest.keys);
  parents = λ g p m e.
      ⊎_elim (λ old. let (n, t) = forest.parents g p old e in (n, widen p t))
        (λ l. absurd (no_parent_here g p l e)) (Memᴰ.append_cases groups m);
  acyclic = acyclic_moved groups (groups ++ r ∷ []) r.id none edges (λ p new. cc) forest;
}
  where
    no_parent_here : (g : Group) (p : Text) → Memᴰ g (r ∷ []) → g.parent_id ≢ some p
    no_parent_here g p l e =
        let same : g.parent_id ≡ none =
          ap (λ (x : Group). x.parent_id) (Memᴰ.eq_of_singleton l) ∙ top in
        cc

    widen :
        (p : Text) → has (group_ids groups) p ≡ true → has (group_ids (groups ++ r ∷ [])) p ≡ true
    widen p t = rw (map-append, has-append_eq) (ground (arith, t))

    edges :
        (g : Group) (p : Text)
        → Memᴰ g (groups ++ r ∷ [])
        → g.parent_id ≡ some p
        → ((g.id ≡ r.id) × (none ≡ some p)) ⊎ IsChildRow groups p g.id
    edges g p m e =
        ⊎_elim (λ l. inr (record { row = g; listed = l; id_eq = refl; parent_eq = e }))
          (λ l. absurd (no_parent_here g p l e)) (Memᴰ.append_cases groups m)

either :
    (b : Bool) {gs hs : List Group} → IsForest gs → IsForest hs → IsForest (if b then gs else hs)
either true g h = g
either false g h = h

either_import :
    (b : Bool) (st st' : GroupImport)
    → IsForest st.groups
    → IsForest st'.groups
    → IsForest (if b then st else st').groups
either_import true st st' g h = g
either_import false st st' g h = h

module _ (fresh : List Group → Text)
    (is_fresh : (gs : List Group) → has (group_ids gs) (fresh gs) ≡ false) where
  take_group_row-IsForest :
      (p : ParsedRow) (st : GroupImport) (o : Option Group)
      → IsForest st.groups
      → IsForest (take_group_row fresh p st o).groups
  unfolding patch_parent
  take_group_row-IsForest p st none forest =
      root-IsForest st.groups (root_row (fresh st.groups) p) forest refl (is_fresh st.groups)
  take_group_row-IsForest p st (some g) forest =
      either (not (lacks_text p.description) || has_order p.sort_order)
        (after-IsForest st.groups g.id (row_patch p.description) p.sort_order forest (λ q e. cc))
        forest

  first_pass-IsForest :
      (ps : List ParsedRow) (st : GroupImport)
      → IsForest st.groups
      → IsForest (first_pass fresh ps st).groups
  unfolding first_pass first_step
  first_pass-IsForest [] st forest = forest
  first_pass-IsForest (p ∷ ps) st forest = first_pass-IsForest ps (first_step fresh p st) (
      either_import (lacks_text p.name) _ _ forest
        (take_group_row-IsForest p st (group_named st.groups p.name) forest))

placed-IsForest :
    (p : ParsedRow) (st : GroupImport) (r : Result (List Group))
    → IsForest st.groups
    → ((gs : List Group) → r ≡ ok gs → IsForest gs)
    → IsForest (placed_or_error p st r).groups
placed-IsForest p st (ok gs) forest h = h gs refl
placed-IsForest p st (err e) forest h = forest

updated_rows :
    (f : Group → Group) (id : Text) (groups gs : List Group)
    → update_row f id groups ≡ ok gs
    → update_rows f id groups ≡ gs
unfolding update_row
updated_rows f id groups gs e = elim (Option-cases (find_group groups id)) [
  | inl gone ↦ cc (rw (update_row, gone) at e)
  | inr (g, found) ↦ ok_inj (rw (update_row, found) at e)
]

or_null_only : (q : Text) {r : Text} → or_null (some q) ≡ some r → q ≡ r
unfolding or_null
or_null_only [] h = cc
or_null_only (c ∷ cs) h = some_inj h

abbrev moved_under : List Group → Text → Text → Result (List Group)
moved_under groups id q =
    assert_valid_parent groups q (some id) >> update_row (patch_row (parent_patch q) none) id groups

moved_under-IsForest :
    (groups : List Group) (id q : Text) (gs : List Group)
    → IsForest groups
    → q ≢ []
    → moved_under groups id q ≡ ok gs
    → IsForest gs
unfolding patch_parent
moved_under-IsForest groups id q gs forest named e =
    let (_, checked, written) = bind_ok (assert_valid_parent groups q (some id)) _ e in
    let (there, apart) = (assert_valid_parent_exact groups q id).0 checked in
    subst IsForest (updated_rows (patch_row (parent_patch q) none) id groups gs written) (
      after-IsForest groups id (parent_patch q) none forest (λ r new.
        subst (λ x. (x ≢ []) × (has (group_ids groups) x ≡ true) × (¬ Below groups id x))
          (or_null_only q new) (named, there, apart)))

set_parent-IsForest :
    (p : ParsedRow) (st : GroupImport) (id : Text) (o : Option Text)
    → IsForest st.groups
    → ((q : Text) → o ≡ some q → q ≢ [])
    → IsForest (set_parent p st id o).groups
unfolding set_parent
set_parent-IsForest p st id none forest h = forest
set_parent-IsForest p st id (some q) forest h =
    placed-IsForest p st (moved_under st.groups id q) forest
      (λ gs e. moved_under-IsForest st.groups id q gs forest (h q refl) e)

id_of_nonempty :
    (es : List (Text × Text)) (name : Text) {q : Text} → id_of es name ≡ some q → q ≢ []
unfolding id_of
id_of_nonempty [] name h = cc
id_of_nonempty (e ∷ es) name h = elim (Bool-cases (text_eq e.0 name)) [
  | inl same ↦ or_null_nonempty (some e.1) (rw same at h)
  | inr other ↦ id_of_nonempty es name (rw other at h)
]

parent_nonempty :
    (st : GroupImport) (name : Text) (o : Option Text) {q : Text}
    → ((r : Text) → o ≡ some r → r ≢ [])
    → parent_id_of st name o ≡ some q
    → q ≢ []
parent_nonempty st name (some r) h e = h _ e
parent_nonempty st name none h e = elim (Option-cases (group_named st.groups name)) [
  | inl gone ↦ cc (rw gone at e)
  | inr (g, found) ↦ or_null_nonempty (some g.id) (rw found at e)
]

place-IsForest :
    (p : ParsedRow) (st : GroupImport) (o : Option Text)
    → IsForest st.groups
    → IsForest (place_row p st o).groups
place-IsForest p st none forest = forest
place-IsForest p st (some id) forest = either_import (lacks_text p.parent_name) _ _ forest (
    either_import (text_eq p.parent_name p.name) _ _ forest (
      set_parent-IsForest p st id _ forest (λ q e.
        parent_nonempty st p.parent_name (id_of st.id_by_name p.parent_name)
          (λ r h. id_of_nonempty st.id_by_name p.parent_name h) e)))

second_pass-IsForest :
    (ps : List ParsedRow) (st : GroupImport)
    → IsForest st.groups
    → IsForest (second_pass ps st).groups
unfolding second_pass second_step
second_pass-IsForest [] st forest = forest
second_pass-IsForest (p ∷ ps) st forest =
    second_pass-IsForest ps (second_step p st) (place-IsForest p st _ forest)

-- Where the database makes keys that no department has: whatever rows are imported, with parents that are
-- missing, their own or below them, the departments after it are a forest if they were one.
pub import_groups-IsForest :
    {N : Type 0} (to_text : Json N → Text) (integer : Text → Option ℤ) (fresh : List Group → Text)
    → ((gs : List Group) → has (group_ids gs) (fresh gs) ≡ false)
    → (rows : List (Json N)) (groups : List Group) → IsForest groups
    → IsForest (import_groups to_text integer fresh rows groups).groups
unfolding import_groups
import_groups-IsForest to_text integer fresh is_fresh rows groups forest =
    second_pass-IsForest _ _
      (first_pass-IsForest fresh is_fresh (parse_rows to_text integer 0 rows) _ forest)
