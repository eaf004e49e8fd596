-- ===== src/Groups/Ops/Keeps.antt =====
-- Every operation on the departments keeps the forest, and what a deletion takes away.
use mathlib.Core.List.Memᴰ
use nocode_app.Base.{
  Text, text_eq, text_eq_iff, opt_text_eq, has, has-append_eq, has-singleton, NoDup-concat, true,
  false, ◌||◌, Option, none, some, List, [], ◌∷◌, ◌++◌, if◌then◌else◌, bind_ok, ok, ◌≡◌, ◌≢◌, ◌⊎◌,
  inl, inr, ⊎_elim, refl, sym, ap, subst, ◌∙◌, arith, Memᴰ, Bool-cases, Option-cases,
}
use nocode_app.Schema.{Group, find_group}
use mathlib.Core.List.{map-append}
use nocode_app.Base.Int.{ℤ}
use nocode_app.Org.Children.{IsChildRow}
use nocode_app.Org.Reach.{Below, self, child}
use nocode_app.Groups.Ops.{
  or_null, NewGroup, new_row, GroupPatch, patch_row, patch_parent, update_rows, update_row,
  moved_order, update, create, check_parent, assert_valid_parent, check_cycle,
}
use nocode_app.Groups.Ops.Forest.{
  group_ids, IsForest, assert_valid_parent_exact, acyclic_moved, has_of_find_group,
}

pub or_null_nonempty : (o : Option Text) {p : Text} → or_null o ≡ some p → p ≢ []
unfolding or_null
or_null_nonempty none e = cc
or_null_nonempty (some []) e = cc
or_null_nonempty (some (c ∷ cs)) e = λ z. cc

or_null-some : (id : Text) → id ≢ [] → or_null (some id) ≡ some id
unfolding or_null
or_null-some [] h = absurd (h refl)
or_null-some (c ∷ cs) h = refl

-- A department that is not there has nothing below it.
fresh-Below :
    (groups : List Group) (id : Text) {x : Text}
    → IsForest groups
    → has (group_ids groups) id ≡ false
    → Below groups id x
    → x ≡ id
fresh-Below groups id forest fresh self = refl
fresh-Below groups id forest fresh (child {p} {c} b nonempty row) = cc (
  fresh,
  fresh-Below groups id forest fresh b,
  (forest.parents row.row p row.listed row.parent_eq).1,
)

checked_parent :
    (groups : List Group) (p : Text)
    → check_parent groups (some p) none ≡ ok tt
    → has (group_ids groups) p ≡ true
unfolding check_parent assert_valid_parent check_cycle opt_text_eq
checked_parent groups p h = elim (Option-cases (find_group groups p)) [
  | inl gone ↦ ground (arith, gone)
  | inr (g, there) ↦ has_of_find_group groups p there
]

module _ (groups : List Group) (id : Text) (d : NewGroup) where
  abbrev row : Group
  row = new_row groups id d

  row_parent : row.parent_id ≡ or_null d.parent_id
  unfolding new_row
  row_parent = refl

  row_id : row.id ≡ id
  unfolding new_row
  row_id = refl

  row_cases : (r : Group) → Memᴰ r (groups ++ row ∷ []) → Memᴰ r groups ⊎ (r ≡ row)
  row_cases r m = ⊎_elim inl (λ l. inr (Memᴰ.eq_of_singleton l)) (Memᴰ.append_cases groups m)

  ids-row :
      (x : Text)
      → has (group_ids (groups ++ row ∷ [])) x ≡ (has (group_ids groups) x || text_eq id x)
  ids-row x =
      rw (map-append, has-append_eq, row_id)
        (ap (λ b. has (group_ids groups) x || b) (has-singleton id x))

  old_edges :
      (r : Group) (p : Text)
      → Memᴰ r (groups ++ row ∷ [])
      → r.parent_id ≡ some p
      → ((r.id ≡ id) × (or_null d.parent_id ≡ some p)) ⊎ IsChildRow groups p r.id
  old_edges r p m e =
      ⊎_elim (λ l. inr (record { row = r; listed = l; id_eq = refl; parent_eq = e }))
        (λ z. inl (
          ap (λ (g : Group). g.id) z ∙ row_id,
          sym row_parent ∙ ap (λ (g : Group). g.parent_id) (sym z) ∙ e,
        ))
        (row_cases r m)

  -- A department that `create` adds under a key of its own keeps the forest.
  pub create-IsForest :
      {groups' : List Group}
      → IsForest groups
      → has (group_ids groups) id ≡ false
      → create groups id d ≡ ok groups'
      → IsForest groups'
  unfolding create
  create-IsForest {groups'} forest fresh h =
      let (_, checked, e) =
        bind_ok (check_parent groups (or_null d.parent_id) none) (λ _. ok (groups ++ row ∷ [])) h in
      let e' : groups ++ row ∷ [] ≡ groups' = cc in
      let there = λ (p : Text) (new : or_null d.parent_id ≡ some p).
        checked_parent groups p (subst (λ o. check_parent groups o none ≡ ok tt) new checked) in
      let widen = λ (p : Text) (old : has (group_ids groups) p ≡ true).
        let goal : has (group_ids (groups ++ row ∷ [])) p ≡ true = ground (arith, ids-row p) in
        goal in
      subst IsForest e' (record {
        keys = rw (map-append, row_id) (NoDup-concat (group_ids groups) id fresh forest.keys);
        parents = λ g p m e.
            ⊎_elim (λ old. let (n, t) = forest.parents g p old e in (n, widen p t))
              (λ z.
                let new = sym row_parent ∙ ap (λ (g : Group). g.parent_id) (sym z) ∙ e in
                (or_null_nonempty d.parent_id new, widen p (there p new)))
              (row_cases g m);
        acyclic =
            acyclic_moved groups (groups ++ row ∷ []) id (or_null d.parent_id) old_edges
              (λ p new b. cc (fresh, there p new, fresh-Below groups id forest fresh b)) forest;
      })

-- An update of one row that leaves its key alone.
pub ids-update_rows :
    (f : Group → Group)
    → ((g : Group) → (f g).id ≡ g.id)
    → (id : Text) (groups : List Group) → group_ids (update_rows f id groups) ≡ group_ids groups
unfolding update_rows
ids-update_rows f keeps id [] = refl
ids-update_rows f keeps id (g ∷ groups) = elim (Bool-cases (text_eq g.id id)) [
  | inl same ↦ rw (same, keeps, ids-update_rows f keeps id groups)
  | inr other ↦ rw (other, ids-update_rows f keeps id groups)
]

pub mem-update_rows :
    (f : Group → Group) (id : Text) (groups : List Group) (r : Group)
    → Memᴰ r (update_rows f id groups)
    → (g : Group) × Memᴰ g groups × (r ≡ (if text_eq g.id id then f g else g))
unfolding update_rows
mem-update_rows f id groups r m =
    let (g, listed, e) = Memᴰ.of_map (λ (g : Group). if text_eq g.id id then f g else g) groups m in
    (g, listed, sym e)

patch_cases :
    (o : Option (Option Text)) (old : Option Text) {p : Text}
    → patch_parent o old ≡ some p
    → (old ≡ some p) ⊎ (patch_parent o none ≡ some p)
unfolding patch_parent
patch_cases none old e = inl e
patch_cases (some q) old e = inr e

-- The rows after an update of one department.
module _ (groups : List Group) (id : Text) (d : GroupPatch) (moved : Option ℤ) where
  abbrev after : List Group
  after = update_rows (patch_row d moved) id groups

  patched :
      (g : Group)
      → ((patch_row d moved g).id ≡ g.id)
        × ((patch_row d moved g).parent_id ≡ patch_parent d.parent_id g.parent_id)
  unfolding patch_row
  patched g = (refl, refl)

  edges_after :
      (r : Group) (p : Text)
      → Memᴰ r after
      → r.parent_id ≡ some p
      → ((r.id ≡ id) × (patch_parent d.parent_id none ≡ some p)) ⊎ IsChildRow groups p r.id
  edges_after r p m e =
      let (g, listed, is) = mem-update_rows (patch_row d moved) id groups r m in
      elim (Bool-cases (text_eq g.id id)) [
        | inl same ↦
            let is' : r ≡ patch_row d moved g = rw same at is in
            let same_id : r.id ≡ g.id = ap (λ (x : Group). x.id) is' ∙ (patched g).0 in
            ⊎_elim
              (λ old.
                inr (record { row = g; listed = listed; id_eq = sym same_id; parent_eq = old }))
              (λ new. inl (same_id ∙ (text_eq_iff g.id id).0 same, new))
              (patch_cases d.parent_id g.parent_id
                (sym (patched g).1 ∙ ap (λ (x : Group). x.parent_id) (sym is') ∙ e))
        | inr other ↦
            let is' : r ≡ g = rw other at is in
            inr (record {
              row = g;
              listed = listed;
              id_eq = ap (λ (x : Group). x.id) (sym is');
              parent_eq = ap (λ (x : Group). x.parent_id) (sym is') ∙ e;
            })
      ]

  pub after-IsForest :
      IsForest groups
      → ((p : Text)
          → patch_parent d.parent_id none ≡ some p
          → (p ≢ []) × (has (group_ids groups) p ≡ true) × (¬ Below groups id p))
      → IsForest after
  after-IsForest forest safe =
      let ids = ids-update_rows (patch_row d moved) (λ g. (patched g).0) id groups in
      record {
        keys = rw ids forest.keys;
        parents = λ r p m e.
            ⊎_elim (λ new. let (n, t, _) = safe p new.1 in (n, rw ids t))
              (λ old.
                let (n, t) = forest.parents old.row p old.listed old.parent_eq in (n, rw ids t))
              (edges_after r p m e);
        acyclic =
            acyclic_moved groups after id (patch_parent d.parent_id none) edges_after
              (λ p new. (safe p new).2) forest;
      }

checked_move :
    (groups : List Group) (id : Text) (o : Option (Option Text)) {moved : Option ℤ}
    → id ≢ []
    → moved_order groups id o ≡ ok moved
    → (p : Text) → patch_parent o none ≡ some p
    → (p ≢ []) × (has (group_ids groups) p ≡ true) × (¬ Below groups id p)
unfolding moved_order patch_parent check_parent
checked_move groups id none named h p new = cc
checked_move groups id (some q) named h p new =
    let (_, checked, _) = bind_ok (check_parent groups (or_null q) (or_null (some id))) _ h in
    let checked' : assert_valid_parent groups p (some id) ≡ ok tt =
      subst (λ o. check_parent groups o (some id) ≡ ok tt) new
        (subst (λ s. check_parent groups (or_null q) s ≡ ok tt) (or_null-some id named) checked) in
    let (there, apart) = (assert_valid_parent_exact groups p id).0 checked' in
    (or_null_nonempty q new, there, apart)

-- Whatever an update changes of a department, it keeps the forest.
pub update-IsForest :
    (groups : List Group) (id : Text) (d : GroupPatch) {groups' : List Group}
    → IsForest groups
    → id ≢ []
    → update groups id d ≡ ok groups'
    → IsForest groups'
unfolding update update_row
update-IsForest groups id d {groups'} forest named h =
    let (moved, checked, e) = bind_ok (moved_order groups id d.parent_id) _ h in
    let e' : update_rows (patch_row d moved) id groups ≡ groups' = ground arith in
    subst IsForest e'
      (after-IsForest groups id d moved forest (checked_move groups id d.parent_id named checked))

-- No departments are a forest.
pub nil-IsForest : IsForest []
nil-IsForest = record {
  keys = tt;
  parents = λ g p m e. absurd (Memᴰ.not-nil m);
  acyclic = λ g p m e. absurd (Memᴰ.not-nil m);
}
