-- ===== src/Groups/Ops/Forest.antt =====
-- The departments form a forest: the check of a new parent is exact, and a change of one row's parent
-- that the check lets through makes no cycle.
use nocode_app.Base.{
  Text, text_eq, text_eq_iff, opt_text_eq, has, NoDup, true, false, Option, some, List, [], ◌∷◌,
  map, length, ok, ◌≡◌, ◌≢◌, ◌↔◌, ◌⊎◌, inl, inr, sym, subst, ◌∙◌, arith, Memᴰ, Bool-cases,
  Option-cases,
}
use nocode_app.Schema.{Group, find_group}
use nocode_app.Base.Keys.{has_of_find, find_of_has}
use nocode_app.Org.Children.{IsChildRow}
use nocode_app.Org.Reach.{Below, self, child, Below-trans}
use nocode_app.Org.Subtree.{IsSubtree, collect-IsSubtree}
use nocode_app.Groups.Ops.{descendant_group_ids, check_cycle, assert_valid_parent}

abbrev pub group_ids : List Group → List Text
group_ids groups = map (λ (g : Group). g.id) groups

-- Keys are unique, parents are there, and no row lies above its own parent.
pub record IsForest (groups : List Group) : Type 0 where
  pub keys : NoDup (group_ids groups)
  pub parents :
      (g : Group) (p : Text)
      → Memᴰ g groups
      → g.parent_id ≡ some p
      → (p ≢ []) × (has (group_ids groups) p ≡ true)
  pub acyclic :
      (g : Group) (p : Text) → Memᴰ g groups → g.parent_id ≡ some p → ¬ Below groups g.id p

-- descendantGroupIds answers with what lies below the department, each id once, and not itself.
pub descendant_group_ids_exact :
    (groups : List Group) (id : Text)
    → (ids : List Text) × (descendant_group_ids groups id ≡ ok ids) × IsSubtree groups id (id ∷ ids)
unfolding descendant_group_ids
descendant_group_ids_exact groups id =
    let (ids, e, tree) = collect-IsSubtree groups id (length groups) (omega arith) in
    (ids, rw (e, descendant_group_ids), tree)

pub find_group_of_has :
    (groups : List Group) (p : Text)
    → has (group_ids groups) p ≡ true
    → (g : Group) × (find_group groups p ≡ some g)
unfolding find_group
find_group_of_has groups p h = find_of_has (λ (g : Group). g.id) groups p h

pub has_of_find_group :
    (groups : List Group) (p : Text) {g : Group}
    → find_group groups p ≡ some g
    → has (group_ids groups) p ≡ true
unfolding find_group
has_of_find_group groups p h = has_of_find (λ (g : Group). g.id) groups p h

parent_test :
    (groups : List Group) (p id : Text) (ids : List Text)
    → descendant_group_ids groups id ≡ ok ids
    → (assert_valid_parent groups p (some id) ≡ ok tt)
      ↔ ((text_eq id p ≡ false) × (has (group_ids groups) p ≡ true) × (has ids p ≡ false))
unfolding assert_valid_parent check_cycle opt_text_eq
parent_test groups p id ids e = elim (Option-cases (find_group groups p)) [
  | inl gone ↦ (λ h. ground (arith, gone), λ h. cc (gone, (find_group_of_has groups p h.1).1))
  | inr (g, there) ↦
      (λ h. (ground arith, has_of_find_group groups p there, ground arith), λ h. ground arith)
]

-- assertValidParent accepts a new parent of a department exactly when it is there, and is neither the
-- department itself nor anything below it.
pub assert_valid_parent_exact :
    (groups : List Group) (p id : Text)
    → (assert_valid_parent groups p (some id) ≡ ok tt)
      ↔ ((has (group_ids groups) p ≡ true) × (¬ Below groups id p))
assert_valid_parent_exact groups p id =
    let (ids, e, tree) = descendant_group_ids_exact groups id in
    let test = parent_test groups p id ids e in
    (
      λ h.
          let (other, there, apart) = test.0 h in
          (there, λ b. unfold has in ground (arith, tree.complete p b)),
      λ h. test.1 (elim (Bool-cases (text_eq id p)) [
        | inl same ↦ absurd (h.1 (subst (Below groups id) ((text_eq_iff id p).0 same) self))
        | inr other ↦ (
          other,
          h.0,
          elim (Bool-cases (has ids p)) [
            | inl below ↦ absurd (h.1 (tree.below p (unfold has in ground arith)))
            | inr apart ↦ apart
          ],
        )
      ]),
    )

-- One row's parent becomes `new`, or a row of that parent is added; other edges are old ones.
module _ (groups groups' : List Group) (id : Text) (new : Option Text)
    (old : (r : Group) (p : Text)
      → Memᴰ r groups'
      → r.parent_id ≡ some p
      → ((r.id ≡ id) × (new ≡ some p)) ⊎ IsChildRow groups p r.id)
    (safe : (p : Text) → new ≡ some p → ¬ Below groups id p) where
  from_moved : {x : Text} → Below groups' id x → Below groups id x
  from_moved self = self
  from_moved (child {p} {c} b nonempty row) = elim (old row.row p row.listed row.parent_eq) [
    | inl e ↦ subst (Below groups id) (sym e.0 ∙ row.id_eq) self
    | inr r ↦ child (from_moved b) nonempty (subst (IsChildRow groups p) row.id_eq r)
  ]

  record Via (g x : Text) : Type 0 where
    parent : Text
    is_new : new ≡ some parent
    up : Below groups g parent
    down : Below groups id x

  Below-moved : {g x : Text} → Below groups' g x → Below groups g x ⊎ Via g x
  Below-moved self = inl self
  Below-moved {g} (child {p} {c} b nonempty row) =
      step (Below-moved b) (old row.row p row.listed row.parent_eq)
    where
      step :
          Below groups g p ⊎ Via g p
          → ((row.row.id ≡ id) × (new ≡ some p)) ⊎ IsChildRow groups p row.row.id
          → Below groups g c ⊎ Via g c
      step (inl up) (inl e) = inr (record {
        parent = p;
        is_new = e.1;
        up = up;
        down = subst (Below groups id) (sym e.0 ∙ row.id_eq) self;
      })
      step (inr via) (inl e) = absurd (safe p e.1 via.down)
      step (inl up) (inr r) = inl (child up nonempty (subst (IsChildRow groups p) row.id_eq r))
      step (inr via) (inr r) = inr (record {
        parent = via.parent;
        is_new = via.is_new;
        up = via.up;
        down = child via.down nonempty (subst (IsChildRow groups p) row.id_eq r);
      })

  pub acyclic_moved :
      IsForest groups
      → (r : Group) (p : Text) → Memᴰ r groups'
      → r.parent_id ≡ some p
      → ¬ Below groups' r.id p
  acyclic_moved forest r p m e b = elim (old r p m e) [
    | inl moved ↦ safe p moved.1 (from_moved (subst (λ i. Below groups' i p) moved.0 b))
    | inr row ↦ elim (Below-moved b) [
      | inl up ↦
          forest.acyclic row.row p row.listed row.parent_eq
            (subst (λ i. Below groups i p) (sym row.id_eq) up)
      | inr via ↦ safe via.parent via.is_new (
          Below-trans (child via.down (forest.parents row.row p row.listed row.parent_eq).0 row)
            via.up)
    ]
  ]
