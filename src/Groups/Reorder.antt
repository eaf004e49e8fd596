-- ===== src/Groups/Reorder.antt =====
-- reorder of groups.service.ts: a department changes places with a neighbour, and its siblings are numbered anew.
-- `in_order` is the order of the query.
use nocode_app.Base.{
  ℕ, zero, suc, Text, text_eq, Option, none, some, List, [], ◌∷◌, map, filter, if◌then◌else◌,
  Result, ok, err, not_found, ◌≡◌, Option-cases, inl, inr, subst, ok_inj,
}
use nocode_app.Base.Int.{pos}
use nocode_app.Schema.{Group, find_group}
use nocode_app.Groups.Ops.{GroupPatch, opt_eq, patch_row, patch_parent, update_rows}
use nocode_app.Groups.Ops.Forest.{IsForest}
use nocode_app.Groups.Ops.Keeps.{after-IsForest}

pub data Direction : Type 0 where
  up down : Direction

-- `siblings.findIndex((s) => s.id === id)`
unfoldable pub find_index : List Text → Text → Option ℕ
find_index [] id = none
find_index (x ∷ xs) id =
    if text_eq x id then some 0 else elim (find_index xs id) [ none ↦ none | some n ↦ some (suc n) ]

abbrev pub element_at : List Text → ℕ → Option Text
element_at [] n = none
element_at (x ∷ xs) zero = some x
element_at (x ∷ xs) (suc n) = element_at xs n

abbrev pub put_at : List Text → ℕ → Text → List Text
put_at [] n t = []
put_at (x ∷ xs) zero t = t ∷ xs
put_at (x ∷ xs) (suc n) t = x ∷ put_at xs n t

-- The place to change with; none below the first.
abbrev pub neighbour : Direction → ℕ → Option ℕ
neighbour up zero = none
neighbour up (suc n) = some n
neighbour down n = some (suc n)

abbrev pub put_both : List Text → ℕ → ℕ → Option Text → Option Text → Option (List Text)
put_both xs i j (some a) (some b) = some (put_at (put_at xs i b) j a)
put_both xs i j (some a) none = none
put_both xs i j none b = none

-- The siblings with two of them exchanged; none where nothing is done.
unfoldable pub exchanged : List Text → Text → Direction → Option (List Text)
exchanged siblings id direction = elim (find_index siblings id) [
  | none ↦ none
  | some i ↦ elim (neighbour direction i) [
    | none ↦ none
    | some j ↦ put_both siblings i j (element_at siblings i) (element_at siblings j)
  ]
]

abbrev pub order_patch : GroupPatch
order_patch = record { name = none; description = none; parent_id = none }

-- The transaction: each sibling gets its index.
unfoldable pub renumber : ℕ → List Text → List Group → List Group
renumber i [] groups = groups
renumber i (id ∷ ids) groups =
    renumber (suc i) ids (update_rows (patch_row order_patch (some (pos i))) id groups)

abbrev pub renumber_all : List Group → Option (List Text) → List Group
renumber_all groups none = groups
renumber_all groups (some ids) = renumber 0 ids groups

-- reorder
unfoldable pub reorder :
    (in_order : List Group → List Group) → List Group → Text → Direction → Result (List Group)
reorder in_order groups id direction = elim (find_group groups id) [
  | none ↦ err not_found
  | some g ↦
      let siblings =
        map (λ s. s.id) (in_order (filter (λ s. opt_eq s.parent_id g.parent_id) groups)) in
      ok (renumber_all groups (exchanged siblings id direction))
]

renumber-IsForest :
    (i : ℕ) (ids : List Text) (groups : List Group)
    → IsForest groups
    → IsForest (renumber i ids groups)
unfolding renumber patch_parent
renumber-IsForest i [] groups forest = forest
renumber-IsForest i (id ∷ ids) groups forest =
    renumber-IsForest (suc i) ids _
      (after-IsForest groups id order_patch (some (pos i)) forest (λ p e. cc))

renumber_all-IsForest :
    (groups : List Group) (o : Option (List Text))
    → IsForest groups
    → IsForest (renumber_all groups o)
renumber_all-IsForest groups none forest = forest
renumber_all-IsForest groups (some ids) forest = renumber-IsForest 0 ids groups forest

-- A change of places keeps the forest.
pub reorder-IsForest :
    (in_order : List Group → List Group) (groups gs : List Group) (id : Text)
    (direction : Direction)
    → IsForest groups
    → reorder in_order groups id direction ≡ ok gs
    → IsForest gs
unfolding reorder
reorder-IsForest in_order groups gs id direction forest e =
    elim (Option-cases (find_group groups id)) [
      | inl gone ↦ cc (rw (reorder, gone) at e)
      | inr (g, there) ↦
          subst IsForest (ok_inj (rw (reorder, there) at e)) (renumber_all-IsForest groups _ forest)
    ]
