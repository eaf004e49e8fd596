-- ===== src/Org.antt =====
-- The department tree as both PermissionService.myScopeGroupIds
-- (backend/src/permissions/permission.service.ts) and GroupsService.descendantGroupIds
-- (backend/src/groups/groups.service.ts) walk it: the map from a parent to its children, and the
-- loop over a stack with a visited set. A stack is the list with the array's end at its head.
pub mod Children
pub mod Reach
pub mod Subtree
use nocode_app.Base.{
  ℕ, zero, suc, ◌+◌, Text, text_eq, has, present, true, false, Option, none, some, List, [], ◌∷◌,
  ◌++◌, if◌then◌else◌, length,
}
use nocode_app.Schema.{Group}

-- `Map<string, string[]>`
abbrev pub ChildrenMap : Type 0
ChildrenMap = List (Text × List Text)

-- `childrenMap.get(k) ?? []`
unfoldable pub get_children : ChildrenMap → Text → List Text
get_children [] k = []
get_children ((j, ids) ∷ m) k = if text_eq j k then ids else get_children m k

-- `arr.push(id)` where the key is there, `childrenMap.set(k, [id])` where it is not.
unfoldable pub add_child : ChildrenMap → Text → Text → ChildrenMap
add_child [] k id = (k, id ∷ []) ∷ []
add_child ((j, ids) ∷ m) k id =
    if text_eq j k then (j, ids ++ id ∷ []) ∷ m else (j, ids) ∷ add_child m k id

-- One round of `for (const g of all)`: a row with no parent, or an empty one, is passed over.
unfoldable pub index_parent : Option Text → Text → ChildrenMap → ChildrenMap
index_parent none id m = m
index_parent (some []) id m = m
index_parent (some (c ∷ cs)) id m = add_child m (c ∷ cs) id

unfoldable pub index_groups : ChildrenMap → List Group → ChildrenMap
index_groups m [] = m
index_groups m (g ∷ all) = index_groups (index_parent g.parent_id g.id m) all

unfoldable pub children_map : List Group → ChildrenMap
children_map all = index_groups [] all

-- `for (const c of cs) stack.push(c)`
unfoldable pub push_all : List Text → List Text → List Text
push_all [] stack = stack
push_all (c ∷ cs) stack = push_all cs (c ∷ stack)

-- The `while (stack.length)` loop of myScopeGroupIds; `visited` is `scopeGroupIds` in the order of
-- insertion. `none` means that the fuel ran out.
unfoldable pub walk : ℕ → ChildrenMap → List Text → List Text → Option (List Text)
walk zero m visited [] = some visited
walk zero m visited (gid ∷ stack) = none
walk (suc fuel) m visited [] = some visited
walk (suc fuel) m visited (gid ∷ stack) = elim (has visited gid) [
  | true ↦ walk fuel m visited stack
  | false ↦ walk fuel m (visited ++ gid ∷ []) (push_all (get_children m gid) stack)
]

-- The loop of descendantGroupIds, which keeps the result beside the visited set.
unfoldable pub collect : ℕ → ChildrenMap → List Text → List Text → List Text → Option (List Text)
collect zero m visited result [] = some result
collect zero m visited result (id ∷ stack) = none
collect (suc fuel) m visited result [] = some result
collect (suc fuel) m visited result (id ∷ stack) = elim (has visited id) [
  | true ↦ collect fuel m visited result stack
  | false ↦
      collect fuel m (visited ++ id ∷ []) (result ++ id ∷ []) (push_all (get_children m id) stack)
]
