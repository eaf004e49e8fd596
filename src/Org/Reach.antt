-- ===== src/Org/Reach.antt =====
-- What the loops over the tree compute: they end within a bound on the fuel, and what they collect
-- is what lies below the start.
use nocode_app.Base.{
  ℕ, zero, suc, ◌+◌, ◌≤◌, Text, text_eq_iff, has, has-append_eq, has-singleton, Option, none, some,
  List, [], ◌∷◌, ◌++◌, ◌≡◌, refl, arith, if◌then◌else◌, true, false, inl, inr, ◌≢◌, Bool-cases,
  length, length-append, ◌||◌, ap, subst,
}
use nocode_app.Schema.{Group}
use nocode_app.Org.{get_children, children_map, push_all, walk}
use nocode_app.Org.Children.{named, children_of, get_children-children_map, IsChildRow}

-- `c` is `root` or lies below it in the tree that the rows spell.
pub data Below (all : List Group) (root : Text) : Text → Type 0 where
  self : Below all root root
  child : {p c : Text} → Below all root p → p ≢ [] → IsChildRow all p c → Below all root c

pub Below-trans : {all : List Group} {a b c : Text} → Below all a b → Below all b c → Below all a c
Below-trans h self = h
Below-trans h (child below nonempty row) = child (Below-trans h below) nonempty row

-- The rows whose parent has not been visited yet.
claims : Option Text → List Text → ℕ
claims none visited = 0
claims (some []) visited = 0
claims (some (c ∷ cs)) visited = if has visited (c ∷ cs) then 0 else 1

pub unclaimed : List Group → List Text → ℕ
unclaimed [] visited = 0
unclaimed (g ∷ all) visited = claims g.parent_id visited + unclaimed all visited

claims-visit :
    (o : Option Text) (id gid : Text) (visited : List Text)
    → has visited gid ≡ false
    → claims o (visited ++ gid ∷ []) + length (named o id gid) ≡ claims o visited
unfolding claims named
claims-visit none id gid visited h = refl
claims-visit (some []) id gid visited h = refl
claims-visit (some (c ∷ cs)) id gid visited h = ground (
  arith,
  has-append_eq visited (gid ∷ []) (c ∷ cs),
  has-singleton gid (c ∷ cs),
  text_eq_iff gid (c ∷ cs),
  text_eq_iff (c ∷ cs) gid,
)

unclaimed-visit :
    (all : List Group) (gid : Text) (visited : List Text)
    → has visited gid ≡ false
    → unclaimed all (visited ++ gid ∷ []) + length (children_of all gid) ≡ unclaimed all visited
unfolding unclaimed children_of
unclaimed-visit [] gid visited h = refl
unclaimed-visit (g ∷ all) gid visited h = omega (
  arith,
  claims-visit g.parent_id g.id gid visited h,
  unclaimed-visit all gid visited h,
  length-append (named g.parent_id g.id gid) (children_of all gid),
)

pub unclaimed-le-length :
    (all : List Group) (visited : List Text) → unclaimed all visited ≤ length all
unfolding unclaimed claims
unclaimed-le-length [] visited = omega arith
unclaimed-le-length (g ∷ all) visited = ground (arith, unclaimed-le-length all visited)

length-push_all : (cs stack : List Text) → length (push_all cs stack) ≡ length cs + length stack
unfolding push_all
length-push_all [] stack = omega arith
length-push_all (c ∷ cs) stack = omega (arith, length-push_all cs (c ∷ stack))

pub has-push_all :
    (cs stack : List Text) (a : Text) → has (push_all cs stack) a ≡ (has cs a || has stack a)
unfolding push_all has
has-push_all [] stack a = refl
has-push_all (c ∷ cs) stack a = ground (arith, has-push_all cs (c ∷ stack) a)

module _ (all : List Group) where
  -- Each row is pushed at most once, so this much fuel is enough.
  pub walk_total :
      (fuel : ℕ) (visited stack : List Text)
      → unclaimed all visited + length stack ≤ fuel
      → (out : List Text) × (walk fuel (children_map all) visited stack ≡ some out)
  unfolding walk
  walk_total zero visited [] h = (visited, refl)
  walk_total zero visited (gid ∷ stack) h = absurd (omega arith)
  walk_total (suc fuel) visited [] h = (visited, refl)
  walk_total (suc fuel) visited (gid ∷ stack) h = elim (Bool-cases (has visited gid)) [
    | inl old ↦
        let (out, e) = walk_total fuel visited stack (omega arith) in (out, rw (old, walk) e)
    | inr new ↦
        let next = push_all (get_children (children_map all) gid) stack in
        let (out, e) = walk_total fuel (visited ++ gid ∷ []) next (
          omega (
            arith,
            unclaimed-visit all gid visited new,
            ap length (get_children-children_map all gid),
            length-push_all (get_children (children_map all) gid) stack,
          )) in
        (out, rw (new, walk) e)
  ]

  -- What every round keeps holds of the result, where the stack is empty.
  pub walk_rule {ℓ} :
      (P : List Text → List Text → Type ℓ)
      → ((v st : List Text) (gid : Text) → has v gid ≡ true → P v (gid ∷ st) → P v st)
      → ((v st : List Text) (gid : Text)
          → has v gid ≡ false
          → P v (gid ∷ st)
          → P (v ++ gid ∷ []) (push_all (children_of all gid) st))
      → (fuel : ℕ) (v st out : List Text) → P v st
      → walk fuel (children_map all) v st ≡ some out
      → P out []
  unfolding walk
  walk_rule P skip visit zero v [] out p e = subst (λ o. P o []) (cc) p
  walk_rule P skip visit zero v (gid ∷ st) out p e = absurd (cc)
  walk_rule P skip visit (suc fuel) v [] out p e = subst (λ o. P o []) (cc) p
  walk_rule P skip visit (suc fuel) v (gid ∷ st) out p e = elim (Bool-cases (has v gid)) [
    | inl old ↦ walk_rule P skip visit fuel v st out (skip v st gid old p) (rw (old, walk) at e)
    | inr new ↦
        walk_rule P skip visit fuel (v ++ gid ∷ [])
          (push_all (get_children (children_map all) gid) st) out
          (rw get_children-children_map (visit v st gid new p)) (rw (new, walk) at e)
  ]
