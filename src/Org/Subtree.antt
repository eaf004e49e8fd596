-- ===== src/Org/Subtree.antt =====
-- The set that a walk from one department collects: that department and all below it, once each.
use mathlib.Core.Option
use nocode_app.Base.{
  ℕ, zero, suc, Text, text_eq, text_eq_iff, text_eq_refl, has, has-append_eq, has-singleton, NoDup,
  NoDup-concat, Option, none, some, List, [], ◌∷◌, ◌++◌, ◌≡◌, refl, arith, true, false, inl, inr,
  Bool-cases, length, ◌⊎◌, subst, sym, ◌∙◌, ◌≤◌, ◌<◌,
}
use nocode_app.Schema.{Group}
use nocode_app.Org.{ChildrenMap, get_children, children_map, push_all, walk, collect}
use nocode_app.Org.Children.{named, children_of, has-children_of, children_of-has}
use nocode_app.Org.Reach.{
  Below, self, child, unclaimed-le-length, has-push_all, walk_total, walk_rule,
}

children_of-empty : (all : List Group) (c : Text) → has (children_of all []) c ≡ false
unfolding children_of named has text_eq
children_of-empty [] c = refl
children_of-empty (g ∷ all) c = ground (
  arith,
  named-empty g.parent_id g.id c,
  has-append_eq (named g.parent_id g.id []) (children_of all []) c,
  children_of-empty all c,
)
  where
    named-empty : (o : Option Text) (id c : Text) → has (named o id []) c ≡ false
    named-empty none id c = refl
    named-empty (some []) id c = refl
    named-empty (some (x ∷ xs)) id c = refl

module _ (all : List Group) (root : Text) where
  record Inv (v st : List Text) : Type 0 where
    start : (has v root ≡ true) ⊎ (has st root ≡ true)
    sound : (x : Text) → has v x ≡ true → Below all root x
    queued : (x : Text) → has st x ≡ true → Below all root x
    closed :
        (p c : Text)
        → has v p ≡ true
        → has (children_of all p) c ≡ true
        → (has v c ≡ true) ⊎ (has st c ≡ true)
    unique : NoDup v

  Below-child :
      (p c : Text) → Below all root p → has (children_of all p) c ≡ true → Below all root c
  Below-child p c b h =
      child b (λ e. cc (children_of-empty all c, rw e at h)) (has-children_of all p c h)

  Inv-skip : (v st : List Text) (gid : Text) → has v gid ≡ true → Inv v (gid ∷ st) → Inv v st
  unfolding has
  Inv-skip v st gid old i = record {
    start = ground (arith, i.start, text_eq_iff gid root);
    sound = i.sound;
    queued = λ x h. i.queued x (ground arith);
    closed = λ p c hp hc. ground (arith, i.closed p c hp hc, text_eq_iff gid c);
    unique = i.unique;
  }

  Inv-visit :
      (v st : List Text) (gid : Text)
      → has v gid ≡ false
      → Inv v (gid ∷ st)
      → Inv (v ++ gid ∷ []) (push_all (children_of all gid) st)
  unfolding has
  Inv-visit v st gid new i =
      let below_gid = i.queued gid (ground (arith, text_eq_refl gid)) in
      let added = λ (x : Text). has-append_eq v (gid ∷ []) x in
      let pushed = λ (x : Text). has-push_all (children_of all gid) st x in
      record {
        start = ground (arith, i.start, text_eq_iff gid root, added root, pushed root);
        sound = λ x h. elim (Bool-cases (has v x)) [
          | inl old ↦ i.sound x old
          | inr fresh ↦
              let e : gid ≡ x = ground (arith, added x, text_eq_iff gid x) in rw (← e) below_gid
        ];
        queued = λ x h. elim (Bool-cases (has (children_of all gid) x)) [
          | inl below ↦ Below-child gid x below_gid below
          | inr other ↦ i.queued x (ground (arith, pushed x))
        ];
        closed = λ p c hp hc. elim (Bool-cases (has v p)) [
          | inl old ↦ ground (arith, i.closed p c old hc, added c, pushed c, has-singleton gid c)
          | inr fresh ↦
              let e : gid ≡ p = ground (arith, added p, text_eq_iff gid p) in
              inr (ground (arith, pushed c, rw (← e) at hc))
        ];
        unique = NoDup-concat v gid new i.unique;
      }

  Inv-closed : (v : List Text) → Inv v [] → (x : Text) → Below all root x → has v x ≡ true
  unfolding has
  Inv-closed v i x self = ground (arith, i.start)
  Inv-closed v i x (child {p} {c} b nonempty row) =
      let hp = Inv-closed v i p b in
      let hc : has (children_of all p) c ≡ true =
        subst (λ y. has (children_of all p) y ≡ true) row.id_eq
          (children_of-has all p row.row nonempty row.listed row.parent_eq) in
      ground (arith, i.closed p c hp hc)

  -- The walk from `root` ends with exactly what is `root` or lies below it, each once.
  pub record IsSubtree (ids : List Text) : Type 0 where
    pub below : (x : Text) → has ids x ≡ true → Below all root x
    pub complete : (x : Text) → Below all root x → has ids x ≡ true
    pub once : NoDup ids

  Inv-IsSubtree : (v : List Text) → Inv v [] → IsSubtree v
  Inv-IsSubtree v i = record { below = i.sound; complete = Inv-closed v i; once = i.unique }

  Inv-start : Inv [] (root ∷ [])
  unfolding has
  Inv-start = record {
    start = inr (ground (arith, text_eq_refl root));
    sound = λ x h. absurd (cc);
    queued = λ x h. rw (← (let e : root ≡ x = ground (arith, text_eq_iff root x) in e)) self;
    closed = λ p c hp hc. absurd (cc);
    unique = tt;
  }

  pub walk-IsSubtree :
      (fuel : ℕ)
      → length all < fuel
      → (ids : List Text) × (walk fuel (children_map all) [] (root ∷ []) ≡ some ids) × IsSubtree ids
  walk-IsSubtree fuel h =
      let (ids, e) =
        walk_total all fuel [] (root ∷ []) (omega (arith, unclaimed-le-length all [])) in
      (
        ids,
        e,
        Inv-IsSubtree ids
            (walk_rule all Inv Inv-skip Inv-visit fuel [] (root ∷ []) ids Inv-start e),
      )

  -- descendantGroupIds keeps the result apart from the visited set, which has `root` in front.
  walk-collect :
      (m : ChildrenMap) (fuel : ℕ) (result st : List Text)
      → walk fuel m (root ∷ result) st
        ≡ Option.map (λ r. root ∷ r) (collect fuel m (root ∷ result) result st)
  unfolding walk collect
  walk-collect m zero result [] = refl
  walk-collect m zero result (id ∷ st) = refl
  walk-collect m (suc fuel) result [] = refl
  walk-collect m (suc fuel) result (id ∷ st) = elim (Bool-cases (has (root ∷ result) id)) [
    | inl old ↦ rw (old, walk, collect) (walk-collect m fuel result st)
    | inr new ↦
        rw (new, walk, collect)
          (walk-collect m fuel (result ++ id ∷ []) (push_all (get_children m id) st))
  ]

  pub collect-IsSubtree :
      (fuel : ℕ)
      → length all ≤ fuel
      → (ids : List Text) × (collect fuel
            (children_map all)
            (root ∷ [])
            []
            (push_all (get_children (children_map all) root) [])
          ≡ some ids)
        × IsSubtree (root ∷ ids)
  collect-IsSubtree fuel h =
      let (ids, e, good) = walk-IsSubtree (suc fuel) (omega arith) in
      split (collect fuel (children_map all) (root ∷ []) [] next) ids good (sym (first fuel) ∙ e)
    where
      next : List Text
      next = push_all (get_children (children_map all) root) []

      first :
          (fuel : ℕ)
          → walk (suc fuel) (children_map all) [] (root ∷ [])
            ≡ Option.map (λ r. root ∷ r) (collect fuel (children_map all) (root ∷ []) [] next)
      first fuel = unfold walk has in walk-collect (children_map all) fuel [] next

      split :
          (o : Option (List Text)) (ids : List Text)
          → IsSubtree ids
          → Option.map (λ r. root ∷ r) o ≡ some ids
          → (ids : List Text) × (o ≡ some ids) × IsSubtree (root ∷ ids)
      split none ids good e = cc
      split (some r) ids good e = let e' : ids ≡ root ∷ r = cc in (r, refl, subst IsSubtree e' good)
