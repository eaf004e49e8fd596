-- ===== src/Permission/Scope/Members.antt =====
-- Whom the scopes of a user reach: the members of their department and of those below it.
use nocode_app.Base.{
  suc, Text, text_eq, text_eq_iff, text_eq_refl, has, has-singleton, NoDup, true, ◌||◌, some, List,
  [], ◌∷◌, map, length, filter, of_filter, to_filter, ok, ◌≡◌, ◌↔◌, inl, inr, refl, sym, subst,
  arith, Memᴰ, Bool-cases, Option-cases, List-cases, add_id, to_set, has-add_id, has-to_set,
  NoDup-add_id, NoDup-to_set,
}
use nocode_app.Schema.{User, Tables}
use nocode_app.Base.Keys.{has-map_of_mem, mem_of_has-map}
use nocode_app.Org.{push_all}
use nocode_app.Org.Reach.{Below}
use nocode_app.Org.Subtree.{walk-IsSubtree}
use nocode_app.Permission.Rights.{my_group_ids}
use nocode_app.Permission.Rights.Exact.{IsMember, member-group, group-IsMember}
use nocode_app.Permission.Scope.{
  or_no_fuel, scope_from, my_scope_group_ids, in_groups, org_scoped_user_ids,
}

-- The department `g` is that of the user or lies below it.
pub record InScope (db : Tables) (user_id g : Text) : Type 0 where
  pub own : Text
  pub member : IsMember db user_id own
  pub below : Below db.groups own g

-- The user is `x`, or `x` is the user of a row whose department lies in the user's scope.
pub data InOrg (db : Tables) (user_id x : Text) : Type 0 where
  oneself : x ≡ user_id → InOrg db user_id x
  staff :
      (row : User) (g : Text)
      → Memᴰ row db.users
      → row.id ≡ x
      → row.group_id ≡ some g
      → InScope db user_id g
      → InOrg db user_id x

-- `ids` is the scope of the user, without repetition.
pub record IsScope (db : Tables) (user_id : Text) (ids : List Text) : Type 0 where
  pub inside : (g : Text) → has ids g ≡ true → InScope db user_id g
  pub whole : (g : Text) → InScope db user_id g → has ids g ≡ true
  pub once : NoDup ids

module _ (db : Tables) (user_id : Text) where
  -- The role and the app of these lemmas are of no account.
  abbrev groups_of_member : (g : Text) → IsMember db user_id g → my_group_ids db user_id ≡ g ∷ []
  groups_of_member = member-group db user_id [] []

  IsScope-of_member :
      (d : Text)
      → IsMember db user_id d
      → (ids : List Text) × (my_scope_group_ids db user_id ≡ ok ids) × IsScope db user_id ids
  unfolding my_scope_group_ids scope_from or_no_fuel push_all
  IsScope-of_member d m =
      let (ids, e, tree) = walk-IsSubtree db.groups d (suc (length db.groups)) (omega arith) in
      (
        ids,
        rw (groups_of_member d m, e),
        record {
          inside = λ g h. record { own = d; member = m; below = tree.below g h };
          whole = λ g s.
              let same : s.own ≡ d = cc (groups_of_member s.own s.member, groups_of_member d m) in
              tree.complete g (subst (λ o. Below db.groups o g) same s.below);
          once = tree.once;
        },
      )

  -- The scope of a user is computed, and is their department with all that lies below it.
  pub my_scope_group_ids_exact :
      (ids : List Text) × (my_scope_group_ids db user_id ≡ ok ids) × IsScope db user_id ids
  my_scope_group_ids_exact = elim (List-cases (my_group_ids db user_id)) [
    | inl nowhere ↦ (
      [],
      unfold my_scope_group_ids scope_from in rw nowhere,
      record {
        inside = λ g h. unfold has in cc;
        whole = λ g s. cc (nowhere, groups_of_member s.own s.member);
        once = tt;
      },
    )
    | inr (d, rest, e) ↦
        IsScope-of_member d
          (group-IsMember db user_id [] [] d (rw e (unfold has in ground (arith, text_eq_refl d))))
  ]

  abbrev staff_ids : List Text → List Text
  staff_ids ids = map (λ (u : User). u.id) (filter (in_groups ids) db.users)

  in_groups-some :
      (ids : List Text) (u : User)
      → in_groups ids u ≡ true
      → (g : Text) × (u.group_id ≡ some g) × (has ids g ≡ true)
  in_groups-some ids u h = elim (Option-cases u.group_id) [
    | inl e ↦ cc (rw e at h)
    | inr (g, e) ↦ (g, e, rw e at h)
  ]

  has-staff :
      (ids : List Text) (x : Text)
      → has (add_id (to_set [] (staff_ids ids)) user_id) x
        ≡ (has (staff_ids ids) x || text_eq user_id x)
  has-staff ids x =
      unfold has in
      ground
        (arith, has-add_id (to_set [] (staff_ids ids)) user_id x, has-to_set [] (staff_ids ids) x)

  staff_found :
      (ids : List Text) (x : Text)
      → IsScope db user_id ids
      → has (add_id (to_set [] (staff_ids ids)) user_id) x ≡ true
      → InOrg db user_id x
  staff_found ids x s h = elim (Bool-cases (text_eq user_id x)) [
    | inl own ↦ oneself (sym ((text_eq_iff user_id x).0 own))
    | inr other ↦
        let (u, m, e) =
          mem_of_has-map (λ (u : User). u.id) (filter (in_groups ids) db.users) x
            (ground (arith, has-staff ids x)) in
        let (listed, inside) = of_filter (in_groups ids) db.users m in
        let (g, belongs, h') = in_groups-some ids u inside in
        staff u g listed e belongs (s.inside g h')
  ]

  found_staff :
      (ids : List Text) (x : Text)
      → IsScope db user_id ids
      → InOrg db user_id x
      → has (add_id (to_set [] (staff_ids ids)) user_id) x ≡ true
  found_staff ids x s (oneself e) = ground (arith, has-staff ids x, text_eq_iff user_id x, sym e)
  found_staff ids x s (staff row g listed e belongs inside) =
      let fits : in_groups ids row ≡ true = rw belongs (s.whole g inside) in
      let there =
        has-map_of_mem (λ (u : User). u.id) (filter (in_groups ids) db.users) row
          (to_filter (in_groups ids) db.users listed fits) in
      ground (arith, has-staff ids x, subst (λ k. has (staff_ids ids) k ≡ true) e there)

  org_of_scope :
      (ids : List Text)
      → IsScope db user_id ids
      → my_scope_group_ids db user_id ≡ ok ids
      → (out : List Text) × (org_scoped_user_ids db user_id ≡ ok out)
        × NoDup out
        × ((x : Text) → (has out x ≡ true) ↔ InOrg db user_id x)
  unfolding org_scoped_user_ids
  org_of_scope [] s e = (
    user_id ∷ [],
    rw e,
    (unfold has in refl, tt),
    λ x. (
      λ h. oneself (sym ((text_eq_iff user_id x).0 (rw has-singleton at h))),
      λ (o : InOrg db user_id x). alone x o,
    ),
  )
    where
      alone : (x : Text) → InOrg db user_id x → has (user_id ∷ []) x ≡ true
      alone x (oneself e) = rw (has-singleton, e) (text_eq_refl user_id)
      alone x (staff row g listed e belongs inside) = unfold has in cc (s.whole g inside)
  org_of_scope (g ∷ gs) s e = (
    add_id (to_set [] (staff_ids (g ∷ gs))) user_id,
    rw e,
    NoDup-add_id (to_set [] (staff_ids (g ∷ gs))) user_id (NoDup-to_set [] (staff_ids (g ∷ gs)) tt),
    λ x. (staff_found (g ∷ gs) x s, found_staff (g ∷ gs) x s),
  )

  -- The call returns the ids of the user and of all users whose department lies in the user's scope,
  -- each once.
  pub org_scoped_user_ids_exact :
      (ids : List Text) × (org_scoped_user_ids db user_id ≡ ok ids)
      × NoDup ids
      × ((x : Text) → (has ids x ≡ true) ↔ InOrg db user_id x)
  org_scoped_user_ids_exact = let (ids, e, s) = my_scope_group_ids_exact in org_of_scope ids s e
