-- ===== src/Groups/Ops/Removal.antt =====
-- What removing a department takes away: it and all below it, and nobody stays a member of those.
use mathlib.Core.List.Memᴰ
use nocode_app.Base.{
  ℕ, Text, has, NoDup, Bool, true, false, not, Option, none, some, List, [], ◌∷◌, map, length,
  filter, of_filter, to_filter, ok, ◌≡◌, ◌↔◌, inl, inr, refl, sym, ap, subst, ◌∙◌, arith, Memᴰ,
  Bool-cases, Option-cases,
}
use nocode_app.Schema.{User, Group, find_group}
use nocode_app.Base.Keys.{has-map_of_mem, mem_of_has-map}
use nocode_app.Org.Reach.{Below, child}
use nocode_app.Org.Subtree.{IsSubtree}
use nocode_app.Groups.Ops.{Directory, remove, forget_deleted, delete_groups}
use nocode_app.Groups.Ops.Forest.{
  group_ids, IsForest, descendant_group_ids_exact, acyclic_moved, find_group_of_has,
  has_of_find_group,
}

abbrev cut_group : List Text → Group → Group
cut_group ids g = record g { parent_id = forget_deleted ids g.parent_id }

abbrev cut_user : List Text → User → User
cut_user ids u = record u { group_id = forget_deleted ids u.group_id }

forget_none_deleted :
    (ids : List Text) (o : Option Text)
    → ((p : Text) → o ≡ some p → has ids p ≡ false)
    → forget_deleted ids o ≡ o
unfolding forget_deleted
forget_none_deleted ids none h = refl
forget_none_deleted ids (some p) h = rw (h p refl)

forget_some :
    (ids : List Text) (o : Option Text) {g : Text}
    → forget_deleted ids o ≡ some g
    → (o ≡ some g) × (has ids g ≡ false)
unfolding forget_deleted
forget_some ids none e = cc
forget_some ids (some p) e = ground arith

module _ (db : Directory) (id : Text) (ids : List Text) (forest : IsForest db.groups)
    (tree : IsSubtree db.groups id ids) where
  abbrev left : List Group
  left = (delete_groups db ids).groups

  -- A row that stays does not name a deleted one as its parent.
  stays_whole : (g : Group) → Memᴰ g db.groups → has ids g.id ≡ false → cut_group ids g ≡ g
  stays_whole g m apart =
      ap (λ o. record g { parent_id = o })
        (forget_none_deleted ids g.parent_id λ p e. elim (Bool-cases (has ids p)) [
          | inl below ↦ cc (
            apart,
            tree.complete g.id (
                child (tree.below p below) (forest.parents g p m e).0
                  (record { row = g; listed = m; id_eq = refl; parent_eq = e })),
          )
          | inr out ↦ out
        ])

  left_iff : (r : Group) → Memᴰ r left ↔ (Memᴰ r db.groups × (¬ Below db.groups id r.id))
  unfolding delete_groups
  left_iff r = (
    λ m.
        let (g, kept, e) =
          Memᴰ.of_map (cut_group ids) (filter (λ g. not (has ids g.id)) db.groups) m in
        let (listed, out) = of_filter (λ g. not (has ids g.id)) db.groups kept in
        let apart : has ids g.id ≡ false = ground arith in
        let same : g ≡ r = sym (stays_whole g listed apart) ∙ e in
        (
          subst (λ x. Memᴰ x db.groups) same listed,
          λ b. cc (apart, ap (λ (x : Group). has ids x.id) same, tree.complete r.id b),
        ),
    λ h.
        let apart : has ids r.id ≡ false = elim (Bool-cases (has ids r.id)) [
          | inl below ↦ absurd (h.1 (tree.below r.id below))
          | inr out ↦ out
        ] in
        subst (λ x. Memᴰ x left) (stays_whole r h.0 apart)
          (Memᴰ.map (cut_group ids) (to_filter (λ g. not (has ids g.id)) db.groups h.0 (rw apart))),
  )

  users_left :
      (u : User) (g : Text)
      → Memᴰ u (delete_groups db ids).users
      → u.group_id ≡ some g
      → ¬ Below db.groups id g
  unfolding delete_groups
  users_left u g m e b =
      let (v, listed, is) = Memᴰ.of_map (cut_user ids) db.users m in
      let (_, apart) = forget_some ids v.group_id (ap (λ (x : User). x.group_id) is ∙ e) in
      cc (apart, tree.complete g b)

NoDup-filter :
    (p : Group → Bool) (groups : List Group)
    → NoDup (group_ids groups)
    → NoDup (group_ids (filter p groups))
unfolding filter
NoDup-filter p [] n = tt
NoDup-filter p (g ∷ groups) n = elim (Bool-cases (p g)) [
  | inl keep ↦ rw keep (absent, NoDup-filter p groups n.1)
  | inr drop ↦ rw drop (NoDup-filter p groups n.1)
]
  where
    absent : has (group_ids (filter p groups)) g.id ≡ false
    absent = elim (Bool-cases (has (group_ids (filter p groups)) g.id)) [
      | inl there ↦
          let (x, m, e) = mem_of_has-map (λ (x : Group). x.id) (filter p groups) g.id there in
          cc (
            n.0,
            subst (λ k. has (group_ids groups) k ≡ true) e
                (has-map_of_mem (λ (x : Group). x.id) groups x (of_filter p groups m).0),
          )
      | inr out ↦ out
    ]

ids_cut :
    (ids : List Text) (groups : List Group)
    → group_ids (map (cut_group ids) groups) ≡ group_ids groups
ids_cut ids [] = refl
ids_cut ids (g ∷ groups) = ap (λ r. g.id ∷ r) (ids_cut ids groups)

module _ (db : Directory) (id : Text) (forest : IsForest db.groups) where
  abbrev IsAnswer : Directory × ℕ → List Text → Type 0
  IsAnswer r below =
      (remove db id ≡ ok r)
      × (r ≡ (delete_groups db (id ∷ below), length (id ∷ below)))
      × IsSubtree db.groups id (id ∷ below)

  answered :
      has (group_ids db.groups) id ≡ true
      → (r : Directory × ℕ) × (below : List Text) × IsAnswer r below
  unfolding remove
  answered there =
      let (below, e, tree) = descendant_group_ids_exact db.groups id in
      let (g, found) = find_group_of_has db.groups id there in
      (
        (delete_groups db (id ∷ below), length (id ∷ below)),
        below,
        (ground (arith, e, found), refl, tree),
      )

  IsAnswer-of : {r : Directory × ℕ} → remove db id ≡ ok r → (below : List Text) × IsAnswer r below
  IsAnswer-of {r} h =
      let (r', below, answer) = answered there in
      let same : r' ≡ r = cc (h, answer.0) in (below, (h, sym same ∙ answer.1, answer.2))
    where
      there : has (group_ids db.groups) id ≡ true
      there = elim (Option-cases (find_group db.groups id)) [
        | inl gone ↦ unfold remove in ground (arith, gone)
        | inr (g, found) ↦ has_of_find_group db.groups id found
      ]

  -- In a forest, removing a department that is there deletes exactly it and the rows below it, and
  -- every other row stays as it was.
  pub remove_exact :
      (r : Group)
      → has (group_ids db.groups) id ≡ true
      → (db' : Directory) × (n : ℕ) × (remove db id ≡ ok (db', n))
        × (Memᴰ r db'.groups ↔ (Memᴰ r db.groups × (¬ Below db.groups id r.id)))
  remove_exact r there =
      let (out, below, answer) = answered there in
      (
        delete_groups db (id ∷ below),
        length (id ∷ below),
        answer.0 ∙ ap ok answer.1,
        left_iff db id (id ∷ below) forest answer.2 r,
      )

  -- After a removal nobody belongs to a department that was deleted.
  pub remove_members :
      {db' : Directory} {n : ℕ} (u : User) (g : Text)
      → remove db id ≡ ok (db', n)
      → Memᴰ u db'.users
      → u.group_id ≡ some g
      → ¬ Below db.groups id g
  remove_members {db'} {n} u g h m e =
      let (below, answer) = IsAnswer-of h in
      users_left db id (id ∷ below) forest answer.2 u g
        (subst (λ (d : Directory). Memᴰ u d.users) (ap (λ (p : Directory × ℕ). p.0) answer.1) m) e

  -- A removal keeps the forest.
  pub remove-IsForest : {db' : Directory} {n : ℕ} → remove db id ≡ ok (db', n) → IsForest db'.groups
  remove-IsForest {db'} {n} h =
      let (below, answer) = IsAnswer-of h in
      subst (λ (d : Directory). IsForest d.groups) (sym (ap (λ (p : Directory × ℕ). p.0) answer.1))
        (left-IsForest (id ∷ below) answer.2)
    where
      left-IsForest :
          (ids : List Text) → IsSubtree db.groups id ids → IsForest (delete_groups db ids).groups
      left-IsForest ids tree =
          let stays = left_iff db id ids forest tree in
          record {
            keys =
                unfold delete_groups in
                rw (ids_cut ids (filter (λ g. not (has ids g.id)) db.groups))
                  (NoDup-filter (λ g. not (has ids g.id)) db.groups forest.keys);
            parents = λ g p m e.
                let (listed, apart) = (stays g).0 m in
                let (nonempty, there) = forest.parents g p listed e in
                let (row, found, is) = mem_of_has-map (λ (x : Group). x.id) db.groups p there in
                let out : ¬ Below db.groups id p = λ b. apart (
                  child b nonempty
                    (record { row = g; listed = listed; id_eq = refl; parent_eq = e })) in
                (
                  nonempty,
                  subst (λ k. has (group_ids (delete_groups db ids).groups) k ≡ true) is
                      (has-map_of_mem (λ (x : Group). x.id) (delete_groups db ids).groups row
                        ((stays row).1 (found, λ b. out (subst (Below db.groups id) is b)))),
                );
            acyclic =
                acyclic_moved db.groups (delete_groups db ids).groups id none
                  (λ r p m e.
                    inr
                      (record { row = r; listed = ((stays r).0 m).0; id_eq = refl; parent_eq = e }))
                  (λ p e. cc) forest;
          }
