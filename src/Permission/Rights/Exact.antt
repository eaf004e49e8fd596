-- ===== src/Permission/Rights/Exact.antt =====
-- What getEffectivePermission grants, against the rules that the code states as comments.
use nocode_app.Base.{
  Text, text_eq, text_eq_iff, text_eq_refl, opt_text_eq, opt_text_eq_iff, has, present, Bool, true,
  false, not, ◌&&◌, ◌||◌, Option, none, some, List, [], ◌∷◌, filter, any, of_filter, to_filter,
  any_of_mem, mem_of_any, ok, err, not_found, ◌≡◌, ◌≢◌, ◌↔◌, ◌⊎◌, inl, inr, ⊎_elim, refl, ap, arith,
  Memᴰ, Bool-cases, Option-cases, List-cases,
}
use nocode_app.Schema.{
  User, App, AppPermission, Tables, find_user, find_app, system_admin, viewer, target_all,
  target_user, target_group,
}
use nocode_app.Permission.Rights.{
  Effective, Action, view, add, edit, delete, manage, allows, all_allowed, none_allowed,
  my_group_ids, group_list, targets_group, is_applicable, join, join_all, restrict, granted,
  effective_in, effective,
}

-- The column of a permission row that an action reads.
abbrev pub flag : Action → AppPermission → Bool
flag view p = p.can_view
flag add p = p.can_add
flag edit p = p.can_edit
flag delete p = p.can_delete
flag manage p = p.can_manage

-- The user's department column holds `g`, which is not empty.
pub record IsMember (db : Tables) (user_id g : Text) : Type 0 where
  pub user : User
  pub found : find_user db.users user_id ≡ some user
  pub group : user.group_id ≡ some g
  pub nonempty : g ≢ []

-- Whom a permission row is for.
pub data Applies (db : Tables) (user_id : Text) (p : AppPermission) : Type 0 where
  to_all : p.target_type ≡ target_all → Applies db user_id p
  to_user : p.target_type ≡ target_user → p.target_id ≡ some user_id → Applies db user_id p
  to_group :
      (g : Text)
      → p.target_type ≡ target_group
      → p.target_id ≡ some g
      → IsMember db user_id g
      → Applies db user_id p

-- A row that gives the user the action on the app.
pub record Grant (db : Tables) (user_id app_id : Text) (a : Action) : Type 0 where
  pub row : AppPermission
  pub listed : Memᴰ row db.permissions
  pub for_app : row.app_id ≡ app_id
  pub gives : flag a row ≡ true
  pub applies : Applies db user_id row

abbrev is_view : Action → Bool
is_view view = true
is_view add = false
is_view edit = false
is_view delete = false
is_view manage = false

allows-join :
    (e : Effective) (p : AppPermission) (a : Action)
    → allows (join e p) a ≡ (allows e a || flag a p)
unfolding join
allows-join e p view = refl
allows-join e p add = refl
allows-join e p edit = refl
allows-join e p delete = refl
allows-join e p manage = refl

allows-join_all :
    (e : Effective) (ps : List AppPermission) (a : Action)
    → allows (join_all e ps) a ≡ (allows e a || any (flag a) ps)
unfolding join_all any
allows-join_all e [] a = ground arith
allows-join_all e (p ∷ ps) a = ground (arith, allows-join_all (join e p) ps a, allows-join e p a)

allows-restrict :
    (role : Text) (e : Effective) (a : Action)
    → allows (restrict role e) a ≡ (allows e a && (is_view a || not (text_eq role viewer)))
unfolding restrict
allows-restrict role e view = ground arith
allows-restrict role e add = ground arith
allows-restrict role e edit = ground arith
allows-restrict role e delete = ground arith
allows-restrict role e manage = ground arith

allows-none : (a : Action) → allows none_allowed a ≡ false
allows-none view = refl
allows-none add = refl
allows-none edit = refl
allows-none delete = refl
allows-none manage = refl

group_list-of_some : (g : Text) → g ≢ [] → group_list (some g) ≡ g ∷ []
group_list-of_some [] h = absurd (h refl)
group_list-of_some (c ∷ cs) h = refl

-- What is in the list of departments is the department column, which is not empty.
has-group_list :
    (o : Option Text) (g : Text) → has (group_list o) g ≡ true → (o ≡ some g) × (g ≢ [])
unfolding has
has-group_list none g h = absurd (cc)
has-group_list (some []) g h = absurd (cc)
has-group_list (some (c ∷ cs)) g h =
    let e : c ∷ cs ≡ g = ground (arith, text_eq_iff (c ∷ cs) g) in (ap some e, λ z. cc)

pub of_targets_group :
    (ids : List Text) (o : Option Text)
    → targets_group ids o ≡ true
    → (g : Text) × (o ≡ some g) × (has ids g ≡ true) × (g ≢ [])
unfolding present
of_targets_group ids none h = cc
of_targets_group ids (some []) h = cc
of_targets_group ids (some (c ∷ cs)) h = (c ∷ cs, refl, h, λ e. cc)

pub to_targets_group :
    (ids : List Text) (o : Option Text) (g : Text)
    → o ≡ some g
    → g ≢ []
    → has ids g ≡ true
    → targets_group ids o ≡ true
unfolding present
to_targets_group ids none g e n h = cc
to_targets_group ids (some []) g e n h = absurd (n (cc))
to_targets_group ids (some (c ∷ cs)) g e n h = let e' : c ∷ cs ≡ g = cc in rw e' h

pub has_self : (g : Text) → has (g ∷ []) g ≡ true
unfolding has
has_self g = ground (arith, text_eq_refl g)

module _ (db : Tables) (user_id role app_id : Text) where
  abbrev rows : List AppPermission
  rows = filter (λ p. text_eq p.app_id app_id) db.permissions

  abbrev applicable : AppPermission → Bool
  applicable = is_applicable user_id (my_group_ids db user_id)

  granted-any :
      (a : Action)
      → allows (granted db user_id role app_id) a
        ≡ (any (flag a) (filter applicable rows) && (is_view a || not (text_eq role viewer)))
  unfolding granted
  granted-any a = elim (List-cases rows) [
    | inl e ↦ rw (e, granted) (unfold filter any in allows-none a)
    | inr (p, ps, e) ↦
        rw (e, granted)
          (ground (
            arith,
            allows-restrict role (join_all none_allowed (filter applicable (p ∷ ps))) a,
            allows-join_all none_allowed (filter applicable (p ∷ ps)) a,
            allows-none a,
          ))
  ]

  pub member-group : (g : Text) → IsMember db user_id g → my_group_ids db user_id ≡ g ∷ []
  unfolding my_group_ids
  member-group g m = rw (m.found, m.group) (group_list-of_some g m.nonempty)

  pub group-IsMember : (g : Text) → has (my_group_ids db user_id) g ≡ true → IsMember db user_id g
  unfolding my_group_ids
  group-IsMember g h = elim (Option-cases (find_user db.users user_id)) [
    | inl e ↦ cc (has-group_list none g (rw e at h)).0
    | inr (u, e) ↦
        let (eq, nonempty) = has-group_list u.group_id g (rw e at h) in
        record { user = u; found = e; group = eq; nonempty = nonempty }
  ]

  applicable-Applies : (p : AppPermission) → applicable p ≡ true → Applies db user_id p
  unfolding is_applicable
  applicable-Applies p h = elim (Bool-cases (text_eq p.target_type target_all)) [
    | inl all ↦ to_all ((text_eq_iff p.target_type target_all).0 all)
    | inr not_all ↦
        elim (Bool-cases (text_eq p.target_type target_user && opt_text_eq p.target_id user_id)) [
          | inl own ↦
              to_user ((text_eq_iff p.target_type target_user).0 (ground arith))
                ((opt_text_eq_iff p.target_id user_id).0 (ground arith))
          | inr not_own ↦
              let (g, e, inside, _) =
                of_targets_group (my_group_ids db user_id) p.target_id (ground arith) in
              to_group g ((text_eq_iff p.target_type target_group).0 (ground arith)) e
                (group-IsMember g inside)
        ]
  ]

  Applies-applicable : (p : AppPermission) → Applies db user_id p → applicable p ≡ true
  unfolding is_applicable
  Applies-applicable p (to_all e) = rw (e, text_eq_refl)
  Applies-applicable p (to_user e f) =
      ground (arith, text_eq_iff p.target_type target_user, opt_text_eq_iff p.target_id user_id)
  Applies-applicable p (to_group g e f m) = ground (
    arith,
    text_eq_iff p.target_type target_group,
    to_targets_group (my_group_ids db user_id) p.target_id g f m.nonempty
        (rw (member-group g m) (has_self g)),
  )

  -- A row of the app that applies and has the flag, found by the code's filters.
  any-Grant :
      (a : Action) → any (flag a) (filter applicable rows) ≡ true → Grant db user_id app_id a
  any-Grant a h =
      let (row, m, gives) = mem_of_any (flag a) (filter applicable rows) h in
      let (m', fits) = of_filter applicable rows m in
      let (listed, here) = of_filter (λ p. text_eq p.app_id app_id) db.permissions m' in
      record {
        row = row;
        listed = listed;
        for_app = (text_eq_iff row.app_id app_id).0 here;
        gives = gives;
        applies = applicable-Applies row fits;
      }

  Grant-any :
      (a : Action) → Grant db user_id app_id a → any (flag a) (filter applicable rows) ≡ true
  Grant-any a g =
      any_of_mem (flag a) (filter applicable rows)
        (to_filter applicable rows
          (to_filter (λ p. text_eq p.app_id app_id) db.permissions g.listed
            ((text_eq_iff g.row.app_id app_id).1 g.for_app))
          (Applies-applicable g.row g.applies))
        g.gives

  viewer_only :
      (a : Action) → (is_view a || not (text_eq role viewer)) ≡ true → (role ≢ viewer) ⊎ (a ≡ view)
  viewer_only view h = inr refl
  viewer_only add h = inl (λ e. ground (arith, text_eq_iff role viewer))
  viewer_only edit h = inl (λ e. ground (arith, text_eq_iff role viewer))
  viewer_only delete h = inl (λ e. ground (arith, text_eq_iff role viewer))
  viewer_only manage h = inl (λ e. ground (arith, text_eq_iff role viewer))

  open_to :
      (a : Action) → (role ≢ viewer) ⊎ (a ≡ view) → (is_view a || not (text_eq role viewer)) ≡ true
  open_to a (inr e) = rw e
  open_to a (inl h) = elim (Bool-cases (text_eq role viewer)) [
    | inl e ↦ absurd (h ((text_eq_iff role viewer).0 e))
    | inr e ↦ ground arith
  ]

  pub granted_iff :
      (a : Action)
      → (allows (granted db user_id role app_id) a ≡ true)
        ↔ (Grant db user_id app_id a × ((role ≢ viewer) ⊎ (a ≡ view)))
  granted_iff a = (
    λ h. (
      any-Grant a (ground (arith, granted-any a)),
      viewer_only a (ground (arith, granted-any a)),
    ),
    λ h. ground (arith, granted-any a, Grant-any a h.0, open_to a h.1),
  )

  pub effective_exact :
      (app : App) (a : Action)
      → role ≢ system_admin
      → find_app db.apps app_id ≡ some app
      → app.created_by ≢ user_id
      → (e : Effective) × (effective db user_id role app_id ≡ ok e)
        × ((allows e a ≡ true) ↔ (Grant db user_id app_id a × ((role ≢ viewer) ⊎ (a ≡ view))))
  unfolding effective effective_in
  effective_exact app a not_admin found not_owner = (
    granted db user_id role app_id,
    ground (arith, text_eq_iff role system_admin, text_eq_iff app.created_by user_id),
    granted_iff a,
  )

  -- The lookup fails exactly for a user who is no administrator and an app that is not there.
  pub effective-not_found :
      (effective db user_id role app_id ≡ err not_found)
      ↔ ((role ≢ system_admin) × (find_app db.apps app_id ≡ none))
  unfolding effective effective_in
  effective-not_found = elim (Option-cases (find_app db.apps app_id)) [
    | inl gone ↦ rw gone (elim (Bool-cases (text_eq role system_admin)) [
      | inl e ↦ rw e (λ h. cc, λ h. absurd (h.0 ((text_eq_iff role system_admin).0 e)))
      | inr e ↦ rw e (λ h. (λ z. ground (arith, text_eq_iff role system_admin), refl), λ h. refl)
    ])
    | inr (app, there) ↦ rw there (λ h. ground arith, λ h. cc (h.1))
  ]

  pub effective-view :
      (app : App)
      → role ≢ system_admin
      → find_app db.apps app_id ≡ some app
      → ((e : Effective) × (effective db user_id role app_id ≡ ok e) × (e.can_view ≡ true))
        ↔ ((app.created_by ≡ user_id) ⊎ Grant db user_id app_id view)
  unfolding effective effective_in
  effective-view app not_admin found = elim (Bool-cases (text_eq app.created_by user_id)) [
    | inl own ↦ (
      λ h. inl ((text_eq_iff app.created_by user_id).0 own),
      λ h. (all_allowed, ground (arith, text_eq_iff role system_admin), refl),
    )
    | inr other ↦
        let not_owner : app.created_by ≢ user_id =
          λ z. cc (other, (text_eq_iff app.created_by user_id).1 z) in
        let (e, returned, sees) = effective_exact app view not_admin found not_owner in
        (
          λ h. let same : h.0 ≡ e = cc (h.1, returned) in inr (sees.0 (rw (← same) h.2)).0,
          λ h. (e, returned, sees.1 (⊎_elim (λ z. absurd (not_owner z)) (λ g. g) h, inr refl)),
        )
  ]
