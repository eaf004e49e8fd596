-- ===== src/Permission/Visible/Agrees.antt =====
-- A list of apps shows exactly the apps that the user may view.
use nocode_app.Base.{
  Text, codes, text_eq, text_eq_iff, opt_text_eq, opt_text_eq_iff, has, has-append, true, false,
  ◌&&◌, Option, none, some, List, [], ◌∷◌, ◌++◌, map, filter, of_filter, to_filter, ok, ◌≡◌, ◌≢◌,
  NoDup, ◌↔◌, ◌⊎◌, inl, inr, ⊎_elim, refl, sym, ap, subst, arith, Memᴰ, Bool-cases, to_set,
  has-to_set, NoDup-to_set,
}
use nocode_app.Schema.{
  App, AppPermission, Tables, find_app, system_admin, target_all, target_user, target_group,
}
use nocode_app.Base.Keys.{has-map_of_mem, mem_of_has-map, find_unique, find-key}
use nocode_app.Permission.Rights.{Effective, view, my_group_ids, effective}
use nocode_app.Permission.Rights.Exact.{
  Grant, Applies, to_all, to_user, to_group, member-group, group-IsMember,
}
use nocode_app.Permission.Rights.Exact.{has_self, effective-view}
use nocode_app.Permission.Visible.{or_no_group, in_list, shows, visible_app_ids}

abbrev no_group : Text
no_group = codes "__none__"

-- The tests of the two calls agree, unless a row names the placeholder department.
in_list-present :
    (ids : List Text) (o : Option Text)
    → o ≢ some no_group
    → in_list (or_no_group ids) o ≡ true
    → (g : Text) × (o ≡ some g) × (has ids g ≡ true)
unfolding has
in_list-present ids none n h = cc
in_list-present [] (some g) n h =
    absurd (n (let e : no_group ≡ g = ground (arith, text_eq_iff no_group g) in ap some (sym e)))
in_list-present (d ∷ ds) (some g) n h = (g, refl, h)

present-in_list :
    (ids : List Text) (o : Option Text) (g : Text)
    → o ≡ some g
    → has ids g ≡ true
    → in_list (or_no_group ids) o ≡ true
unfolding has
present-in_list ids none g e h = cc
present-in_list [] (some x) g e h = cc
present-in_list (d ∷ ds) (some x) g e h = let e' : x ≡ g = cc in rw e' h

module _ (db : Tables) (user_id role app_id : Text) where
  shows-Applies :
      (p : AppPermission)
      → p.target_id ≢ some no_group
      → shows user_id (my_group_ids db user_id) p ≡ true
      → Applies db user_id p × (p.can_view ≡ true)
  unfolding shows
  shows-Applies p n h = (go (Bool-cases (text_eq p.target_type target_all)), ground arith)
    where
      go :
          (text_eq p.target_type target_all ≡ true) ⊎ (text_eq p.target_type target_all ≡ false)
          → Applies db user_id p
      go (inl all) = to_all ((text_eq_iff p.target_type target_all).0 all)
      go (inr not_all) =
          elim (Bool-cases (text_eq p.target_type target_user && opt_text_eq p.target_id user_id)) [
            | inl own ↦
                to_user ((text_eq_iff p.target_type target_user).0 (ground arith))
                  ((opt_text_eq_iff p.target_id user_id).0 (ground arith))
            | inr not_own ↦
                let (g, e, inside) =
                  in_list-present (my_group_ids db user_id) p.target_id n (ground arith) in
                to_group g ((text_eq_iff p.target_type target_group).0 (ground arith)) e
                  (group-IsMember db user_id role app_id g inside)
          ]

  Applies-shows :
      (p : AppPermission)
      → Applies db user_id p
      → p.can_view ≡ true
      → shows user_id (my_group_ids db user_id) p ≡ true
  unfolding shows
  Applies-shows p (to_all e) v = ground (arith, text_eq_iff p.target_type target_all)
  Applies-shows p (to_user e f) v =
      ground (arith, text_eq_iff p.target_type target_user, opt_text_eq_iff p.target_id user_id)
  Applies-shows p (to_group g e f m) v = ground (
    arith,
    text_eq_iff p.target_type target_group,
    present-in_list (my_group_ids db user_id) p.target_id g f
        (rw (member-group db user_id role app_id g m) (has_self g)),
  )

  abbrev owned : List App
  owned = filter (λ a. text_eq a.created_by user_id) db.apps

  abbrev shown : List AppPermission
  shown = filter (shows user_id (my_group_ids db user_id)) db.permissions

  shown-Grant :
      ((p : AppPermission) → Memᴰ p db.permissions → p.target_id ≢ some no_group)
      → (has (map (λ (p : AppPermission). p.app_id) shown) app_id ≡ true)
        ↔ Grant db user_id app_id view
  shown-Grant named = (
    λ h.
        let (p, m, e) = mem_of_has-map (λ (p : AppPermission). p.app_id) shown app_id h in
        let (listed, s) = of_filter (shows user_id (my_group_ids db user_id)) db.permissions m in
        let (fits, sees) = shows-Applies p (named p listed) s in
        record { row = p; listed = listed; for_app = e; gives = sees; applies = fits },
    λ g.
        subst (λ k. has (map (λ (p : AppPermission). p.app_id) shown) k ≡ true) g.for_app
          (has-map_of_mem (λ (p : AppPermission). p.app_id) shown g.row
            (to_filter (shows user_id (my_group_ids db user_id)) db.permissions g.listed
              (Applies-shows g.row g.applies g.gives))),
  )

  owned_iff :
      (app : App)
      → NoDup (map (λ (a : App). a.id) db.apps)
      → find_app db.apps app_id ≡ some app
      → (has (map (λ (a : App). a.id) owned) app_id ≡ true) ↔ (app.created_by ≡ user_id)
  unfolding find_app
  owned_iff app unique found =
      let (there, named) = find-key (λ (a : App). a.id) db.apps app_id found in
      (
        λ h.
            let (a, m, e) = mem_of_has-map (λ (a : App). a.id) owned app_id h in
            let (listed, own) = of_filter (λ a. text_eq a.created_by user_id) db.apps m in
            let same = find_unique (λ (a : App). a.id) db.apps a unique listed in
            let e' : a ≡ app = cc (found, rw e at same) in
            rw (← e') ((text_eq_iff a.created_by user_id).0 own),
        λ h.
            subst (λ k. has (map (λ (a : App). a.id) owned) k ≡ true) named
              (has-map_of_mem (λ (a : App). a.id) owned app
                (to_filter (λ a. text_eq a.created_by user_id) db.apps there
                  ((text_eq_iff app.created_by user_id).1 h))),
      )

  abbrev shown_ids : List Text
  shown_ids = map (λ (a : App). a.id) owned ++ map (λ (p : AppPermission). p.app_id) shown

  shown_iff :
      (app : App)
      → NoDup (map (λ (a : App). a.id) db.apps)
      → ((p : AppPermission) → Memᴰ p db.permissions → p.target_id ≢ some no_group)
      → find_app db.apps app_id ≡ some app
      → (has shown_ids app_id ≡ true) ↔ ((app.created_by ≡ user_id) ⊎ Grant db user_id app_id view)
  shown_iff app unique named found =
      let parts =
        has-append (map (λ (a : App). a.id) owned) (map (λ (p : AppPermission). p.app_id) shown)
          app_id in
      (
        λ h.
            ⊎_elim (λ o. inl ((owned_iff app unique found).0 o))
              (λ g. inr ((shown-Grant named).0 g)) (parts.0 h),
        λ h. parts.1 (
            ⊎_elim (λ o. inl ((owned_iff app unique found).1 o))
              (λ g. inr ((shown-Grant named).1 g)) h),
      )

  -- For a user who is no administrator: the call returns a list without repetitions, and an app that
  -- is there stands on it exactly when getEffectivePermission lets the user view the app. The ids of
  -- the apps are unique, and no row of the permissions names the department `__none__`.
  pub visible_app_ids_agrees :
      (app : App)
      → role ≢ system_admin
      → NoDup (map (λ (a : App). a.id) db.apps)
      → ((p : AppPermission) → Memᴰ p db.permissions → p.target_id ≢ some no_group)
      → find_app db.apps app_id ≡ some app
      → (ids : List Text) × (visible_app_ids db user_id role ≡ some ids)
        × NoDup ids
        × ((has ids app_id ≡ true)
            ↔ ((e : Effective) × (effective db user_id role app_id ≡ ok e) × (e.can_view ≡ true)))
  unfolding visible_app_ids
  visible_app_ids_agrees app not_admin unique named found = (
    to_set [] shown_ids,
    ground (arith, text_eq_iff role system_admin),
    NoDup-to_set [] shown_ids tt,
    (
      λ h. viewed.1 ((shown_iff app unique named found).0 (same h)),
      λ h. ground (
        arith,
        has-to_set [] shown_ids app_id,
        (shown_iff app unique named found).1 (viewed.0 h),
      ),
    ),
  )
    where
      viewed :
          ((e : Effective) × (effective db user_id role app_id ≡ ok e) × (e.can_view ≡ true))
          ↔ ((app.created_by ≡ user_id) ⊎ Grant db user_id app_id view)
      viewed = effective-view db user_id role app_id app not_admin found

      same : has (to_set [] shown_ids) app_id ≡ true → has shown_ids app_id ≡ true
      same h = unfold has in ground (arith, has-to_set [] shown_ids app_id)
