-- ===== src/Permission/Scope/Decisions.antt =====
-- What the calls on a user's scope decide: who may be managed, and whose records may be touched.
use nocode_app.Base.{
  Text, text_eq, text_eq_iff, has, has-singleton, Bool, true, false, Option, none, some, List, [],
  ◌∷◌, ok, ◌≡◌, ◌≢◌, ◌↔◌, ◌⊎◌, inl, inr, ⊎_elim, refl, sym, arith, Bool-cases, Option-cases,
}
use nocode_app.Schema.{App, Tables, find_user, find_app, system_admin, scope_owner, scope_org}
use nocode_app.Permission.Rights.{group_of, targets_group}
use nocode_app.Permission.Rights.Exact.{IsMember, of_targets_group, to_targets_group}
use nocode_app.Permission.Scope.{
  my_scope_group_ids, is_user_in_scope, Kind, scope_of, creators_in, allowed_creator_ids,
}
use nocode_app.Permission.Scope.Members
use nocode_app.Permission.Scope.Members.{
  InScope, InOrg, IsScope, my_scope_group_ids_exact, org_scoped_user_ids_exact,
}

-- Whom an administrator of departments may manage.
pub data Manages (db : Tables) (admin_id role target_id : Text) : Type 0 where
  as_admin : role ≡ system_admin → Manages db admin_id role target_id
  oneself : target_id ≡ admin_id → Manages db admin_id role target_id
  in_department :
      (g : Text)
      → IsMember db target_id g
      → InScope db admin_id g
      → Manages db admin_id role target_id

module _ (db : Tables) (admin_id role target_id : Text) where
  IsMember-of_row :
      (ids : List Text)
      → targets_group ids (group_of (find_user db.users target_id)) ≡ true
      → (g : Text) × IsMember db target_id g × (has ids g ≡ true)
  IsMember-of_row ids h = elim (Option-cases (find_user db.users target_id)) [
    | inl e ↦ cc (rw e at h)
    | inr (u, e) ↦
        let (g, belongs, inside, nonempty) = of_targets_group ids u.group_id (rw e at h) in
        (g, record { user = u; found = e; group = belongs; nonempty = nonempty }, inside)
  ]

  row_of_member :
      (ids : List Text) (g : Text)
      → IsMember db target_id g
      → has ids g ≡ true
      → targets_group ids (group_of (find_user db.users target_id)) ≡ true
  row_of_member ids g m h = rw m.found (to_targets_group ids m.user.group_id g m.group m.nonempty h)

  scope_decides :
      (ids : List Text)
      → role ≢ system_admin
      → target_id ≢ admin_id
      → IsScope db admin_id ids
      → (targets_group ids (group_of (find_user db.users target_id)) ≡ true)
        ↔ Manages db admin_id role target_id
  scope_decides ids not_admin not_self s = (
    λ h. let (g, m, inside) = IsMember-of_row ids h in in_department g m (s.inside g inside),
    back,
  )
    where
      back :
          Manages db admin_id role target_id
          → targets_group ids (group_of (find_user db.users target_id)) ≡ true
      back (as_admin e) = absurd (not_admin e)
      back (oneself e) = absurd (not_self e)
      back (in_department g m inside) = row_of_member ids g m (s.whole g inside)

  targets-nil : (o : Option Text) → targets_group [] o ≡ false
  targets-nil none = refl
  targets-nil (some g) = unfold has in ground arith

  scope_answer :
      (ids : List Text)
      → role ≢ system_admin
      → target_id ≢ admin_id
      → my_scope_group_ids db admin_id ≡ ok ids
      → is_user_in_scope db admin_id role target_id
        ≡ ok (targets_group ids (group_of (find_user db.users target_id)))
  unfolding is_user_in_scope
  scope_answer [] not_admin not_self e = ground (
    arith,
    text_eq_iff role system_admin,
    text_eq_iff target_id admin_id,
    targets-nil (group_of (find_user db.users target_id)),
  )
  scope_answer (g ∷ gs) not_admin not_self e =
      ground (arith, text_eq_iff role system_admin, text_eq_iff target_id admin_id)

  -- isUserInScope answers, and says yes exactly for an administrator of the system, for oneself, and
  -- for a user whose department is the administrator's own or lies below it.
  pub is_user_in_scope_exact :
      (b : Bool) × (is_user_in_scope db admin_id role target_id ≡ ok b)
      × ((b ≡ true) ↔ Manages db admin_id role target_id)
  is_user_in_scope_exact = elim (Bool-cases (text_eq role system_admin)) [
    | inl admin ↦ (
      true,
      unfold is_user_in_scope in rw admin,
      (λ h. as_admin ((text_eq_iff role system_admin).0 admin), λ h. refl),
    )
    | inr other ↦ elim (Bool-cases (text_eq target_id admin_id)) [
      | inl self ↦ (
        true,
        unfold is_user_in_scope in rw (other, self),
        (λ h. oneself ((text_eq_iff target_id admin_id).0 self), λ h. refl),
      )
      | inr not_self ↦
          let (ids, e, s) = my_scope_group_ids_exact db admin_id in
          let not_admin : role ≢ system_admin =
            λ z. cc (other, (text_eq_iff role system_admin).1 z) in
          let different : target_id ≢ admin_id =
            λ z. cc (not_self, (text_eq_iff target_id admin_id).1 z) in
          (
            targets_group ids (group_of (find_user db.users target_id)),
            scope_answer ids not_admin different e,
            scope_decides ids not_admin different s,
          )
    ]
  ]

-- A restriction to some creators, or none, lets the creator's records through.
abbrev pub Permits : Option (List Text) → Text → Type 0
Permits none creator = Unit {0}
Permits (some ids) creator = has ids creator ≡ true

owner_ne_org : (s : Text) → s ≡ scope_owner → s ≢ scope_org
owner_ne_org s e f = ground arith

module _ (db : Tables) (app_id user_id role : Text) (kind : Kind) where
  -- For a user with no privilege over the app: the call answers, and lets through exactly the user's
  -- own records, those of the user's organisation where the scope of the app is `org`, and all where
  -- it is neither `org` nor `owner`.
  pub allowed_creator_ids_exact :
      (app : App) (creator : Text)
      → role ≢ system_admin
      → find_app db.apps app_id ≡ some app
      → app.created_by ≢ user_id
      → (o : Option (List Text)) × (allowed_creator_ids db app_id user_id role kind false ≡ ok o)
        × (Permits o creator ↔ (
            (creator ≡ user_id)
            ⊎ ((scope_of kind app ≡ scope_org) × InOrg db user_id creator)
            ⊎ ((scope_of kind app ≢ scope_org) × (scope_of kind app ≢ scope_owner))))
  unfolding allowed_creator_ids creators_in
  allowed_creator_ids_exact app creator not_admin found not_owner =
      elim (Bool-cases (text_eq (scope_of kind app) scope_owner)) [
        | inl own ↦
            let is_owner = (text_eq_iff (scope_of kind app) scope_owner).0 own in
            (
              some (user_id ∷ []),
              rw (admin_test, found, owner_test, own),
              (
                λ h. inl (sym ((text_eq_iff user_id creator).0 (rw has-singleton at h))),
                λ h. rw has-singleton (
                    (text_eq_iff user_id creator).1 (
                      ⊎_elim (λ e. sym e)
                        (λ r. absurd (
                          ⊎_elim (λ o. owner_ne_org (scope_of kind app) is_owner o.0)
                            (λ n. n.1 is_owner) r))
                        h)),
              ),
            )
        | inr not_own ↦ elim (Bool-cases (text_eq (scope_of kind app) scope_org)) [
          | inl org ↦
              let (ids, e, once, exact) = org_scoped_user_ids_exact db user_id in
              let is_org = (text_eq_iff (scope_of kind app) scope_org).0 org in
              (
                some ids,
                rw (admin_test, found, owner_test, not_own, org, e),
                (
                  λ h. inr (inl (is_org, (exact creator).0 h)),
                  λ h. (exact creator).1 (
                      ⊎_elim (λ e. Members.oneself e)
                        (λ r. ⊎_elim (λ o. o.1) (λ n. absurd (n.0 is_org)) r) h),
                ),
              )
          | inr not_org ↦ (
            none,
            rw (admin_test, found, owner_test, not_own, not_org),
            (
              λ h. inr (
                  inr (
                    λ z. cc (not_org, (text_eq_iff (scope_of kind app) scope_org).1 z),
                    λ z. cc (not_own, (text_eq_iff (scope_of kind app) scope_owner).1 z),
                  )),
              λ h. tt,
            ),
          )
        ]
      ]
    where
      admin_test : text_eq role system_admin ≡ false
      admin_test = ground (arith, text_eq_iff role system_admin)

      owner_test : text_eq app.created_by user_id ≡ false
      owner_test = ground (arith, text_eq_iff app.created_by user_id)
