-- ===== src/Records/Access/Mutations.antt =====
-- Who may change or delete a record.
use nocode_app.Base.{
  ℕ, Text, text_eq, text_eq_iff, Bool, true, false, ◌&&◌, Option, none, some, List, if◌then◌else◌,
  ok, err, forbidden, ◌>>=◌, require, bind_ok, ◌≡◌, ◌≢◌, ◌↔◌, ◌⊎◌, inl, inr, ⊎_elim, refl, arith,
  Bool-cases,
}
use nocode_app.Schema.{App, Tables, find_app, system_admin, scope_owner, scope_org}
use nocode_app.Permission.Rights.{
  Effective, Action, edit, delete, granted, effective, own_mutation_flags, effective_in,
}
use nocode_app.Permission.Scope.{Kind, for_edit, scope_of, allowed_creator_ids}
use nocode_app.Permission.Scope.Members.{InOrg}
use nocode_app.Permission.Scope.Decisions.{Permits, allowed_creator_ids_exact}
use nocode_app.Formula.Double.{Double}
use nocode_app.Records.Service.{Values, Row, Store, find_row}
use nocode_app.Records.Access.{
  Mutation, editing, deleting, has_action, own_flag, lets_through, assert_record_scope,
  assert_can_mutate, check_mutate, get_record_meta, Audited, update_call,
}

-- The action of a mutation, and the flag of an app that opens one's own records to it.
abbrev pub action_of : Mutation → Action
action_of editing = edit
action_of deleting = delete

abbrev pub opens_own : Mutation → App → Bool
opens_own editing app = app.creator_edit_own
opens_own deleting app = app.creator_delete_own

-- The records that a user with no privilege over the app reaches: their own, those of their organisation
-- where the scope is `org`, all where it is neither `org` nor `owner`.
abbrev pub Reaches : Tables → Text → Kind → App → Text → Type 0
Reaches db user kind app creator =
    (creator ≡ user)
    ⊎ ((scope_of kind app ≡ scope_org) × InOrg db user creator)
    ⊎ ((scope_of kind app ≢ scope_org) × (scope_of kind app ≢ scope_owner))

lets_through_iff :
    (o : Option (List Text)) (creator : Text) → (lets_through o creator ≡ true) ↔ Permits o creator
lets_through_iff none creator = (λ h. tt, λ h. refl)
lets_through_iff (some ids) creator = (λ h. h, λ h. h)

require_iff : (b : Bool) → (require b forbidden ≡ ok tt) ↔ (b ≡ true)
require_iff true = (λ h. refl, λ h. refl)
require_iff false = (λ h. cc, λ h. cc)

free :
    (db : Tables) (app_id user role : Text) (kind : Kind)
    → allowed_creator_ids db app_id user role kind true ≡ ok none
unfolding allowed_creator_ids
free db app_id user role kind = elim (Bool-cases (text_eq role system_admin)) [
  | inl e ↦ rw e refl
  | inr e ↦ rw e refl
]

-- What lets a user change or delete the records of one creator, of the rights `perm` they have.
abbrev pub Permitted : Tables → Text → Mutation → Effective → App → Text → Type 0
Permitted db user action perm app creator =
    ((has_action action perm ≡ true)
      × ((perm.can_manage ≡ true) ⊎ Reaches db user for_edit app creator))
    ⊎ ((has_action action perm ≡ false)
        × (perm.can_add ≡ true)
        × (creator ≡ user)
        × (opens_own action app ≡ true))

module _ (db : Tables) (app_id user role : Text) (app : App) (not_admin : role ≢ system_admin)
    (there : find_app db.apps app_id ≡ some app) (not_owner : app.created_by ≢ user) where
  pub record_scope_iff :
      (kind : Kind) (can_manage : Bool) (creator : Text)
      → (assert_record_scope db app_id kind can_manage creator user role ≡ ok tt)
        ↔ ((can_manage ≡ true) ⊎ Reaches db user kind app creator)
  unfolding assert_record_scope
  record_scope_iff kind true creator = rw (free db app_id user role kind) (λ h. inl refl, λ h. refl)
  record_scope_iff kind false creator =
      let (o, e, exact) =
        allowed_creator_ids_exact db app_id user role kind app creator not_admin there not_owner in
      rw e (
        λ h.
            inr (
              exact.0
                ((lets_through_iff o creator).0 ((require_iff (lets_through o creator)).0 h))),
        λ h.
            (require_iff (lets_through o creator)).1
              ((lets_through_iff o creator).1 (exact.1 (⊎_elim (λ z. cc) (λ r. r) h))),
      )

  flags_of :
      (action : Mutation)
      → (own_mutation_flags db app_id >>= λ flags. require (own_flag action flags) forbidden)
        ≡ require (opens_own action app) forbidden
  unfolding own_mutation_flags
  flags_of editing = rw (own_mutation_flags, there) refl
  flags_of deleting = rw (own_mutation_flags, there) refl

  own_iff :
      (a b c : Bool)
      → ((if a && b then require c forbidden else err forbidden) ≡ ok tt)
        ↔ ((a ≡ true) × (b ≡ true) × (c ≡ true))
  own_iff true true c = (λ h. (refl, refl, (require_iff c).0 h), λ h. (require_iff c).1 h.2)
  own_iff true false c = (λ h. cc, λ h. cc (h.1))
  own_iff false b c = (λ h. cc, λ h. cc (h.0))

  -- For a user who is neither an administrator nor the owner of the app: a change or removal is let through
  -- exactly when the user has the action and reaches the creator's records (or manages the app), or does
  -- not have it but may add, is the creator, and the app opens one's own records to it.
  pub assert_can_mutate_exact :
      (action : Mutation) (perm : Effective) (creator : Text)
      → (assert_can_mutate db app_id action perm creator user role ≡ ok tt)
        ↔ Permitted db user action perm app creator
  unfolding assert_can_mutate
  assert_can_mutate_exact action perm creator = elim (Bool-cases (has_action action perm)) [
    | inl e ↦ rw e (
      λ h. inl (refl, (record_scope_iff for_edit perm.can_manage creator).0 h),
      ⊎_elim (λ h. (record_scope_iff for_edit perm.can_manage creator).1 h.1) (λ h. cc (h.0)),
    )
    | inr e ↦
        rw (e, flags_of action)
          (
            λ h.
                let (adds, own, opens) =
                  (own_iff perm.can_add (text_eq creator user) (opens_own action app)).0 h in
                inr (refl, adds, (text_eq_iff creator user).0 own, opens),
            ⊎_elim (λ h. cc (h.0))
                (λ h.
                  (own_iff perm.can_add (text_eq creator user) (opens_own action app)).1
                    (h.1, (text_eq_iff creator user).1 h.2, h.3)),
          )
  ]

module _ (D : Double) (db : Tables) (s : Store D) (id user role : Text) (row : Row D) (app : App)
    (kept : find_row D s id ≡ some row) (not_admin : role ≢ system_admin)
    (there : find_app db.apps row.app_id ≡ some app) (not_owner : app.created_by ≢ user) where
  entitled : effective db user role row.app_id ≡ ok (granted db user role row.app_id)
  unfolding effective effective_in
  entitled = ground (arith, text_eq_iff role system_admin, text_eq_iff app.created_by user)

  check_mutate-Permitted :
      (action : Mutation) (out : Row D × Effective)
      → check_mutate D action db s id user role ≡ ok out
      → Permitted db user action (granted db user role row.app_id) app row.created_by
  unfolding check_mutate get_record_meta
  check_mutate-Permitted action out h =
      let (checked, e, rest) =
        bind_ok
          (assert_can_mutate db row.app_id action (granted db user role row.app_id) row.created_by
            user role)
          _ (rw (kept, entitled) at h) in
      (assert_can_mutate_exact db row.app_id user role app not_admin there not_owner action _
          row.created_by).0
        e

  -- A call to update a record that is there returns, for a user who is neither an administrator nor the
  -- owner of its app, only where the rows of the app's permissions let that user change the records of
  -- its creator.
  pub update_call-Permitted :
      (size : Values D → ℕ) (show : ℕ → Text) (values : Values D) (expected : ℕ) (out : Audited D)
      → update_call D size show db id values expected user role s ≡ ok out
      → Permitted db user editing (granted db user role row.app_id) app row.created_by
  unfolding update_call
  update_call-Permitted size show values expected out h =
      let (checked, e, rest) = bind_ok (check_mutate D editing db s id user role) _ h in
      check_mutate-Permitted editing checked e
