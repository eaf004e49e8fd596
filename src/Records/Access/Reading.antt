-- ===== src/Records/Access/Reading.antt =====
-- Which records a user reads: the listing of an app and the call for one record agree.
use nocode_app.Base.{
  Text, text_eq_iff, Bool, true, false, Option, none, some, List, [], ok, forbidden, ◌>>=◌, require,
  bind_ok, ok_inj, ◌≡◌, ◌↔◌, sym, arith, Memᴰ, of_filter, to_filter, refl,
}
use nocode_app.Schema.{Tables}
use nocode_app.Permission.Rights.{Effective, view, assert}
use nocode_app.Permission.Scope.{for_view, FieldScope, allowed_creator_ids, record_field_scope}
use nocode_app.Formula.Double.{Double}
use nocode_app.Records.Service.{Row, Store, find_row}
use nocode_app.Records.Import.{find_all, by_creators, in_scope}
use nocode_app.Records.Access.{
  lets_through, assert_record_scope, get_record_meta, get_record_field_value, check_field_scope,
  assert_record_field_scope, check_view, scope_pair, find_one_call, find_all_call,
}

module _ (D : Double) (includes : Text → Text → Bool) (lower : Text → Text) (db : Tables)
    (s : Store D) (user role : Text) (row : Row D) (kept : find_row D s row.id ≡ some row) where
  same_creators :
      (o : Option (List Text)) → by_creators D includes lower o row ≡ lets_through o row.created_by
  same_creators none = refl
  same_creators (some users) = refl

  -- The check of the field that scopes records is the filter of the listing.
  same_scope :
      (o : Option FieldScope)
      → check_field_scope D s row.id o
        ≡ require (in_scope D includes lower (scope_pair D o) row) forbidden
  unfolding check_field_scope get_record_field_value
  same_scope none = refl
  same_scope (some scope) = rw kept refl

  opened :
      (perm : Effective) (o : Option (List Text)) (scope : Option FieldScope)
      → assert db user role row.app_id view ≡ ok perm
      → allowed_creator_ids db row.app_id user role for_view perm.can_manage ≡ ok o
      → record_field_scope db row.app_id user role perm.can_manage ≡ ok scope
      → find_one_call D db s row.id user role ≡ (
          require (by_creators D includes lower o row) forbidden >>= λ _.
          require (in_scope D includes lower (scope_pair D scope) row) forbidden >>= λ _. ok row)
  unfolding find_one_call check_view get_record_meta assert_record_scope assert_record_field_scope
  opened perm o scope e1 e2 e3 = rw (kept, e1, e2, e3, same_scope scope, same_creators o) refl

  listed :
      (o : Option (List Text)) (scope : Option (Text × List Text))
      → Memᴰ row s.records
      → Memᴰ row (find_all D includes lower row.app_id [] none o scope s) ↔ (
          (by_creators D includes lower o row ≡ true)
          × (in_scope D includes lower scope row ≡ true))
  unfolding find_all
  listed o scope m = (
    λ h.
        let (h1, _) = of_filter _ _ h in
        let (h2, _) = of_filter _ _ h1 in
        let (h3, scoped) = of_filter _ _ h2 in
        let (_, both) = of_filter _ s.records h3 in (ground arith, scoped),
    λ h.
        to_filter _ _
          (to_filter _ _
            (to_filter _ _
              (to_filter _ s.records m (rw ((text_eq_iff row.app_id row.app_id).1 refl) (h.0)))
              (h.1))
            refl)
          refl,
  )

  both_required :
      (a b : Bool)
      → ((a ≡ true) × (b ≡ true))
        ↔ ((require a forbidden >>= λ _. require b forbidden >>= λ _. ok row) ≡ ok row)
  both_required true true = (λ h. refl, λ h. (refl, refl))
  both_required true false = (λ h. cc (h.1), λ h. cc)
  both_required false b = (λ h. cc (h.0), λ h. cc)

  -- Where the listing of an app without filters returns, a record of the app that its id finds is in it
  -- exactly when the call for that one record returns it.
  pub listed_iff_opened :
      (rows : List (Row D))
      → Memᴰ row s.records
      → find_all_call D includes lower db row.app_id [] none user role s ≡ ok rows
      → Memᴰ row rows ↔ (find_one_call D db s row.id user role ≡ ok row)
  unfolding find_all_call
  listed_iff_opened rows m h =
      let (perm, e1, h1) = bind_ok (assert db user role row.app_id view) _ h in
      let (o, e2, h2) =
        bind_ok (allowed_creator_ids db row.app_id user role for_view perm.can_manage) _ h1 in
      let (scope, e3, h3) =
        bind_ok (record_field_scope db row.app_id user role perm.can_manage) _ h2 in
      let this_list = ok_inj h3 in
      let (to, from) = listed o (scope_pair D scope) m in
      let (both, parts) =
        both_required (by_creators D includes lower o row)
          (in_scope D includes lower (scope_pair D scope) row) in
      rw (opened perm o scope e1 e2 e3, sym this_list) (λ z. both (to z), λ z. from (parts z))
