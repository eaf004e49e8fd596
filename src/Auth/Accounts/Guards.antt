-- ===== src/Auth/Accounts/Guards.antt =====
-- What the writes of accounts guarantee.
use nocode_app.Base.{
  ℕ, ◌+◌, Text, text_eq, present, Bool, true, false, not, ◌||◌, Option, none, some, List, [], ◌∷◌,
  if◌then◌else◌, any, any_of_mem, to_filter, ok, bad_request, not_found, bind_ok, require,
  require_ok, ok_inj, ◌≡◌, refl, sym, subst, arith, Memᴰ, Bool-cases, inl, inr,
}
use nocode_app.Auth.Accounts.{
  Account, AccountPatch, Owned, revokes, patch_account, patched_hash, given_or, is_given,
  is_referenced, remove, anon_user_id,
}

kept_version : (b : Bool) (v : ℕ) → (if b then v + 1 else v) ≡ v → b ≡ false
kept_version true v h = absurd (omega (arith, h))
kept_version false v h = refl

not_given :
    {A : Type 0} (hash trim : Text → Text) (min_length : ℕ) (o : Option A) (old : A)
    → is_given hash trim min_length o ≡ false
    → given_or hash trim min_length o old ≡ old
not_given hash trim min_length none old h = refl
not_given hash trim min_length (some new) old h = cc

no_password :
    (hash trim : Text → Text) (min_length : ℕ) (o : Option Text) (old : Text)
    → present o ≡ false
    → patched_hash hash trim min_length o old ≡ old
unfolding present
no_password hash trim min_length none old h = refl
no_password hash trim min_length (some []) old h = refl
no_password hash trim min_length (some (c ∷ cs)) old h = cc

quiet_parts :
    (hash trim : Text → Text) (min_length : ℕ) (p : AccountPatch)
    → revokes hash trim min_length p ≡ false
    → (present p.password ≡ false)
      × (is_given hash trim min_length p.role ≡ false)
      × (is_given hash trim min_length p.is_active ≡ false)
unfolding revokes
quiet_parts hash trim min_length p h = ground arith

-- A change of an account that leaves its auth_version as it was, and with it the sessions, leaves the role, the
-- state of activity and the password as they were.
pub patch_account-revokes :
    (hash trim : Text → Text) (min_length : ℕ) (p : AccountPatch) (a : Account)
    → (patch_account hash trim min_length p a).auth_version ≡ a.auth_version
    → ((patch_account hash trim min_length p a).role ≡ a.role)
      × ((patch_account hash trim min_length p a).is_active ≡ a.is_active)
      × ((patch_account hash trim min_length p a).password_hash ≡ a.password_hash)
unfolding patch_account
patch_account-revokes hash trim min_length p a h =
    let quiet : revokes hash trim min_length p ≡ false =
      kept_version (revokes hash trim min_length p) a.auth_version h in
    let (password, role, active) = quiet_parts hash trim min_length p quiet in
    (
      not_given hash trim min_length p.role a.role role,
      not_given hash trim min_length p.is_active a.is_active active,
      no_password hash trim min_length p.password a.password_hash password,
    )

not_owner :
    (id : Text) (owned : List Owned) (o : Owned)
    → is_referenced id owned ≡ false
    → Memᴰ o owned
    → text_eq o.created_by id ≡ false
unfolding is_referenced
not_owner id owned o h m = elim (Bool-cases (text_eq o.created_by id)) [
  | inl owns ↦ cc (
    h,
    any_of_mem
        (λ x.
          text_eq x.created_by id || (elim x.updated_by [ none ↦ false | some u ↦ text_eq u id ]))
        owned m (rw owns refl),
  )
  | inr other ↦ other
]

-- A removal that returns leaves the account of every creator of an app or a record in the table.
pub remove_keeps_creators :
    (id : Text) (owned : List Owned) (accounts : List Account) {left : List Account} (o : Owned)
    (a : Account)
    → remove id owned accounts ≡ ok left
    → Memᴰ o owned
    → Memᴰ a accounts
    → a.id ≡ o.created_by
    → Memᴰ a left
unfolding remove
remove_keeps_creators id owned accounts {left} o a h m there e =
    let (u, not_anon, rest) = bind_ok (require (not (text_eq id anon_user_id)) bad_request) _ h in
    let (v, free, rest') = bind_ok (require (not (is_referenced id owned)) bad_request) _ rest in
    let (w, found, done) =
      bind_ok (require (any (λ x. text_eq x.id id) accounts) not_found) _ rest' in
    let unref : is_referenced id owned ≡ false = ground (arith, require_ok _ _ free) in
    let other : text_eq a.id id ≡ false =
      subst (λ k. text_eq k id ≡ false) (sym e) (not_owner id owned o unref m) in
    subst (λ ls. Memᴰ a ls) (ok_inj done)
      (to_filter (λ x. not (text_eq x.id id)) accounts there (rw other refl))
