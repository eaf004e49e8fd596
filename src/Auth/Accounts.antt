-- ===== src/Auth/Accounts.antt =====
-- UsersService (backend/src/users/users.service.ts): accounts. The hash of a password is bcrypt's, a
-- parameter; `trim` is the language's.
pub mod Guards
use nocode_app.Base.{
  ℕ, ◌+◌, Text, codes, text_eq, has, present, Bool, true, false, not, ◌&&◌, ◌||◌, Option, none,
  some, List, [], ◌∷◌, ◌++◌, map, if◌then◌else◌, leb, length, filter, any, find, Result, ok, err,
  bad_request, conflict, not_found, ◌>>=◌, ◌>>◌, require,
}

pub record Account : Type 0 where
  pub id : Text
  pub login_id : Text
  pub name : Option Text
  pub role : Text
  pub is_active : Bool
  pub password_hash : Text
  pub auth_version : ℕ
  pub group_id : Option Text

abbrev pub valid_roles : List Text
valid_roles =
    codes "SystemAdmin"
    ∷ codes "GroupAdmin"
    ∷ codes "AppCreator"
    ∷ codes "StandardUser"
    ∷ codes "Viewer"
    ∷ []

abbrev pub anon_user_id : Text
anon_user_id = codes "anonymous"

-- `data.role && !VALID_ROLES.includes(data.role)` does not hold
unfoldable pub role_ok : Option Text → Bool
role_ok none = true
role_ok (some []) = true
role_ok (some (c ∷ cs)) = has valid_roles (c ∷ cs)

-- `a || b`
abbrev pub or_text : Option Text → Text → Text
or_text none b = b
or_text (some []) b = b
or_text (some (c ∷ cs)) b = c ∷ cs

-- `a || null`
abbrev pub or_null : Option Text → Option Text
or_null none = none
or_null (some []) = none
or_null (some (c ∷ cs)) = some (c ∷ cs)

pub record NewAccount : Type 0 where
  pub login_id : Text
  pub name : Option Text
  pub password : Text
  pub role : Option Text
  pub group_id : Option Text

-- The body of an update; `none` for an absent key.
pub record AccountPatch : Type 0 where
  pub name : Option Text
  pub role : Option Text
  pub password : Option Text
  pub is_active : Option Bool
  pub group_id : Option (Option Text)

unfoldable pub find_login : List Account → Text → Option Account
find_login accounts login = find (λ a. text_eq a.login_id login) accounts

abbrev pub is_free : Option Account → Bool
is_free none = true
is_free (some a) = false

-- An app or a record, with the users that stop their deletion.
pub record Owned : Type 0 where
  pub created_by : Text
  pub updated_by : Option Text  -- of a record

module _ (hash trim : Text → Text) (min_length : ℕ) where
  abbrev pub trimmed : Option Text → Option Text
  trimmed none = none
  trimmed (some s) = or_null (some (trim s))

  unfoldable pub create : Text → NewAccount → List Account → Result (List Account)
  create id new accounts = do
    require (role_ok new.role) bad_request
    require (leb min_length (length new.password) && present (some new.password)) bad_request
    require (is_free (find_login accounts new.login_id)) conflict
    ok (
        accounts
        ++ record {
          id = id;
          login_id = new.login_id;
          name = trimmed new.name;
          role = or_text new.role (codes "StandardUser");
          is_active = true;
          password_hash = hash new.password;
          auth_version = 0;
          group_id = or_null new.group_id;
        }
          ∷ [])

  -- `data.password || data.role !== undefined || data.isActive !== undefined`
  abbrev pub is_given {ℓ} : {A : Type ℓ} → Option A → Bool
  is_given none = false
  is_given (some a) = true

  unfoldable pub revokes : AccountPatch → Bool
  revokes p = present p.password || is_given p.role || is_given p.is_active

  abbrev pub given_or {ℓ} : {A : Type ℓ} → Option A → A → A
  given_or none old = old
  given_or (some new) old = new

  abbrev pub patched_name : Option Text → Option Text → Option Text
  patched_name none old = old
  patched_name (some s) old = or_null (some (trim s))

  abbrev pub patched_group : Option (Option Text) → Option Text → Option Text
  patched_group none old = old
  patched_group (some g) old = or_null g

  abbrev pub patched_hash : Option Text → Text → Text
  patched_hash none old = old
  patched_hash (some []) old = old
  patched_hash (some (c ∷ cs)) old = hash (c ∷ cs)

  unfoldable pub patch_account : AccountPatch → Account → Account
  patch_account p a = record a {
    name = patched_name p.name a.name;
    role = given_or p.role a.role;
    is_active = given_or p.is_active a.is_active;
    group_id = patched_group p.group_id a.group_id;
    password_hash = patched_hash p.password a.password_hash;
    auth_version = if revokes p then a.auth_version + 1 else a.auth_version;
  }

  unfoldable pub password_ok : Option Text → Bool
  password_ok none = true
  password_ok (some []) = true
  password_ok (some (c ∷ cs)) = leb min_length (length (c ∷ cs))

  unfoldable pub change_account : Text → (Account → Account) → List Account → List Account
  change_account id change accounts = map (λ a. if text_eq a.id id then change a else a) accounts

  unfoldable pub update : Text → AccountPatch → List Account → Result (List Account)
  update id p accounts = do
    require (role_ok p.role) bad_request
    require (password_ok p.password) bad_request
    require (any (λ a. text_eq a.id id) accounts) not_found
    ok (change_account id (patch_account p) accounts)

  unfoldable pub set_password : Text → Text → List Account → List Account
  set_password id new accounts =
      change_account id
        (λ a. record a { password_hash = hash new; auth_version = a.auth_version + 1 }) accounts

-- userBlockingRefs is not empty
unfoldable pub is_referenced : Text → List Owned → Bool
is_referenced id owned =
    any
      (λ o. text_eq o.created_by id || (elim o.updated_by [ none ↦ false | some u ↦ text_eq u id ]))
      owned

unfoldable pub remove : Text → List Owned → List Account → Result (List Account)
remove id owned accounts = do
  require (not (text_eq id anon_user_id)) bad_request
  require (not (is_referenced id owned)) bad_request
  require (any (λ a. text_eq a.id id) accounts) not_found
  ok (filter (λ a. not (text_eq a.id id)) accounts)
