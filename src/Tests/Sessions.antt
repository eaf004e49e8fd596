-- ===== src/Tests/Sessions.antt =====
-- Accounts and logins on concrete data; a hash is the text itself.
use nocode_app.Base.{
  ℕ, List, Text, codes, text_eq, true, [], ◌∷◌, present, none, some, err, too_many, ◌≡◌, refl, Memᴰ,
  arith, find, filter, any,
}
use nocode_app.Auth.Accounts.{
  Account, AccountPatch, Owned, find_login, patch_account, revokes, remove, is_referenced,
}
use nocode_app.Auth.Accounts.Guards.{patch_account-revokes, remove_keeps_creators}
use nocode_app.Auth.Login.{Policy, State, login, validate_user, find_throttle}
use nocode_app.Auth.Login.Lockout.{Attempt, logins, logins_lock}

abbrev same_text : Text → Text
same_text s = s

abbrev account : Text → Text → Account
account id secret = record {
  id = id;
  login_id = id;
  name = none;
  role = codes "StandardUser";
  is_active = true;
  password_hash = secret;
  auth_version = 0;
  group_id = none;
}

abbrev ann : Account
ann = account (codes "ann") (codes "secret")

abbrev bob : Account
bob = account (codes "bob") (codes "hidden")

abbrev policy : Policy
policy = record { max_failed_attempts = 3; attempt_window_minutes = 15; lockout_minutes = 15 }

abbrev state : State
state = record { accounts = ann ∷ bob ∷ []; throttles = [] }

abbrev guess : Text → Text → ℕ → Attempt
guess name secret time = record { login_id = name; pass = secret; at = time }

abbrev guesses : List Attempt
guesses =
    guess (codes "ann") (codes "wrong") 10
    ∷ guess (codes "bob") (codes "secret") 20
    ∷ guess (codes "eve") (codes "hidden") 30
    ∷ []

-- The right password is refused as well after three wrong ones, for two accounts and for none.
logins_lock_example :
    login policy text_eq
      (codes "k")
      (codes "ann")
      (codes "secret")
      1000
      (logins policy text_eq (codes "k") guesses state)
    ≡ (err too_many, logins policy text_eq (codes "k") guesses state)
logins_lock_example =
    logins_lock policy text_eq (codes "k") (codes "ann") (codes "secret")
      (guess (codes "ann") (codes "wrong") 10) (guess (codes "bob") (codes "secret") 20)
      (guess (codes "eve") (codes "hidden") 30 ∷ []) 1000 state (unfold find_throttle find in refl)
      (unfold validate_user find_login find text_eq in (refl, (refl, (refl, tt))))
      (omega arith, (omega arith, tt)) refl (omega arith)

abbrev rename : AccountPatch
rename = record {
  name = some (codes "Ann");
  role = none;
  password = none;
  is_active = none;
  group_id = none;
}

patch_account-revokes_example :
    ((patch_account same_text same_text 8 rename ann).role ≡ ann.role)
    × ((patch_account same_text same_text 8 rename ann).is_active ≡ ann.is_active)
    × ((patch_account same_text same_text 8 rename ann).password_hash ≡ ann.password_hash)
patch_account-revokes_example =
    patch_account-revokes same_text same_text 8 rename ann
      (unfold patch_account revokes present in refl)

abbrev sheet : Owned
sheet = record { created_by = codes "ann"; updated_by = none }

remove_keeps_creators_example : Memᴰ ann (ann ∷ [])
remove_keeps_creators_example =
    remove_keeps_creators (codes "bob") (sheet ∷ []) (ann ∷ bob ∷ []) sheet ann
      (unfold remove is_referenced any filter text_eq in refl) (Memᴰ.head refl) (Memᴰ.head refl)
      refl
