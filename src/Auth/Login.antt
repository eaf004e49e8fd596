-- ===== src/Auth/Login.antt =====
-- AuthService (backend/src/auth/auth.service.ts): login and its throttle. bcrypt's comparison, the hash of the
-- throttle's key and the clock are parameters; the token of a session is signed outside.
pub mod Lockout
use nocode_app.Base.{
  ℕ, suc, ◌+◌, ◌-◌, ◌*◌, Text, text_eq, Bool, true, false, not, ◌&&◌, ◌||◌, Option, none, some,
  List, [], ◌∷◌, ◌++◌, if◌then◌else◌, ltb, leb, length, filter, find, Result, ok, err, bad_request,
  unauthorized, too_many, ◌>>=◌, ◌>>◌, require,
}
use nocode_app.Auth.Accounts.{Account, find_login, set_password}

pub record Policy : Type 0 where
  pub max_failed_attempts : ℕ
  pub attempt_window_minutes : ℕ
  pub lockout_minutes : ℕ

pub record Throttle : Type 0 where
  pub key : Text
  pub attempts : ℕ
  pub first_failed_at : ℕ
  pub locked_until : Option ℕ

pub record State : Type 0 where
  pub accounts : List Account
  pub throttles : List Throttle

unfoldable pub find_throttle : List Throttle → Text → Option Throttle
find_throttle ts key = find (λ t. text_eq t.key key) ts

-- upsert by the key
unfoldable pub upsert : Throttle → List Throttle → List Throttle
upsert t [] = t ∷ []
upsert t (u ∷ us) = let rest = upsert t us in if text_eq u.key t.key then t ∷ us else u ∷ rest

abbrev pub is_locked : Option Throttle → ℕ → Bool
is_locked none now = false
is_locked (some t) now = elim t.locked_until [ none ↦ false | some until ↦ ltb now until ]

module _ (policy : Policy) (compare : Text → Text → Bool) where
  abbrev pub in_window : Option Throttle → ℕ → Bool
  in_window none now = false
  in_window (some t) now = leb (now - t.first_failed_at) (policy.attempt_window_minutes * 60_000)

  abbrev pub attempts_before : Option Throttle → ℕ
  attempts_before none = 0
  attempts_before (some t) = t.attempts

  abbrev pub started_at : Option Throttle → ℕ → ℕ
  started_at none now = now
  started_at (some t) now = t.first_failed_at

  -- The row that recordFailure writes.
  unfoldable pub failed_row : Text → ℕ → Option Throttle → Throttle
  failed_row key now existing =
      let attempts = if in_window existing now then attempts_before existing + 1 else 1 in
      record {
        key = key;
        attempts = attempts;
        first_failed_at = if in_window existing now then started_at existing now else now;
        locked_until =
            if leb policy.max_failed_attempts attempts
            then some (now + policy.lockout_minutes * 60_000)
            else none;
      }

  abbrev pub failure : Throttle → Result Account
  failure t = elim t.locked_until [ none ↦ err unauthorized | some until ↦ err too_many ]

  -- validateUser
  unfoldable pub validate_user : List Account → Text → Text → Option Account
  validate_user accounts login pass = elim (find_login accounts login) [
    | none ↦ none
    | some a ↦ if a.is_active && compare pass a.password_hash then some a else none
  ]

  unfoldable pub login : Text → Text → Text → ℕ → State → Result Account × State
  login key login_id pass now s =
      if is_locked (find_throttle s.throttles key) now
      then (err too_many, s)
      else elim (validate_user s.accounts login_id pass) [
        | none ↦
            let row = failed_row key now (find_throttle s.throttles key) in
            (failure row, record s { throttles = upsert row s.throttles })
        | some a ↦
            (ok a, record s { throttles = filter (λ t. not (text_eq t.key key)) s.throttles })
      ]

  -- changePassword
  unfoldable pub change_password :
      (hash trim : Text → Text)
      → ℕ
      → Text
      → Text
      → Text
      → Text
      → List Account
      → Result (List Account)
  change_password hash trim min_length id login_id current new accounts =
      elim (find_login accounts login_id) [
        | none ↦ err bad_request
        | some a ↦ do
          require (compare current a.password_hash) bad_request
          require (leb min_length (length new)) bad_request
          ok (set_password hash trim min_length id new accounts)
      ]
