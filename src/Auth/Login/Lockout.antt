-- ===== src/Auth/Login/Lockout.antt =====
-- That failed logins lock.
use nocode_app.Base.{
  ℕ, suc, ◌+◌, ◌-◌, ◌*◌, ◌≤◌, ◌<◌, Text, text_eq, text_eq_refl, Bool, true, false, Option, none,
  some, List, [], ◌∷◌, if◌then◌else◌, ltb, leb, length, find, err, too_many, ◌≡◌, refl, sym, subst,
  ap, ◌∙◌, arith, Bool-cases, inl, inr,
}
use nocode_app.Auth.Accounts.{Account}
use nocode_app.Auth.Login.{
  Policy, Throttle, State, find_throttle, upsert, is_locked, failed_row, validate_user, login,
}

find-upsert : (t : Throttle) (us : List Throttle) → find_throttle (upsert t us) t.key ≡ some t
unfolding find_throttle find upsert
find-upsert t [] = rw text_eq_refl
find-upsert t (u ∷ us) = elim (Bool-cases (text_eq u.key t.key)) [
  | inl same ↦ rw (same, text_eq_refl)
  | inr other ↦ rw (other, other) (find-upsert t us)
]

-- A login, with the name and the password that are given and its time.
pub record Attempt : Type 0 where
  pub login_id : Text
  pub pass : Text
  pub at : ℕ

module _ (policy : Policy) (compare : Text → Text → Bool) where
  abbrev window : ℕ
  window = policy.attempt_window_minutes * 60_000

  abbrev pub lockout : ℕ
  lockout = policy.lockout_minutes * 60_000

  -- One after the other, logins with one key of the throttle.
  abbrev pub logins : Text → List Attempt → State → State
  logins key [] s = s
  logins key (a ∷ others) s =
      logins key others (login policy compare key a.login_id a.pass a.at s).1

  abbrev pub last_time : ℕ → List Attempt → ℕ
  last_time t [] = t
  last_time t (a ∷ others) = last_time a.at others

  -- Every attempt of the list is within the window that starts at `first`.
  abbrev pub WithinWindow : ℕ → List Attempt → Type 0
  WithinWindow first [] = Unit {0}
  WithinWindow first (a ∷ others) = (a.at ≤ first + window) × WithinWindow first others

  -- No attempt of the list has the name and the password of an active account.
  abbrev pub AllWrong : List Account → List Attempt → Type 0
  AllWrong accounts [] = Unit {0}
  AllWrong accounts (a ∷ others) =
      (validate_user policy compare accounts a.login_id a.pass ≡ none) × AllWrong accounts others

  abbrev row_at : Text → ℕ → ℕ → Option ℕ → Throttle
  row_at key attempts first until = record {
    key = key;
    attempts = attempts;
    first_failed_at = first;
    locked_until = until;
  }

  module _ (key : Text) where
    wrong :
        (login_id pass : Text) (now : ℕ) (s : State)
        → is_locked (find_throttle s.throttles key) now ≡ false
        → validate_user policy compare s.accounts login_id pass ≡ none
        → (login policy compare key login_id pass now s).1 ≡ record s {
          throttles =
              upsert
                (failed_row policy compare key now (find_throttle s.throttles key))
                s.throttles;
        }
    unfolding login
    wrong login_id pass now s open_ bad = rw (open_, bad)

    row_kept :
        (now k first : ℕ)
        → now ≤ first + window
        → failed_row policy compare key now (some (row_at key k first none))
          ≡ row_at key
              (k + 1)
              first
              (if leb policy.max_failed_attempts (k + 1) then some (now + lockout) else none)
    unfolding failed_row
    row_kept now k first h =
        let inside : leb (now - first) window ≡ true = ground arith in rw inside refl

    unlocked :
        (now k first : ℕ) (s : State)
        → find_throttle s.throttles key ≡ some (row_at key k first none)
        → is_locked (find_throttle s.throttles key) now ≡ false
    unlocked now k first s there = rw there refl

    fails :
        (login_id pass : Text) (now k first : ℕ) (s : State)
        → find_throttle s.throttles key ≡ some (row_at key k first none)
        → validate_user policy compare s.accounts login_id pass ≡ none
        → now ≤ first + window
        → find_throttle (login policy compare key login_id pass now s).1.throttles key
          ≡ some (
              row_at key
                (k + 1)
                first
                (if leb policy.max_failed_attempts (k + 1) then some (now + lockout) else none))
    fails login_id pass now k first s there bad h =
        ap (λ (st : State). find_throttle st.throttles key)
          (wrong login_id pass now s (unlocked now k first s there) bad)
        ∙ ap (λ r. find_throttle (upsert r s.throttles) key)
            (ap (failed_row policy compare key now) there ∙ row_kept now k first h)
        ∙ find-upsert
            (row_at key (k + 1) first
              (if leb policy.max_failed_attempts (k + 1) then some (now + lockout) else none))
            s.throttles

    accounts_kept :
        (login_id pass : Text) (now : ℕ) (s : State)
        → is_locked (find_throttle s.throttles key) now ≡ false
        → validate_user policy compare s.accounts login_id pass ≡ none
        → (login policy compare key login_id pass now s).1.accounts ≡ s.accounts
    accounts_kept login_id pass now s open_ bad =
        ap (λ (st : State). st.accounts) (wrong login_id pass now s open_ bad)

    locks :
        (others : List Attempt) (k first : ℕ) (a : Attempt) (s : State)
        → find_throttle s.throttles key ≡ some (row_at key k first none)
        → AllWrong s.accounts (a ∷ others)
        → WithinWindow first (a ∷ others)
        → k + suc (length others) ≡ policy.max_failed_attempts
        → find_throttle (logins key (a ∷ others) s).throttles key
          ≡ some
              (row_at key policy.max_failed_attempts first (some (last_time a.at others + lockout)))
    locks [] k first a s there bad w h =
        let full : leb policy.max_failed_attempts (k + 1) ≡ true = ground arith in
        let counted : k + 1 ≡ policy.max_failed_attempts = omega arith in
        fails a.login_id a.pass a.at k first s there bad.0 w.0
        ∙ ap (λ b. some (row_at key (k + 1) first (if b then some (a.at + lockout) else none))) full
        ∙ ap (λ n. some (row_at key n first (some (a.at + lockout)))) counted
    locks (b ∷ others) k first a s there bad w h =
        let more : leb policy.max_failed_attempts (k + 1) ≡ false = ground arith in
        let s' = (login policy compare key a.login_id a.pass a.at s).1 in
        let same = accounts_kept a.login_id a.pass a.at s (unlocked a.at k first s there) bad.0 in
        locks others (k + 1) first b s'
          (fails a.login_id a.pass a.at k first s there bad.0 w.0
            ∙ ap (λ b. some (row_at key (k + 1) first (if b then some (a.at + lockout) else none)))
                more)
          (subst (λ accounts. AllWrong accounts (b ∷ others)) (sym same) (bad.1)) w.1 (omega arith)

    first_row :
        (now : ℕ)
        → failed_row policy compare key now none
          ≡ row_at key 1 now
              (if leb policy.max_failed_attempts 1 then some (now + lockout) else none)
    unfolding failed_row
    first_row now = refl

    first_fails :
        (login_id pass : Text) (now : ℕ) (s : State)
        → find_throttle s.throttles key ≡ none
        → validate_user policy compare s.accounts login_id pass ≡ none
        → find_throttle (login policy compare key login_id pass now s).1.throttles key
          ≡ some (
              row_at key 1 now
                (if leb policy.max_failed_attempts 1 then some (now + lockout) else none))
    first_fails login_id pass now s there bad =
        ap (λ (st : State). find_throttle st.throttles key)
          (wrong login_id pass now s (rw there refl) bad)
        ∙ ap (λ r. find_throttle (upsert r s.throttles) key)
            (ap (failed_row policy compare key now) there ∙ first_row now)
        ∙ find-upsert
            (row_at key 1 now
              (if leb policy.max_failed_attempts 1 then some (now + lockout) else none))
            s.throttles

    refused :
        (login_id other : Text) (now until k first : ℕ) (s : State)
        → find_throttle s.throttles key ≡ some (row_at key k first (some until))
        → now < until
        → login policy compare key login_id other now s ≡ (err too_many, s)
    unfolding login
    refused login_id other now until k first s there h =
        let early : ltb now until ≡ true = ground arith in rw (there, early)

    -- After as many failed logins as the policy allows, two or more of them, each with a name and a password that no
    -- active account has, whether the same or others each time, the first on a key of the throttle with no
    -- failures and all within the window that it starts: every login with that key, whatever its name and password,
    -- is refused with too_many and changes nothing, until the time of lockout has passed since the last failure.
    pub logins_lock :
        (login_id pass : Text) (first next : Attempt) (others : List Attempt) (now : ℕ) (s : State)
        → find_throttle s.throttles key ≡ none
        → AllWrong s.accounts (first ∷ next ∷ others)
        → WithinWindow first.at (next ∷ others)
        → suc (suc (length others)) ≡ policy.max_failed_attempts
        → now < last_time next.at others + lockout
        → login policy compare key login_id pass now (logins key (first ∷ next ∷ others) s)
          ≡ (err too_many, logins key (first ∷ next ∷ others) s)
    logins_lock login_id pass first next others now s there bad w h before =
        let more : leb policy.max_failed_attempts 1 ≡ false = ground arith in
        let s' = (login policy compare key first.login_id first.pass first.at s).1 in
        let same = accounts_kept first.login_id first.pass first.at s (rw there refl) bad.0 in
        refused login_id pass now (last_time next.at others + lockout) policy.max_failed_attempts
          first.at (logins key (first ∷ next ∷ others) s)
          (locks others 1 first.at next s'
            (first_fails first.login_id first.pass first.at s there bad.0
              ∙ ap
                  (λ b.
                    some (row_at key 1 first.at (if b then some (first.at + lockout) else none)))
                  more)
            (subst (λ accounts. AllWrong accounts (next ∷ others)) (sym same) (bad.1)) w
            (omega arith))
          before
