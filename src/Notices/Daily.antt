-- ===== src/Notices/Daily.antt =====
-- The reminders of one day: no record is reminded twice.
use mathlib.Core.List.Memᴰ
use nocode_app.Base.{
  ℕ, any, filter, mem_of_any, Text, text_eq, text_eq_iff, Bool, true, false, not, ◌&&◌, some, List,
  [], ◌∷◌, if◌then◌else◌, ◌≡◌, inl, inr, refl, ap, subst, ◌∙◌, arith, Bool-cases, Memᴰ,
}
use nocode_app.Notices.{Notification}
use nocode_app.Notices.Reminders.{
  Clock, ReminderApp, ReminderRow, Sent, date_of, put_date, is_today, key_of, is_due, remind,
  scan_rows, is_on, scan_apps, scan_all,
}

date_of-put :
    (ds : List (Text × Text)) (k j date : Text)
    → date_of (put_date ds k date) j ≡ (if text_eq k j then some date else date_of ds j)
unfolding date_of put_date
date_of-put [] k j date = refl
date_of-put (d ∷ ds) k j date = elim (Bool-cases (text_eq d.0 k)) [
  | inl same ↦
      let e : d.0 ≡ k = (text_eq_iff d.0 k).0 same in
      rw same (ground (arith, ap (λ x. text_eq x j) e))
  | inr other ↦ rw other (
      ground
        (arith, date_of-put ds k j date, text_eq_iff d.0 j, text_eq_iff k j, text_eq_iff d.0 k))
]

-- A reminder was sent today under a key.
abbrev Marked : Text → Sent → Text → Type 0
Marked today s key = is_today (date_of s.dates key) today ≡ true

is_today_refl : (today : Text) → is_today (some today) today ≡ true
is_today_refl today = (text_eq_iff today today).1 refl

put-Marked :
    (today : Text) (ds : List (Text × Text)) (key j : Text)
    → is_today (date_of ds j) today ≡ true
    → is_today (date_of (put_date ds key today) j) today ≡ true
put-Marked today ds key j h = elim (Bool-cases (text_eq key j)) [
  | inl e ↦ rw (date_of-put ds key j today, e) (is_today_refl today)
  | inr e ↦ rw (date_of-put ds key j today, e) h
]

put-Marked_here :
    (today : Text) (ds : List (Text × Text)) (key : Text)
    → is_today (date_of (put_date ds key today) key) today ≡ true
put-Marked_here today ds key =
    rw (date_of-put ds key key today, (text_eq_iff key key).1 refl) (is_today_refl today)

-- A step that is taken or not.
may_be :
    (b : Bool) (today key : Text) (next st : Sent × ℕ)
    → Marked today next.0 key
    → Marked today st.0 key
    → Marked today (if b then next else st).0 key
may_be true today key next st h k = h
may_be false today key next st h k = k

is_taken :
    (b : Bool) (today key : Text) (next st : Sent × ℕ)
    → b ≡ true
    → Marked today next.0 key
    → Marked today (if b then next else st).0 key
is_taken true today key next st e h = h
is_taken false today key next st e h = cc

same_if : (b : Bool) (next st : Sent × ℕ) → (b ≡ true → next ≡ st) → (if b then next else st) ≡ st
same_if true next st h = h refl
same_if false next st h = refl

module _ {N : Type 0} (accepts : Notification → Bool) (fresh : ℕ → Text) where
  remind-Marked :
      (c : Clock N) (app : ReminderApp N) (r : ReminderRow N) (st : Sent × ℕ) (key : Text)
      → Marked c.today st.0 key
      → Marked c.today (remind accepts fresh c app r st).0 key
  unfolding remind
  remind-Marked c app r st key h =
      elim (Bool-cases (
        is_due accepts fresh c app r
        && not (is_today (date_of st.0.dates (key_of r.id)) c.today))) [
          | inl e ↦ rw e (put-Marked c.today st.0.dates (key_of r.id) key h)
          | inr e ↦ rw e h
        ]

  remind-Marked_here :
      (c : Clock N) (app : ReminderApp N) (r : ReminderRow N) (st : Sent × ℕ)
      → is_due accepts fresh c app r ≡ true
      → Marked c.today (remind accepts fresh c app r st).0 (key_of r.id)
  unfolding remind
  remind-Marked_here c app r st h =
      elim (Bool-cases (is_today (date_of st.0.dates (key_of r.id)) c.today)) [
        | inl e ↦ rw (h, e) e
        | inr e ↦ rw (h, e) (put-Marked_here c.today st.0.dates (key_of r.id))
      ]

  rows-Marked :
      (c : Clock N) (app : ReminderApp N) (rs : List (ReminderRow N)) (st : Sent × ℕ) (key : Text)
      → Marked c.today st.0 key
      → Marked c.today (scan_rows accepts fresh c app rs st).0 key
  unfolding scan_rows
  rows-Marked c app [] st key h = h
  rows-Marked c app (r ∷ rs) st key h =
      rows-Marked c app rs _ key
        (may_be (text_eq r.app_id app.id) c.today key _ st (remind-Marked c app r st key h) h)

  rows-Marked_due :
      (c : Clock N) (app : ReminderApp N) (rs : List (ReminderRow N)) (st : Sent × ℕ)
      (r : ReminderRow N)
      → Memᴰ r rs
      → text_eq r.app_id app.id ≡ true
      → is_due accepts fresh c app r ≡ true
      → Marked c.today (scan_rows accepts fresh c app rs st).0 (key_of r.id)
  unfolding scan_rows
  rows-Marked_due c app [] st r m own h = absurd (Memᴰ.not-nil m)
  rows-Marked_due c app (q ∷ qs) st r m own h = elim (Memᴰ.cases_cons m) [
    | inl e ↦
        subst (λ x. Marked c.today (scan_rows accepts fresh c app (x ∷ qs) st).0 (key_of r.id)) e
          (rows-Marked c app qs _ (key_of r.id) (
            is_taken (text_eq r.app_id app.id) c.today (key_of r.id) _ st own
              (remind-Marked_here c app r st h)))
    | inr t ↦ rows-Marked_due c app qs _ r t own h
  ]

  apps-Marked :
      (c : Clock N) (apps : List (ReminderApp N)) (rs : List (ReminderRow N)) (st : Sent × ℕ)
      (key : Text)
      → Marked c.today st.0 key
      → Marked c.today (scan_apps accepts fresh c apps rs st).0 key
  unfolding scan_apps
  apps-Marked c [] rs st key h = h
  apps-Marked c (app ∷ apps) rs st key h = apps-Marked c apps rs _ key (
      may_be (is_on accepts fresh c app.reminder_config) c.today key _ st
        (rows-Marked c app rs st key h) h)

  apps-Marked_due :
      (c : Clock N) (apps : List (ReminderApp N)) (rs : List (ReminderRow N)) (st : Sent × ℕ)
      (app : ReminderApp N) (r : ReminderRow N)
      → Memᴰ app apps
      → is_on accepts fresh c app.reminder_config ≡ true
      → Memᴰ r rs
      → text_eq r.app_id app.id ≡ true
      → is_due accepts fresh c app r ≡ true
      → Marked c.today (scan_apps accepts fresh c apps rs st).0 (key_of r.id)
  unfolding scan_apps
  apps-Marked_due c [] rs st app r m on m' own h = absurd (Memᴰ.not-nil m)
  apps-Marked_due c (a ∷ apps) rs st app r m on m' own h = elim (Memᴰ.cases_cons m) [
    | inl e ↦
        subst (λ x. Marked c.today (scan_apps accepts fresh c (x ∷ apps) rs st).0 (key_of r.id)) e
          (apps-Marked c apps rs _ (key_of r.id) (
            is_taken (is_on accepts fresh c app.reminder_config) c.today (key_of r.id) _ st on
              (rows-Marked_due c app rs st r m' own h)))
    | inr t ↦ apps-Marked_due c apps rs _ app r t on m' own h
  ]

  -- A record that has been reminded today is passed over.
  remind_still :
      (c : Clock N) (app : ReminderApp N) (r : ReminderRow N) (st : Sent × ℕ)
      → Marked c.today st.0 (key_of r.id)
      → remind accepts fresh c app r st ≡ st
  unfolding remind
  remind_still c app r st h = elim (Bool-cases (is_due accepts fresh c app r)) [
    | inl d ↦ rw (d, h) refl
    | inr d ↦ rw d refl
  ]

  -- Rows of which those that `p` names have been reminded today.
  abbrev AreMarked : Clock N → (ReminderRow N → Bool) → List (ReminderRow N) → Sent → Type 0
  AreMarked c p rs s = (r : ReminderRow N) → Memᴰ r rs → p r ≡ true → Marked c.today s (key_of r.id)

  rows_skip :
      (c : Clock N) (app : ReminderApp N) (p : ReminderRow N → Bool) (rs : List (ReminderRow N))
      (st : Sent × ℕ)
      → AreMarked c p rs st.0
      → scan_rows accepts fresh c app rs st
        ≡ scan_rows accepts fresh c app (filter (λ r. not (p r)) rs) st
  unfolding scan_rows filter
  rows_skip c app p [] st h = refl
  rows_skip c app p (r ∷ rs) st h = elim (Bool-cases (p r)) [
    | inl e ↦ rw e (
        ap (scan_rows accepts fresh c app rs) (
          same_if (text_eq r.app_id app.id) (remind accepts fresh c app r st) st
            (λ own. remind_still c app r st (h r (Memᴰ.head refl) e)))
        ∙ rows_skip c app p rs st (λ q m. h q (Memᴰ.tail m)))
    | inr e ↦ rw e (
        rows_skip c app p rs _ (λ q m marked.
          may_be (text_eq r.app_id app.id) c.today (key_of q.id) _ st
            (remind-Marked c app r st (key_of q.id) (h q (Memᴰ.tail m) marked))
            (h q (Memᴰ.tail m) marked)))
  ]

  apps_skip :
      (c : Clock N) (apps : List (ReminderApp N)) (p : ReminderRow N → Bool)
      (rs : List (ReminderRow N)) (st : Sent × ℕ)
      → AreMarked c p rs st.0
      → scan_apps accepts fresh c apps rs st
        ≡ scan_apps accepts fresh c apps (filter (λ r. not (p r)) rs) st
  unfolding scan_apps
  apps_skip c [] p rs st h = refl
  apps_skip c (app ∷ apps) p rs st h =
      apps_skip c apps p rs _ (λ r m marked.
        may_be (is_on accepts fresh c app.reminder_config) c.today (key_of r.id) _ st
          (rows-Marked c app rs st (key_of r.id) (h r m marked)) (h r m marked))
      ∙ ap
          (λ next.
            scan_apps accepts fresh c apps (filter (λ r. not (p r)) rs)
              (if is_on accepts fresh c app.reminder_config then next else st))
          (rows_skip c app p rs st h)

  -- Whether a row was due for one of its apps at a scan.
  abbrev pub due_in : Clock N → List (ReminderApp N) → ReminderRow N → Bool
  due_in c apps r =
      any
        (λ app.
          is_on accepts fresh c app.reminder_config
          && text_eq r.app_id app.id
          && is_due accepts fresh c app r)
        apps

  -- Whether the record of a row was due at a scan of the rows `rs`.
  abbrev pub was_due : Clock N → List (ReminderApp N) → List (ReminderRow N) → ReminderRow N → Bool
  was_due c apps rs r = any (λ q. text_eq q.id r.id && due_in c apps q) rs

  was_due-Marked :
      (c : Clock N) (apps : List (ReminderApp N)) (rs : List (ReminderRow N)) (s : Sent)
      (r : ReminderRow N)
      → was_due c apps rs r ≡ true
      → Marked c.today (scan_all accepts fresh c apps rs s).0 (key_of r.id)
  was_due-Marked c apps rs s r h =
      let (q, m, e) = mem_of_any (λ q. text_eq q.id r.id && due_in c apps q) rs h in
      let (app, m', e') =
        mem_of_any
          (λ app.
            is_on accepts fresh c app.reminder_config
            && text_eq q.app_id app.id
            && is_due accepts fresh c app q)
          apps (ground arith) in
      subst (λ id. Marked c.today (scan_all accepts fresh c apps rs s).0 (key_of id))
        ((text_eq_iff q.id r.id).0 (ground arith))
        (apps-Marked_due c apps rs (s, 0) app q m' (ground arith) m (ground arith) (ground arith))

  -- No record is reminded twice on one day: after a scan, any later scan of the same day, at whatever time and over
  -- whatever apps and rows there are by then, does what it would do if the rows of the records that were due at
  -- the first scan were not there; it reminds only of others, such as those that have come within the days since.
  pub scan_again :
      (first later : Clock N) (apps apps' : List (ReminderApp N)) (rs rs' : List (ReminderRow N))
      (s : Sent)
      → first.today ≡ later.today
      → let s' = (scan_all accepts fresh first apps rs s).0 in
        scan_all accepts fresh later apps' rs' s'
        ≡ scan_all accepts fresh later apps' (filter (λ r. not (was_due first apps rs r)) rs') s'
  scan_again first later apps apps' rs rs' s day =
      let s' = (scan_all accepts fresh first apps rs s).0 in
      apps_skip later apps' (was_due first apps rs) rs' (s', 0)
        (λ r m due.
          subst (λ d. Marked d s' (key_of r.id)) day (was_due-Marked first apps rs s r due))
