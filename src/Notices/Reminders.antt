-- ===== src/Notices/Reminders.antt =====
-- ReminderService (backend/src/notifications/reminder.service.ts). `Clock` is what a scan takes from the clock
-- and from the conversions of the language.
use nocode_app.Base.{
  ℕ, suc, Text, codes, text_eq, Bool, true, false, not, ◌&&◌, Option, none, some, List, [], ◌∷◌,
  ◌++◌, any, take, if◌then◌else◌,
}
use nocode_app.Base.Int.{ℤ, ltb_ℤ, ◌+ℤ◌}
use nocode_app.Json.{Json, array, Members, get, prop, items}
use nocode_app.Notices.{Notification, Notice, notify}

pub record Clock (N : Type 0) : Type 0 where
  pub now : ℤ
  pub today : Text
  pub days_ms : Json N → Option ℤ  -- `Number(v ?? 3) * 24 * 60 * 60 * 1000`; none for NaN
  pub time_of : Json N → Option ℤ  -- `new Date(v).getTime()`; none for NaN
  pub to_text : Json N → Text  -- `String(v)`
  pub is_true : Json N → Bool
  pub same : Json N → Json N → Bool  -- `===`

pub record ReminderApp (N : Type 0) : Type 0 where
  pub id : Text
  pub name : Text
  pub reminder_config : Json N
  pub process_config : Json N

pub record ReminderRow (N : Type 0) : Type 0 where
  pub id : Text
  pub app_id : Text
  pub data_json : Members N

-- The notifications, and the dates of the settings under `reminder:` and the id of a record.
pub record Sent : Type 0 where
  pub rows : List Notification
  pub dates : List (Text × Text)

-- `existing?.value?.date` of a key
unfoldable pub date_of : List (Text × Text) → Text → Option Text
date_of [] key = none
date_of (d ∷ ds) key = let rest = date_of ds key in if text_eq d.0 key then some d.1 else rest

-- setting.upsert
unfoldable pub put_date : List (Text × Text) → Text → Text → List (Text × Text)
put_date [] key date = (key, date) ∷ []
put_date (d ∷ ds) key date =
    let rest = put_date ds key date in if text_eq d.0 key then (key, date) ∷ ds else d ∷ rest

abbrev pub is_today : Option Text → Text → Bool
is_today none today = false
is_today (some date) today = text_eq date today

-- `reminder:${r.id}`
abbrev pub key_of : Text → Text
key_of id = codes "reminder:" ++ id

-- `Date.now() + daysBefore * 24 * 60 * 60 * 1000`
abbrev pub cutoff : ℤ → Option ℤ → Option ℤ
cutoff now none = none
cutoff now (some ms) = some (now +ℤ ms)

-- `isNaN(dueTime) || dueTime > cutoff`
abbrev pub is_far : Option ℤ → Option ℤ → Bool
is_far none cutoff = true
is_far (some due) none = false
is_far (some due) (some cutoff) = ltb_ℤ cutoff due

abbrev pub is_past : Option ℤ → ℤ → Bool
is_past none now = false
is_past (some due) now = ltb_ℤ due now

module _ {N : Type 0} (accepts : Notification → Bool) (fresh : ℕ → Text) where
  abbrev pub action_list : Json N → List (Json N)
  action_list (array vs) = items vs
  action_list v = []

  abbrev pub value_at : Clock N → ReminderRow N → Json N → Json N
  value_at c r field = get r.data_json (c.to_text field)

  -- isOpen
  unfoldable pub is_open : Clock N → ReminderApp N → ReminderRow N → Bool
  is_open c app r =
      let process = app.process_config in
      if c.is_true (prop process (codes "enabled"))
        && c.is_true (prop process (codes "statusField"))
      then any
          (λ a. c.same (prop a (codes "from")) (value_at c r (prop process (codes "statusField"))))
          (action_list (prop process (codes "actions")))
      else true

  -- What is asked of a record before the date of its last reminder.
  unfoldable pub is_due : Clock N → ReminderApp N → ReminderRow N → Bool
  is_due c app r =
      let due = value_at c r (prop app.reminder_config (codes "dueDateField")) in
      c.is_true due
      && c.is_true (value_at c r (prop app.reminder_config (codes "assigneeField")))
      && is_open c app r
      && not (
          is_far (c.time_of due)
            (cutoff c.now (c.days_ms (prop app.reminder_config (codes "daysBefore")))))

  abbrev pub title_of : Clock N → ReminderApp N → Json N → Text
  title_of c app due =
      codes "「"
      ++ app.name
      ++ (if is_past (c.time_of due) c.now
          then codes "」期限を過ぎた未対応があります（期限 "
          else codes "」期限が近づいています（期限 ")
      ++ take 10 (c.to_text due)
      ++ codes "）"

  abbrev pub notice_of : Clock N → ReminderApp N → ReminderRow N → Notice
  notice_of c app r = record {
    type = codes "reminder";
    title = title_of c app (value_at c r (prop app.reminder_config (codes "dueDateField")));
    body = none;
    app_id = some app.id;
    record_id = some r.id;
    actor_id = none;
  }

  -- One turn of the loop of scanApp.
  unfoldable pub remind : Clock N → ReminderApp N → ReminderRow N → Sent × ℕ → Sent × ℕ
  remind c app r state =
      let (s, sent) = state in
      if is_due c app r && not (is_today (date_of s.dates (key_of r.id)) c.today)
      then (
        record {
          rows =
              notify accepts fresh
                (c.to_text (value_at c r (prop app.reminder_config (codes "assigneeField"))))
                (notice_of c app r) s.rows;
          dates = put_date s.dates (key_of r.id) c.today;
        },
        suc sent,
      )
      else state

  unfoldable pub scan_rows : Clock N → ReminderApp N → List (ReminderRow N) → Sent × ℕ → Sent × ℕ
  scan_rows c app [] state = state
  scan_rows c app (r ∷ rs) state =
      scan_rows c app rs (if text_eq r.app_id app.id then remind c app r state else state)

  abbrev pub is_on : Clock N → Json N → Bool
  is_on c config =
      c.is_true (prop config (codes "enabled"))
      && c.is_true (prop config (codes "dueDateField"))
      && c.is_true (prop config (codes "assigneeField"))

  -- scan
  unfoldable pub scan_apps :
      Clock N → List (ReminderApp N) → List (ReminderRow N) → Sent × ℕ → Sent × ℕ
  scan_apps c [] rows state = state
  scan_apps c (app ∷ apps) rows state =
      scan_apps c apps rows
        (if is_on c app.reminder_config then scan_rows c app rows state else state)

  abbrev pub scan_all : Clock N → List (ReminderApp N) → List (ReminderRow N) → Sent → Sent × ℕ
  scan_all c apps rows s = scan_apps c apps rows (s, 0)
