-- ===== src/Tests/Notices.antt =====
-- Notifications to a few users, and the reminders of a small app.
use nocode_app.Base.{
  ℕ, Text, codes, text_eq, has, NoDup, Bool, true, false, not, ◌&&◌, Option, none, some, filter,
  if◌then◌else◌, List, [], ◌∷◌, ◌++◌, length, ◌≡◌, refl,
}
use nocode_app.Base.Int.{ℤ, pos, ◌+ℤ◌}
use nocode_app.Json.{get, Json, undefined, null, string, bool, member, end, object}
use nocode_app.Notices.{Notification, Notice, has_no_text, is_actor, notify_many}
use nocode_app.Notices.Delivery.{receivers, accepts_all, notify_many_exact}
use nocode_app.Notices.Reminders.{
  Clock, ReminderApp, ReminderRow, Sent, scan_all, scan_apps, scan_rows, remind, is_due, is_open,
  date_of, put_date,
}
use nocode_app.Notices.Daily.{was_due, scan_again}

abbrev numbered_id : ℕ → Text
numbered_id k = k ∷ []

abbrev mention : Notice
mention = record {
  type = codes "mention";
  title = codes "Hello";
  body = none;
  app_id = none;
  record_id = none;
  actor_id = some (codes "ann");
}

abbrev invited : List Text
invited = codes "bob" ∷ codes "ann" ∷ [] ∷ codes "bob" ∷ codes "eve" ∷ []

notify_many_exact_example :
    (added : List Notification) × ((notify_many
        (accepts_all numbered_id mention)
        numbered_id
        invited
        mention
        []).0
      ≡ [] ++ added)
    × ((notify_many (accepts_all numbered_id mention) numbered_id invited mention []).1
        ≡ length added)
    × NoDup (receivers added)
    × ((u : Text)
        → has (receivers added) u
          ≡ (has invited u && not (has_no_text u) && not (is_actor mention u)))
notify_many_exact_example = notify_many_exact numbered_id mention invited []

abbrev json_truth : Json ℕ → Bool
json_truth undefined = false
json_truth null = false
json_truth (bool b) = b
json_truth v = true

abbrev both_text : Json ℕ → Json ℕ → Bool
both_text (string s) (string t) = text_eq s t
both_text v w = false

abbrev as_text : Json ℕ → Text
as_text (string s) = s
as_text v = []

-- The first of the two dates is 10, any other 30.
abbrev time_at : Json ℕ → Option ℤ
time_at (string s) = some (if text_eq s (codes "2026-01-01") then pos 10 else pos 30)
time_at v = none

abbrev morning : Clock ℕ
morning = record {
  now = pos 20;
  today = codes "2026-01-02";
  days_ms = λ days. some (pos 3);
  time_of = time_at;
  to_text = as_text;
  is_true = json_truth;
  same = both_text;
}

-- By then the second date has come within the days.
abbrev evening : Clock ℕ
evening = record morning { now = pos 28 }

abbrev orders_app : ReminderApp ℕ
orders_app = record {
  id = codes "crm";
  name = codes "Orders";
  reminder_config = object (
      member (codes "enabled") (bool true) (
        member (codes "dueDateField") (string (codes "due"))
          (member (codes "assigneeField") (string (codes "who")) end)));
  process_config = undefined;
}

abbrev row_due : Text → Text → ReminderRow ℕ
row_due id date = record {
  id = id;
  app_id = codes "crm";
  data_json = member (codes "due") (string date) (member (codes "who") (string (codes "bob")) end);
}

abbrev late : ReminderRow ℕ
late = row_due (codes "r1") (codes "2026-01-01")

abbrev soon : ReminderRow ℕ
soon = row_due (codes "r2") (codes "2026-01-03")

abbrev table : List (ReminderRow ℕ)
table = late ∷ soon ∷ []

abbrev nothing_sent : Sent
nothing_sent = record { rows = []; dates = [] }

abbrev takes : Notification → Bool
takes row = true

abbrev after_morning : Sent
after_morning = (scan_all takes numbered_id morning (orders_app ∷ []) table nothing_sent).0

scan_again_example :
    scan_all takes numbered_id evening (orders_app ∷ []) table after_morning
    ≡ scan_all takes numbered_id evening
        (orders_app ∷ [])
        (filter (λ r. not (was_due takes numbered_id morning (orders_app ∷ []) table r)) table)
        after_morning
scan_again_example =
    scan_again takes numbered_id morning evening (orders_app ∷ []) (orders_app ∷ []) table table
      nothing_sent refl

one_sent : (scan_all takes numbered_id morning (orders_app ∷ []) table nothing_sent).1 ≡ 1
unfolding scan_apps get text_eq scan_rows remind is_due is_open date_of ◌+ℤ◌
one_sent = refl

-- In the evening the other record is reminded, and the first not again.
other_sent : (scan_all takes numbered_id evening (orders_app ∷ []) table after_morning).1 ≡ 1
unfolding scan_apps get text_eq scan_rows remind is_due is_open date_of put_date ◌+ℤ◌
other_sent = refl
