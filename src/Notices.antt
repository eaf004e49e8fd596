-- ===== src/Notices.antt =====
-- NotificationsService (backend/src/notifications/notifications.service.ts). `accepts` is the database's
-- answer to a new row: one that it refuses is passed over. Rows stand in the order of their creation.
pub mod Delivery
pub mod Reminders
pub mod Daily
use nocode_app.Base.{
  ℕ, zero, suc, Text, text_eq, has, present, opt_text_eq, to_set, Bool, true, false, not, ◌&&◌,
  ◌||◌, Option, none, some, List, [], ◌∷◌, ◌++◌, map, filter, length, take, if◌then◌else◌,
}

pub record Notification : Type 0 where
  pub id : Text
  pub user_id : Text
  pub type : Text
  pub title : Text
  pub body : Option Text
  pub app_id : Option Text
  pub record_id : Option Text
  pub actor_id : Option Text
  pub is_read : Bool

-- NotifyInput without the receiver.
pub record Notice : Type 0 where
  pub type : Text
  pub title : Text
  pub body : Option Text
  pub app_id : Option Text
  pub record_id : Option Text
  pub actor_id : Option Text

abbrev pub has_no_text : Text → Bool
has_no_text [] = true
has_no_text (c ∷ cs) = false

-- `n.actorId && n.actorId === userId`
abbrev pub is_actor : Notice → Text → Bool
is_actor n user = present n.actor_id && opt_text_eq n.actor_id user

abbrev pub row_for : Text → Text → Notice → Notification
row_for id user n = record {
  id = id;
  user_id = user;
  type = n.type;
  title = n.title;
  body = n.body;
  app_id = n.app_id;
  record_id = n.record_id;
  actor_id = n.actor_id;
  is_read = false;
}

module _ (accepts : Notification → Bool) (fresh : ℕ → Text) where
  -- notify; the key of a row is the database's
  unfoldable pub notify : Text → Notice → List Notification → List Notification
  notify user n rows =
      let row = row_for (fresh (length rows)) user n in
      if has_no_text user || is_actor n user
      then rows
      else if accepts row
      then rows ++ row ∷ []
      else rows

  -- The loop of notifyMany.
  unfoldable pub notify_each : List Text → Notice → List Notification → ℕ → List Notification × ℕ
  notify_each [] n rows sent = (rows, sent)
  notify_each (user ∷ users) n rows sent =
      let skipped = is_actor n user in
      notify_each users n (if skipped then rows else notify user n rows)
        (if skipped then sent else suc sent)

  -- notifyMany
  unfoldable pub notify_many : List Text → Notice → List Notification → List Notification × ℕ
  notify_many users n rows =
      notify_each (filter (λ u. not (has_no_text u)) (to_set [] users)) n rows 0

abbrev pub is_unread_of : Text → Notification → Bool
is_unread_of user row = text_eq row.user_id user && not row.is_read

unfoldable pub unread_count : Text → List Notification → ℕ
unread_count user rows = length (filter (is_unread_of user) rows)

-- listForUser; `newest` is the order of the query
unfoldable pub list_for_user :
    (newest : List Notification → List Notification)
    → Text
    → ℕ
    → List Notification
    → List Notification × ℕ
list_for_user newest user limit rows =
    (take limit (newest (filter (λ row. text_eq row.user_id user) rows)), unread_count user rows)

abbrev pub read_where : (Notification → Bool) → List Notification → List Notification
read_where test rows = map (λ row. if test row then record row { is_read = true } else row) rows

unfoldable pub mark_read : Text → Text → List Notification → List Notification
mark_read user id rows = read_where (λ row. text_eq row.id id && text_eq row.user_id user) rows

unfoldable pub mark_all_read : Text → List Notification → List Notification
mark_all_read user rows = read_where (is_unread_of user) rows
