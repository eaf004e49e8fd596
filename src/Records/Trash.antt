-- ===== src/Records/Trash.antt =====
-- The trash of records.service.ts: remove, bulkRemove, restoreTrash, purgeTrash and purgeExpiredTrash. What a
-- table deletes with a row (`onDelete` of the schema) is deleted with it.
pub mod Restore
use nocode_app.Base.{
  ℕ, ◌+◌, Text, text_eq, has, Bool, true, false, not, ◌&&◌, ◌||◌, Option, none, some, List, [], ◌∷◌,
  ◌++◌, map, if◌then◌else◌, leb, filter, any, find, Result, ok, err, conflict, not_found, no_fuel,
  ◌>>=◌, ◌>>◌, require, opt_text_eq,
}
use nocode_app.Json.{get}
use nocode_app.Formula.Double.{Double}
use nocode_app.Formula.Rules.{text_of}
use nocode_app.Records.Service.{
  Row, History, Comment, Attachment, AppRow, Trash, Store, find_row, found,
}

-- 30 days in milliseconds
abbrev pub keep_ms : ℕ
keep_ms = 2_592_000_000

module _ (D : Double) where
  unfoldable pub find_app_row : Store D → Text → Option (AppRow D)
  find_app_row s id = find (λ a. text_eq a.id id) s.apps

  unfoldable pub find_trash : Store D → Text → Option (Trash D)
  find_trash s id = find (λ t. text_eq t.id id) s.trash

  abbrev pub is_of : Text → Attachment D → Bool
  is_of id a = opt_text_eq a.record_id id

  -- `recordId` of an attachment whose record is deleted
  unfoldable pub detach : Text → Attachment D → Attachment D
  detach id a = if is_of id a then record a { record_id = none } else a

  -- What remove keeps of a record.
  unfoldable pub snapshot : Text → Text → ℕ → Store D → Row D → AppRow D → Trash D
  snapshot trash_id deleted_by now s r a = record {
    id = trash_id;
    original = r;
    app_name = a.name;
    comments = filter (λ c. text_eq c.record_id r.id) s.comments;
    histories = filter (λ h. text_eq h.record_id r.id) s.histories;
    attachment_ids = map (λ b. b.id) (filter (is_of r.id) s.attachments);
    deleted_by = deleted_by;
    expires_at = now + keep_ms;
  }

  -- The transaction of remove.
  unfoldable pub bury : Text → Trash D → Store D → Store D
  bury id t s = record s {
    trash = s.trash ++ t ∷ [];
    records = filter (λ r. not (text_eq r.id id)) s.records;
    comments = filter (λ c. not (text_eq c.record_id id)) s.comments;
    histories = filter (λ h. not (text_eq h.record_id id)) s.histories;
    attachments = map (detach id) s.attachments;
  }

  unfoldable pub remove : Text → Text → Text → ℕ → Store D → Result (Store D)
  remove trash_id id deleted_by now s = do
    let existing = (← found D (find_row D s id))
    let app = (← found D (find_app_row s existing.app_id))
    ok (bury id (snapshot trash_id deleted_by now s existing app) s)

  -- The loop of bulkRemove, with a trash id for each row; without one the model is cut off.
  unfoldable pub remove_all : List Text → List Text → Text → ℕ → Store D → Result (Store D)
  remove_all trash_ids [] deleted_by now s = ok s
  remove_all [] (id ∷ ids) deleted_by now s = err no_fuel
  remove_all (t ∷ ts) (id ∷ ids) deleted_by now s = do
    let s' = (← remove t id deleted_by now s)
    remove_all ts ids deleted_by now s'

  -- `fieldScope`: the field, and the users whose records may be deleted
  abbrev pub in_field_scope : Option (Text × List Text) → Row D → Bool
  in_field_scope none r = true
  in_field_scope (some scope) r = has scope.1 (text_of D (get r.data_json scope.0))

  abbrev pub by_creator : Option (List Text) → Row D → Bool
  by_creator none r = true
  by_creator (some users) r = has users r.created_by

  -- The rows that bulkRemove deletes.
  unfoldable pub targets :
      Text → List Text → Option (List Text) → Option (Text × List Text) → Store D → List Text
  targets app ids creators scope s =
      map (λ r. r.id)
        (filter
          (λ r.
            has ids r.id && text_eq r.app_id app && in_field_scope scope r && by_creator creators r)
          s.records)

  unfoldable pub bulk_remove :
      List Text
      → Text
      → List Text
      → Option (List Text)
      → Option (Text × List Text)
      → Text
      → ℕ
      → Store D
      → Result (Store D)
  bulk_remove trash_ids app ids creators scope deleted_by now s =
      remove_all trash_ids (targets app ids creators scope s) deleted_by now s

  -- `creator?.id || actorId`
  unfoldable pub user_or : Store D → Text → Text → Text
  user_or s user actor = if has s.user_ids user then user else actor

  unfoldable pub attach : List Text → Text → Attachment D → Attachment D
  attach ids id a = if has ids a.id then record a { record_id = some id } else a

  unfoldable pub restored_row : Store D → Text → Row D → Row D
  restored_row s actor r = record r {
    created_by = user_or s r.created_by actor;
    updated_by = user_or s r.updated_by actor;
    version = r.version + 1;
  }

  -- The transaction of restoreTrash.
  unfoldable pub unbury : Text → Trash D → Store D → Store D
  unbury actor t s = record s {
    records = s.records ++ restored_row s actor t.original ∷ [];
    comments = s.comments ++ t.comments;
    histories = s.histories ++ t.histories;
    attachments = map (attach t.attachment_ids t.original.id) s.attachments;
    trash = filter (λ u. not (text_eq u.id t.id)) s.trash;
  }

  abbrev pub is_none : Option (Row D) → Bool
  is_none none = true
  is_none (some r) = false

  unfoldable pub restore_trash : Text → Text → Store D → Result (Store D)
  restore_trash id actor s = do
    let t = (← found D (find_trash s id))
    let app = (← found D (find_app_row s t.original.app_id))
    require (is_none (find_row D s t.original.id)) conflict
    ok (unbury actor t s)

  -- purgeTrash; the files of the attachments go with their rows
  unfoldable pub purge_trash : Text → Store D → Result (Store D)
  purge_trash id s = do
    let t = (← found D (find_trash s id))
    ok (record s {
      attachments = filter (λ a. not (has t.attachment_ids a.id)) s.attachments;
      trash = filter (λ u. not (text_eq u.id id)) s.trash;
    })
