-- ===== src/Records/Trash/Restore.antt =====
-- A record that is removed and restored.
use nocode_app.Base.{
  ℕ, ◌+◌, has, if◌then◌else◌, Text, text_eq, text_eq_refl, not, none, some, List, [], ◌∷◌, ◌++◌,
  filter, find, ok, ◌≡◌, refl, sym, ap, subst, ◌∙◌, Bool-cases, inl, inr,
}
use nocode_app.Base.Keys.{find-key}
use nocode_app.Formula.Double.{Double}
use nocode_app.Records.Service.{Row, AppRow, Trash, Store, find_row}
use nocode_app.Records.Trash.{
  find_app_row, find_trash, snapshot, bury, remove, restored_row, user_or, unbury, restore_trash,
}

module _ (D : Double) where
  gone :
      (id : Text) (rs : List (Row D))
      → find (λ r. text_eq r.id id) (filter (λ r. not (text_eq r.id id)) rs) ≡ none
  unfolding find filter
  gone id [] = refl
  gone id (r ∷ rs) = elim (Bool-cases (text_eq r.id id)) [
    | inl here ↦ rw here (gone id rs)
    | inr there ↦ rw (there, there) (gone id rs)
  ]

  last_found :
      (id : Text) (ts : List (Trash D)) (t : Trash D)
      → t.id ≡ id
      → find (λ u. text_eq u.id id) ts ≡ none
      → find (λ u. text_eq u.id id) (ts ++ t ∷ []) ≡ some t
  unfolding find
  last_found id [] t e h = rw (e, text_eq_refl)
  last_found id (u ∷ ts) t e h = elim (Bool-cases (text_eq u.id id)) [
    | inl here ↦ cc (rw here at h)
    | inr there ↦ rw there (last_found id ts t e (rw there at h))
  ]

  last_row :
      (id : Text) (rs : List (Row D)) (r : Row D)
      → r.id ≡ id
      → find (λ x. text_eq x.id id) rs ≡ none
      → find (λ x. text_eq x.id id) (rs ++ r ∷ []) ≡ some r
  unfolding find
  last_row id [] r e h = rw (e, text_eq_refl)
  last_row id (x ∷ rs) r e h = elim (Bool-cases (text_eq x.id id)) [
    | inl here ↦ cc (rw here at h)
    | inr there ↦ rw there (last_row id rs r e (rw there at h))
  ]

  removed :
      (trash_id id user : Text) (now : ℕ) (s : Store D) (r : Row D) (a : AppRow D)
      → find_row D s id ≡ some r
      → find_app_row D s r.app_id ≡ some a
      → remove D trash_id id user now s ≡ ok (bury D id (snapshot D trash_id user now s r a) s)
  unfolding remove
  removed trash_id id user now s r a there app = rw (there, app)

  own_id : (id : Text) (s : Store D) (r : Row D) → find_row D s id ≡ some r → r.id ≡ id
  unfolding find_row
  own_id id s r there = (find-key (λ (x : Row D). x.id) s.records id there).1

  snapshot-id :
      (trash_id user : Text) (now : ℕ) (s : Store D) (r : Row D) (a : AppRow D)
      → (snapshot D trash_id user now s r a).id ≡ trash_id
  unfolding snapshot
  snapshot-id trash_id user now s r a = refl

  snapshot-original :
      (trash_id user : Text) (now : ℕ) (s : Store D) (r : Row D) (a : AppRow D)
      → (snapshot D trash_id user now s r a).original ≡ r
  unfolding snapshot
  snapshot-original trash_id user now s r a = refl

  absent : (id : Text) (t : Trash D) (s : Store D) → find_row D (bury D id t s) id ≡ none
  unfolding bury find_row
  absent id t s = gone id s.records

  kept :
      (id trash_id : Text) (t : Trash D) (s : Store D)
      → t.id ≡ trash_id
      → find_trash D s trash_id ≡ none
      → find_trash D (bury D id t s) trash_id ≡ some t
  unfolding bury find_trash
  kept id trash_id t s e free = last_found trash_id s.trash t e free

  app_kept :
      (id : Text) (t : Trash D) (s : Store D) (app : Text) {a : AppRow D}
      → t.original.app_id ≡ app
      → find_app_row D s app ≡ some a
      → find_app_row D (bury D id t s) t.original.app_id ≡ some a
  unfolding bury find_app_row
  app_kept id t s app e h = rw e h

  restored :
      (trash_id actor : Text) (s : Store D) (t : Trash D) (a : AppRow D)
      → find_trash D s trash_id ≡ some t
      → find_app_row D s t.original.app_id ≡ some a
      → find_row D s t.original.id ≡ none
      → restore_trash D trash_id actor s ≡ ok (unbury D actor t s)
  unfolding restore_trash
  restored trash_id actor s t a there app free = rw (there, app, free)

  users_kept :
      (id actor : Text) (t : Trash D) (s : Store D) (r : Row D)
      → restored_row D (bury D id t s) actor r ≡ restored_row D s actor r
  unfolding bury restored_row user_or
  users_kept id actor t s r = refl

  back :
      (id actor : Text) (t : Trash D) (s : Store D) (r : Row D)
      → t.original ≡ r
      → r.id ≡ id
      → find_row D s id ≡ none
      → find_row D (unbury D actor t s) id ≡ some (restored_row D s actor r)
  unfolding unbury find_row
  back id actor t s r e own free = rw (sym e) (
      last_row id s.records (restored_row D s actor t.original) (unfold restored_row in rw e own)
        free)

  -- A row that stands for `r` again, in a store with these users.
  pub record Restored (s : Store D) (actor : Text) (r r' : Row D) : Type 0 where
    pub same_id : r'.id ≡ r.id
    pub same_app : r'.app_id ≡ r.app_id
    pub same_data : r'.data_json ≡ r.data_json
    pub same_time : r'.created_at ≡ r.created_at
    pub next_version : r'.version ≡ r.version + 1
    pub creator : r'.created_by ≡ (if has s.user_ids r.created_by then r.created_by else actor)
    pub last_user : r'.updated_by ≡ (if has s.user_ids r.updated_by then r.updated_by else actor)

  row-Restored :
      (s : Store D) (actor : Text) (r : Row D) → Restored s actor r (restored_row D s actor r)
  unfolding restored_row user_or
  row-Restored s actor r = record {
    same_id = refl;
    same_app = refl;
    same_data = refl;
    same_time = refl;
    next_version = refl;
    creator = refl;
    last_user = refl;
  }

  -- A record that is removed is found no more, and can be restored from the entry of the trash that keeps it,
  -- if the entry's id was free: then under its id stands a row with the same app, data and time of creation, with the next
  -- version, and with its creator and last user, or who restored it in the place of one who is no user any more.
  pub restore-remove :
      (trash_id id user actor : Text) (now : ℕ) (s : Store D) (r : Row D) (a : AppRow D)
      → find_row D s id ≡ some r
      → find_app_row D s r.app_id ≡ some a
      → find_trash D s trash_id ≡ none
      → (s' : Store D) × (s'' : Store D) × (r' : Row D) × (remove D trash_id id user now s ≡ ok s')
        × (find_row D s' id ≡ none)
        × (restore_trash D trash_id actor s' ≡ ok s'')
        × (find_row D s'' id ≡ some r')
        × Restored s actor r r'
  restore-remove trash_id id user actor now s r a there app free =
      let t = snapshot D trash_id user now s r a in
      let own : r.id ≡ id = own_id id s r there in
      let whole : t.original ≡ r = snapshot-original trash_id user now s r a in
      (
        bury D id t s,
        unbury D actor t (bury D id t s),
        restored_row D s actor r,
        removed trash_id id user now s r a there app,
        absent id t s,
        restored trash_id actor (bury D id t s) t a
            (kept id trash_id t s (snapshot-id trash_id user now s r a) free)
            (app_kept id t s r.app_id (ap (λ (x : Row D). x.app_id) whole) app)
            (subst (λ k. find_row D (bury D id t s) k ≡ none)
              (sym own ∙ ap (λ (x : Row D). x.id) (sym whole)) (absent id t s)),
        back id actor t (bury D id t s) r whole own (absent id t s)
            ∙ ap some (users_kept id actor t s r),
        row-Restored s actor r,
      )
