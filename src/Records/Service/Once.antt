-- ===== src/Records/Service/Once.antt =====
-- No update is lost: the version of a record over any later writes of the table of records and of the trash
-- (update, create, remove, restoreTrash and purgeTrash of records.service.ts).
use mathlib.Core.List.Memᴰ
use nocode_app.Base.{
  ℕ, ◌<◌, ◌≤◌, Text, text_eq, text_eq_iff, Bool, List, [], ◌∷◌, filter, of_filter, find-some, ok,
  conflict, require, bind_ok, ok_inj, ◌==◌, ◌≡◌, ◌≢◌, refl, sym, ap, subst, ◌∙◌, arith, Bool-cases,
  Memᴰ, ⊎_elim, inl, inr, map, if◌then◌else◌,
}
use nocode_app.Formula.Double.{Double}
use nocode_app.Records.Input.{sanitize_record_input}
use nocode_app.Records.Service.{
  Values, Row, Trash, Store, find_row, fields_of, is_current, write_rows, create, update_tx, found,
}
use nocode_app.Records.Service.Lock.{current_parts, found_some, tx_writes, no_second}
use nocode_app.Records.Trash.{
  find_app_row, find_trash, snapshot, bury, remove, is_none, restored_row, unbury, restore_trash,
  purge_trash,
}

module _ (D : Double) where
  -- Every row of a record has a version above `v`, in a list of rows.
  abbrev pub IsPast : Text → ℕ → List (Row D) → Type 0
  IsPast id v rs = (r : Row D) → Memᴰ r rs → r.id ≡ id → v < r.version

  -- A row that was written or left by an update.
  record From (id : Text) (v : ℕ) (rs : List (Row D)) (r : Row D) : Type 0 where
    before : Row D
    there : Memᴰ before rs
    same : before.id ≡ r.id
    raised : before.version ≤ r.version
    left : before.id ≡ id → before.version ≡ v → v < r.version

  behind :
      {id : Text} {v : ℕ} (x : Row D) (rs : List (Row D)) {r : Row D}
      → From id v rs r
      → From id v (x ∷ rs) r
  behind x rs f = record {
    before = f.before;
    there = Memᴰ.tail f.there;
    same = f.same;
    raised = f.raised;
    left = f.left;
  }

  of_write :
      (id : Text) (v : ℕ) (w : Values D) (user : Text) (rs : List (Row D)) {r : Row D}
      → Memᴰ r (write_rows D id v w user rs)
      → From id v rs r
  unfolding write_rows is_current
  of_write id v w user [] m = absurd (Memᴰ.not-nil m)
  of_write id v w user (x ∷ rs) {r} m = elim (Bool-cases (is_current D id v x)) [
    | inl current ↦ elim (Memᴰ.cases_cons (rw current at m)) [
      | inl e ↦ rw e (record {
        before = x;
        there = Memᴰ.head refl;
        same = refl;
        raised = omega arith;
        left = λ own at_v. omega (arith, at_v);
      })
      | inr t ↦ behind x rs (of_write id v w user rs t)
    ]
    | inr other ↦ elim (Memᴰ.cases_cons (rw other at m)) [
      | inl e ↦ rw e (record {
        before = x;
        there = Memᴰ.head refl;
        same = refl;
        raised = omega arith;
        left = λ own at_v. absurd (ground (arith, (text_eq_iff x.id id).1 own, at_v));
      })
      | inr t ↦ behind x rs (of_write id v w user rs t)
    ]
  ]

  write-IsPast :
      (id key : Text) (v u : ℕ) (w : Values D) (user : Text) (rs : List (Row D))
      → IsPast id v rs
      → IsPast id v (write_rows D key u w user rs)
  write-IsPast id key v u w user rs h r m own =
      let f = of_write key u w user rs m in
      omega (arith, f.raised, h f.before f.there (f.same ∙ own))

  -- The update against `v` puts every row of the record past `v`, where none was older.
  first-IsPast :
      (id : Text) (v : ℕ) (w : Values D) (user : Text) (rs : List (Row D))
      → ((r : Row D) → Memᴰ r rs → r.id ≡ id → v ≤ r.version)
      → IsPast id v (write_rows D id v w user rs)
  first-IsPast id v w user rs h r m own =
      let f = of_write id v w user rs m in
      let whose : f.before.id ≡ id = f.same ∙ own in
      let old = h f.before f.there whose in
      elim (Bool-cases (f.before.version == v)) [
        | inl e ↦ f.left whose (ground arith)
        | inr e ↦ ground (arith, f.raised)
      ]

  none_current :
      (id : Text) (v : ℕ) (rs : List (Row D)) → IsPast id v rs → filter (is_current D id v) rs ≡ []
  unfolding filter is_current
  none_current id v [] h = refl
  none_current id v (x ∷ rs) h = elim (Bool-cases (is_current D id v x)) [
    | inl current ↦
        let (own, at_v) = current_parts D id v x current in
        absurd (omega (arith, at_v, h x (Memᴰ.head refl) ((text_eq_iff x.id id).0 own)))
    | inr other ↦ rw other (none_current id v rs (λ r m. h r (Memᴰ.tail m)))
  ]

  -- The rows of a record, in the table and in the trash.
  record Past (id : Text) (v : ℕ) (s : Store D) : Type 0 where
    rows : IsPast id v s.records
    kept : (t : Trash D) → Memᴰ t s.trash → t.original.id ≡ id → v < t.original.version

  create-Past :
      (size : Values D → ℕ) (show : ℕ → Text) (id new app user : Text) (v time : ℕ)
      (values : Values D) (trusted : Bool) (s : Store D) {s' : Store D}
      → new ≢ id
      → create D size show new time app values user trusted s ≡ ok s'
      → Past id v s
      → Past id v s'
  unfolding create
  create-Past size show id new app user v time values trusted s apart h p =
      let (clean, taken, e) =
        bind_ok
          (if trusted
            then ok values
            else sanitize_record_input size (map (λ f. f.like) (fields_of D s app)) values)
          _ h in
      subst (Past id v) (ok_inj e) (record {
        rows = λ r m own.
            ⊎_elim (λ l. p.rows r l own)
              (λ l. absurd (apart (sym (ap (λ (x : Row D). x.id) (Memᴰ.eq_of_singleton l)) ∙ own)))
              (Memᴰ.append_cases s.records m);
        kept = p.kept;
      })

  remove-Past :
      (id trash_id key user : Text) (v time : ℕ) (s : Store D) {s' : Store D}
      → remove D trash_id key user time s ≡ ok s'
      → Past id v s
      → Past id v s'
  unfolding remove bury snapshot find_row
  remove-Past id trash_id key user v time s h p =
      let (row, there, rest) = bind_ok (found D (find_row D s key)) _ h in
      let (app, its_app, e) = bind_ok (found D (find_app_row D s row.app_id)) _ rest in
      let (in_rows, own_key) =
        find-some (λ (r : Row D). text_eq r.id key) s.records
          (found_some D (find_row D s key) there) in
      subst (Past id v) (ok_inj e) (record {
        rows = λ r m. p.rows r (of_filter _ s.records m).0;
        kept = λ t m own.
            ⊎_elim (λ l. p.kept t l own)
              (λ l.
                let same : t.original ≡ row =
                  ap (λ (x : Trash D). x.original) (Memᴰ.eq_of_singleton l) in
                rw same (p.rows row in_rows (rw same at own)))
              (Memᴰ.append_cases s.trash m);
      })

  restore-Past :
      (id trash_id actor : Text) (v : ℕ) (s : Store D) {s' : Store D}
      → restore_trash D trash_id actor s ≡ ok s'
      → Past id v s
      → Past id v s'
  unfolding restore_trash unbury restored_row find_trash
  restore-Past id trash_id actor v s h p =
      let (t, there, rest) = bind_ok (found D (find_trash D s trash_id)) _ h in
      let (app, its_app, rest') = bind_ok (found D (find_app_row D s t.original.app_id)) _ rest in
      let (u, free, e) =
        bind_ok (require (is_none D (find_row D s t.original.id)) conflict) _ rest' in
      let (in_trash, own_key) =
        find-some (λ (x : Trash D). text_eq x.id trash_id) s.trash
          (found_some D (find_trash D s trash_id) there) in
      subst (Past id v) (ok_inj e) (record {
        rows = λ r m own.
            ⊎_elim (λ l. p.rows r l own)
              (λ l.
                let same = Memᴰ.eq_of_singleton l in
                let whose : t.original.id ≡ id = sym (ap (λ (x : Row D). x.id) same) ∙ own in
                omega (arith, ap (λ (x : Row D). x.version) same, p.kept t in_trash whose))
              (Memᴰ.append_cases s.records m);
        kept = λ x m. p.kept x (of_filter _ s.trash m).0;
      })

  purge-Past :
      (id trash_id : Text) (v : ℕ) (s : Store D) {s' : Store D}
      → purge_trash D trash_id s ≡ ok s'
      → Past id v s
      → Past id v s'
  unfolding purge_trash
  purge-Past id trash_id v s h p =
      let (t, there, e) = bind_ok (found D (find_trash D s trash_id)) _ h in
      subst (Past id v) (ok_inj e)
        (record { rows = p.rows; kept = λ x m. p.kept x (of_filter _ s.trash m).0 })

  module _ (size : Values D → ℕ) (show : ℕ → Text) where
    update-Past :
        (id key user : Text) (seen : Row D) (values : Values D) (v u : ℕ) (s : Store D)
        {s' : Store D}
        → update_tx D size show seen key values user u s ≡ ok s'
        → Past id v s
        → Past id v s'
    update-Past id key user seen values v u s h p =
        let (w, e, by_request) = tx_writes D size show seen key user values u s h in
        subst (Past id v) e
          (record { rows = write-IsPast id key v u w user s.records p.rows; kept = p.kept })

    -- What can be written after a state: any updates, of this record and of others; new records under other ids;
    -- removals, restorations and purges, of this record too.
    pub data Later (id : Text) (s : Store D) : Store D → Type 0 where
      still : Later id s s
      updated :
          {t t' : Store D} (seen : Row D) (key user : Text) (values : Values D) (u : ℕ)
          → Later id s t
          → update_tx D size show seen key values user u t ≡ ok t'
          → Later id s t'
      created :
          {t t' : Store D} (new app user : Text) (time : ℕ) (values : Values D) (trusted : Bool)
          → Later id s t
          → new ≢ id
          → create D size show new time app values user trusted t ≡ ok t'
          → Later id s t'
      removed :
          {t t' : Store D} (trash_id key user : Text) (time : ℕ)
          → Later id s t
          → remove D trash_id key user time t ≡ ok t'
          → Later id s t'
      restored :
          {t t' : Store D} (trash_id actor : Text)
          → Later id s t
          → restore_trash D trash_id actor t ≡ ok t'
          → Later id s t'
      purged :
          {t t' : Store D} (trash_id : Text)
          → Later id s t
          → purge_trash D trash_id t ≡ ok t'
          → Later id s t'

    Later-Past :
        (id : Text) (v : ℕ) (s : Store D) {t : Store D} → Later id s t → Past id v s → Past id v t
    Later-Past id v s still p = p
    Later-Past id v s (updated {t} seen key user values u l h) p =
        update-Past id key user seen values v u t h (Later-Past id v s l p)
    Later-Past id v s (created {t} new app user time values trusted l apart h) p =
        create-Past size show id new app user v time values trusted t apart h
          (Later-Past id v s l p)
    Later-Past id v s (removed {t} trash_id key user time l h) p =
        remove-Past id trash_id key user v time t h (Later-Past id v s l p)
    Later-Past id v s (restored {t} trash_id actor l h) p =
        restore-Past id trash_id actor v t h (Later-Past id v s l p)
    Later-Past id v s (purged {t} trash_id l h) p =
        purge-Past id trash_id v t h (Later-Past id v s l p)

    -- No update is lost: once an update made against a version of a record has committed, where no row of the record
    -- was older and the trash held none of it, no update made against the same version commits ever after, whatever is
    -- updated, created under other ids, removed, restored and purged in between, by whatever user and with whatever
    -- values, even if the late update read the record and passed every check before.
    pub update_once :
        (id first second : Text) (values values' : Values D) (v : ℕ) (old seen : Row D)
        (s s' t t' : Store D)
        → ((r : Row D) → Memᴰ r s.records → r.id ≡ id → v ≤ r.version)
        → ((e : Trash D) → Memᴰ e s.trash → e.original.id ≢ id)
        → update_tx D size show old id values first v s ≡ ok s'
        → Later id s' t
        → update_tx D size show seen id values' second v t ≢ ok t'
    update_once id first second values values' v old seen s s' t t' newest unburied h l =
        let (w, e, by_request) = tx_writes D size show old id first values v s h in
        let start : Past id v s' = subst (Past id v) e (record {
          rows = first-IsPast id v w first s.records newest;
          kept = λ x m own. absurd (unburied x m own);
        }) in
        no_second D size show seen id second values' v t t'
          (none_current id v t.records (Later-Past id v s' l start).rows)
