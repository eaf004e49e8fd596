-- ===== src/Records/Service/Lock.antt =====
-- The version of a record as a lock: what an update commits, and that no update is lost.
use nocode_app.Base.{
  ℕ, ◌+◌, Text, text_eq, text_eq_iff, Bool, true, false, Option, none, some, List, [], ◌∷◌, ◌++◌,
  map, if◌then◌else◌, ◌==◌, length, filter, find, ok, conflict, require, bind_ok, require_ok,
  ok_inj, ◌≡◌, ◌≢◌, ◌⊎◌, refl, sym, some_inj, ap, subst, arith, Bool-cases, inl, inr, ◌∙◌, ==_iff,
}
use nocode_app.Records.Input.{sanitize_record_input}
use nocode_app.Formula.Double.{Double}
use nocode_app.Json.{get}
use nocode_app.Records.Input.Exact.{kept}
use nocode_app.Records.Computed.{Field, compute_update}
use nocode_app.Records.Computed.Plain.{is_fixed, compute_update_plain}
use nocode_app.Records.Service.Patch.{get-patched}
use nocode_app.Records.Service.{
  Values, Row, Store, find_row, fields_of, spread, is_current, write_rows, update_tx, commit,
  update_read, update, found, assert_process_approver,
}

module _ (D : Double) where
  pub current_parts :
      (id : Text) (v : ℕ) (r : Row D)
      → is_current D id v r ≡ true
      → (text_eq r.id id ≡ true) × (r.version ≡ v)
  unfolding is_current
  current_parts id v r h = ground arith

  -- A row of another id is found as before.
  find-write_other :
      (id key : Text) (v : ℕ) (w : Values D) (user : Text) (rs : List (Row D))
      → id ≢ key
      → find (λ r. text_eq r.id key) (write_rows D id v w user rs) ≡ find (λ r. text_eq r.id key) rs
  unfolding find write_rows
  find-write_other id key v w user [] h = refl
  find-write_other id key v w user (r ∷ rs) h = elim (Bool-cases (is_current D id v r)) [
    | inl current ↦
        let (same, at_v) = current_parts id v r current in
        let elsewhere : text_eq r.id key ≡ false =
          ground (arith, (text_eq_iff r.id id).0 same, text_eq_iff r.id key) in
        rw (current, elsewhere, find-write_other id key v w user rs h)
    | inr other ↦
        rw other
          (ap (λ o. if text_eq r.id key then some r else o) (find-write_other id key v w user rs h))
  ]

  -- Where the first row of an id is of the version, it is the row that is written.
  find-write :
      (id : Text) (v : ℕ) (w : Values D) (user : Text) (rs : List (Row D)) {r : Row D}
      → find (λ r. text_eq r.id id) rs ≡ some r
      → r.version ≡ v
      → find (λ r. text_eq r.id id) (write_rows D id v w user rs)
        ≡ some (record r { data_json = w; updated_by = user; version = r.version + 1 })
  unfolding find write_rows is_current
  find-write id v w user [] h e = cc
  find-write id v w user (x ∷ rs) {r} h e = elim (Bool-cases (text_eq x.id id)) [
    | inl here ↦
        let same : x ≡ r = some_inj (rw here at h) in
        let at_v : (x.version == v) ≡ true = ground (arith, ap (λ (y : Row D). y.version) same) in
        rw (here, at_v, here)
          (ap
            (λ (y : Row D).
              some (record y { data_json = w; updated_by = user; version = y.version + 1 }))
            same)
    | inr there ↦ rw (there, there) (find-write id v w user rs (rw there at h) e)
  ]

  pub found_some : {A : Type 0} (o : Option A) {a : A} → found D o ≡ ok a → o ≡ some a
  found_some none h = cc
  found_some (some a) h = ap some (ok_inj h)

  module _ (size : Values D → ℕ) (show : ℕ → Text) where
    -- What an update leaves: under its id the row with the new values, the user and the next version, every
    -- other row as it was, and one more entry of the history with the values before and after.
    pub record Committed (s s' : Store D) (id user : Text) (old : Row D) (written : Values D)
        : Type 0 where
      pub rows :
          (key : Text)
          → find_row D s' key ≡ (
              if text_eq id key
              then some
                  (record old { data_json = written; updated_by = user; version = old.version + 1 })
              else find_row D s key)
      pub history :
          s'.histories
          ≡ s.histories
            ++ record {
              record_id = id;
              changed_by = user;
              old_data = old.data_json;
              new_data = written;
            }
              ∷ []

    rows_after :
        (id user key : Text) (w : Values D) (v : ℕ) (rs : List (Row D)) (old : Row D)
        → find (λ r. text_eq r.id id) rs ≡ some old
        → old.version ≡ v
        → find (λ r. text_eq r.id key) (write_rows D id v w user rs) ≡ (
            if text_eq id key
            then some (record old { data_json = w; updated_by = user; version = old.version + 1 })
            else find (λ r. text_eq r.id key) rs)
    rows_after id user key w v rs old there at_v = elim (Bool-cases (text_eq id key)) [
      | inl same ↦ rw same (
          subst
            (λ k.
              find (λ r. text_eq r.id k) (write_rows D id v w user rs)
              ≡ some (record old { data_json = w; updated_by = user; version = old.version + 1 }))
            ((text_eq_iff id key).0 same) (find-write id v w user rs there at_v))
      | inr other ↦
          rw other (find-write_other id key v w user rs (λ e. cc (other, (text_eq_iff id key).1 e)))
    ]

    -- The values that an update writes over those of a row, for a request. Under a key that is no code of an
    -- automatic number, a calculated field or a subtable stands the value of the request where the app has such a field
    -- and the request the key, and the old value elsewhere; the whole is what computeFields makes of the
    -- old values spread with the sanitized request.
    pub record Written (fields : List (Field D)) (old request written : Values D) : Type 0 where
      pub plain :
          (key : Text)
          → (is_fixed D fields key ≡ true)
            ⊎ (get written key ≡ (
                if kept (map (λ f. f.like) fields) request key
                then get request key
                else get old key))
      pub patch : Values D
      pub taken : sanitize_record_input size (map (λ f. f.like) fields) request ≡ ok patch
      pub whole : written ≡ compute_update D fields old (spread D old patch)

    patch-Written :
        (fields : List (Field D)) (old request patch : Values D)
        → sanitize_record_input size (map (λ f. f.like) fields) request ≡ ok patch
        → Written fields old request (compute_update D fields old (spread D old patch))
    patch-Written fields old request patch taken = record {
      plain = λ key. elim (Bool-cases (is_fixed D fields key)) [
        | inl fixed ↦ inl fixed
        | inr free ↦ inr (
            compute_update_plain D key fields old (spread D old patch) free
            ∙ get-patched D size (map (λ f. f.like) fields) request old key taken)
      ];
      patch = patch;
      taken = taken;
      whole = refl;
    }

    pub tx_writes :
        (existing : Row D) (id user : Text) (values : Values D) (v : ℕ) (s : Store D) {s' : Store D}
        → update_tx D size show existing id values user v s ≡ ok s'
        → (w : Values D) × (record s {
          records = write_rows D id v w user s.records;
          histories =
              s.histories
              ++ record {
                record_id = id;
                changed_by = user;
                old_data = existing.data_json;
                new_data = w;
              }
                ∷ [];
        }
            ≡ s')
          × Written (fields_of D s existing.app_id) existing.data_json values w
    unfolding update_tx commit
    tx_writes existing id user values v s h =
        let (patch, taken, rest) =
          bind_ok
            (sanitize_record_input size (map (λ f. f.like) (fields_of D s existing.app_id)) values)
            _ h in
        let (u, one, e) =
          bind_ok (require (length (filter (is_current D id v) s.records) == 1) conflict) _ rest in
        (
          compute_update D (fields_of D s existing.app_id) existing.data_json
              (spread D existing.data_json patch),
          ok_inj e,
          patch-Written (fields_of D s existing.app_id) existing.data_json values patch taken,
        )

    committed :
        (s : Store D) {s' : Store D} (id user : Text) (old : Row D) (w : Values D) (v : ℕ)
        → find_row D s id ≡ some old
        → old.version ≡ v
        → (record s {
          records = write_rows D id v w user s.records;
          histories =
              s.histories
              ++ record {
                record_id = id;
                changed_by = user;
                old_data = old.data_json;
                new_data = w;
              }
                ∷ [];
        }
            ≡ s')
        → Committed s s' id user old w
    unfolding find_row
    committed s id user old w v there at_v same =
        subst (λ t. Committed s t id user old w) same
          (record {
            rows = λ key. rows_after id user key w v s.records old there at_v;
            history = refl;
          })

    -- An update that returns was made against the version of the record, and leaves under its id the row with
    -- the user, the next version and the values that the request writes over the old ones, every other row as it was,
    -- and one more entry of the history, with the values before and after. Under a key that is no code of an automatic
    -- number, a calculated field or a subtable, the values written are those of the request where it has the key
    -- and the app the field, and the old ones elsewhere; the others are what computeFields makes of them.
    pub update_exact :
        (id user : Text) (values : Values D) (v : ℕ) (can_manage : Bool) (s : Store D)
        {s' : Store D}
        → update D size show id values user v can_manage s ≡ ok s'
        → (old : Row D) × (w : Values D) × (find_row D s id ≡ some old)
          × (old.version ≡ v)
          × Committed s s' id user old w
          × Written (fields_of D s old.app_id) old.data_json values w
    unfolding update update_read
    update_exact id user values v can_manage s {s'} h =
        let (old, read, rest) =
          bind_ok (update_read D size show id values user v can_manage s) _ h in
        let (row, there, checks) = bind_ok (found D (find_row D s id)) _ read in
        let (u, at_version, approved) = bind_ok (require (row.version == v) conflict) _ checks in
        let (w', may, e) =
          bind_ok (assert_process_approver D s row values user can_manage) _ approved in
        let found_row : find_row D s id ≡ some old =
          found_some (find_row D s id) there ∙ ap some (ok_inj e) in
        let at_v : row.version ≡ v = (==_iff _ _).0 (require_ok _ _ at_version) in
        let at_v_old : old.version ≡ v = ap (λ (r : Row D). r.version) (sym (ok_inj e)) ∙ at_v in
        let (w, same, by_request) = tx_writes old id user values v s rest in
        (
          old,
          w,
          found_row,
          at_v_old,
          committed s id user old w v found_row at_v_old same,
          by_request,
        )

    pub no_second :
        (existing : Row D) (id user : Text) (values : Values D) (v : ℕ) (s s' : Store D)
        → filter (is_current D id v) s.records ≡ []
        → update_tx D size show existing id values user v s ≢ ok s'
    unfolding update_tx commit
    no_second existing id user values v s s' nobody h =
        let (patch, taken, rest) =
          bind_ok
            (sanitize_record_input size (map (λ f. f.like) (fields_of D s existing.app_id)) values)
            _ h in
        let (u, one, e) =
          bind_ok (require (length (filter (is_current D id v) s.records) == 1) conflict) _ rest in
        let counted : (length (filter (is_current D id v) s.records) == 1) ≡ true =
          require_ok _ _ one in
        cc (rw nobody at counted)
