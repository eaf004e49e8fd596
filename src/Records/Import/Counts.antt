-- ===== src/Records/Import/Counts.antt =====
-- What an import reports, and what a listing shows.
use mathlib.Core.List
use mathlib.Core.List.Memᴰ
use nocode_app.Base.{
  mem_of_any, any_of_mem, ◌⊎◌, ◌&&◌, ◌++◌, false, ℕ, ◌+◌, ◌≤◌, Text, text_eq_iff, Bool, true,
  Option, some, List, [], ◌∷◌, map, leb, length, of_filter, ok, bad_request, require, bind_ok,
  require_ok, ok_inj, ◌≡◌, refl, subst, leb→le, ◌∙◌, sym, ap, arith, Memᴰ, Bool-cases, inl, inr,
  has,
}
use nocode_app.Formula.Double.{Double}
use nocode_app.Records.Service.Patch.{HasDistinctKeys}
use nocode_app.Json.{get}
use nocode_app.Records.Input.{sanitize_record_input}
use nocode_app.Records.Input.Exact.{sanitize_record_input_exact}
use nocode_app.Records.Computed.{Field, compute_new}
use nocode_app.Records.Computed.Plain.{is_fixed, compute_new_plain}
use nocode_app.Records.Service.{Values, Row, Store, fields_of, create}
use nocode_app.Records.Import.{
  lacks_required, is_blank_cell, Imported, import_loop, import_rows, find_all, max_import_rows,
}
use nocode_app.Records.Import.Cells.{imported_value, cells, get-cells, kept_cells}

module _ (D : Double) where
  module _ (size : Values D → ℕ) (show : ℕ → Text) (fresh : ℕ → Text) (now : ℕ)
      (app user : Text) where
    -- A required field whose cell is empty or not there.
    abbrev pub IsLacking : List (Field D) → Values D → Field D → Type 0
    IsLacking fs raw f =
        (f.like.required ≡ true)
        × (is_blank_cell D (imported_value D fs raw f.like.field_code) ≡ true)

    -- The record of the row of index `i`: under a key that is no code of an automatic number, a calculated
    -- field or a subtable it has the cell of the row, where there is one for a field, and nothing elsewhere.
    pub record MadeFrom (fs : List (Field D)) (i : ℕ) (raw : Values D) (r : Row D) : Type 0 where
      pub its_id : r.id ≡ fresh i
      pub its_app : r.app_id ≡ app
      pub creator : r.created_by ≡ user
      pub last_user : r.updated_by ≡ user
      pub first_version : r.version ≡ 1
      pub created : r.created_at ≡ now
      pub values :
          (key : Text)
          → (is_fixed D fs key ≡ true) ⊎ (get r.data_json key ≡ imported_value D fs raw key)

    -- What becomes of the rows from the index `i` on: the numbers reported and the records made, in their order.
    pub data Outcome (fs : List (Field D))
        : ℕ → List (Values D) → List ℕ → List (Row D) → Type 0 where
      at_end : {i : ℕ} → Outcome fs i [] [] []
      reported :
          {i : ℕ} {raw : Values D} {rows : List (Values D)} {errors : List ℕ} {made : List (Row D)}
          (f : Field D)
          → Memᴰ f fs
          → IsLacking fs raw f
          → Outcome fs (i + 1) rows errors made
          → Outcome fs i (raw ∷ rows) ((i + 1) ∷ errors) made
      imported :
          {i : ℕ} {raw : Values D} {rows : List (Values D)} {errors : List ℕ} {made : List (Row D)}
          (r : Row D)
          → ((f : Field D) → Memᴰ f fs → ¬ IsLacking fs raw f)
          → MadeFrom fs i raw r
          → Outcome fs (i + 1) rows errors made
          → Outcome fs i (raw ∷ rows) errors (r ∷ made)

    lacking :
        (fs : List (Field D)) (raw : Values D)
        → HasDistinctKeys raw
        → lacks_required D fs (cells D fs raw) ≡ true
        → (f : Field D) × Memᴰ f fs × IsLacking fs raw f
    unfolding lacks_required
    lacking fs raw d h =
        let (f, m, e) =
          mem_of_any
            (λ f. f.like.required && is_blank_cell D (get (cells D fs raw) f.like.field_code)) fs
            h in
        let same = get-cells D fs raw f.like.field_code d in
        (f, m, (ground arith, ap (is_blank_cell D) (sym same) ∙ ground arith))

    complete :
        (fs : List (Field D)) (raw : Values D)
        → HasDistinctKeys raw
        → lacks_required D fs (cells D fs raw) ≡ false
        → (f : Field D) → Memᴰ f fs
        → ¬ IsLacking fs raw f
    unfolding lacks_required
    complete fs raw d h f m l =
        let blank : is_blank_cell D (get (cells D fs raw) f.like.field_code) ≡ true =
          ap (is_blank_cell D) (get-cells D fs raw f.like.field_code d) ∙ l.1 in
        let some_lacks =
          any_of_mem
            (λ f. f.like.required && is_blank_cell D (get (cells D fs raw) f.like.field_code)) fs m
            (ground (arith, l.0, blank)) in
        cc (h, some_lacks)

    created_row :
        (fs : List (Field D)) (i : ℕ) (raw : Values D) (s : Store D) {s' : Store D}
        → HasDistinctKeys raw
        → fields_of D s app ≡ fs
        → create D size show (fresh i) now app (cells D fs raw) user false s ≡ ok s'
        → (r : Row D) × (s'.records ≡ s.records ++ r ∷ [])
          × (fields_of D s' app ≡ fs)
          × MadeFrom fs i raw r
    unfolding create fields_of
    created_row fs i raw s {s'} distinct same h =
        let (clean, taken, e) =
          bind_ok
            (sanitize_record_input size (map (λ f. f.like) (fields_of D s app)) (cells D fs raw)) _
            h in
        let r : Row D = record {
          id = fresh i;
          app_id = app;
          created_by = user;
          updated_by = user;
          data_json = (compute_new D show app (fields_of D s app) clean s.counters).0;
          version = 1;
          created_at = now;
        } in
        let taken_fs : sanitize_record_input size (map (λ f. f.like) fs) (cells D fs raw)
            ≡ ok clean =
          rw same at taken in
        let (keys, fit, small) =
          sanitize_record_input_exact size (map (λ f. f.like) fs) (cells D fs raw) taken_fs in
        (
          r,
          ap (λ (t : Store D). t.records) (sym (ok_inj e)),
          ap (λ (t : Store D). fields_of D t app) (sym (ok_inj e)) ∙ same,
          record {
            its_id = refl;
            its_app = refl;
            creator = refl;
            last_user = refl;
            first_version = refl;
            created = refl;
            values = λ key. elim (Bool-cases (is_fixed D fs key)) [
              | inl fixed ↦ inl fixed
              | inr free ↦ inr (
                  ap (λ gs. get (compute_new D show app gs clean s.counters).0 key) same
                  ∙ compute_new_plain D key show app fs clean s.counters free
                  ∙ keys key
                  ∙ kept_cells D fs raw key distinct)
            ];
          },
        )

    -- Every row is reported or made, and the records made stand behind those that were there.
    pub record Counted (rows : List (Values D)) (s : Store D) (fs : List (Field D)) (i : ℕ)
        (r : Imported D) : Type 0 where
      pub made : List (Row D)
      pub each : Outcome fs i rows (r.1) made
      pub kept_rows : r.2.records ≡ s.records ++ made
      pub count : r.0 ≡ length made

    skip_row :
        (raw : Values D) (rows : List (Values D)) (s : Store D) (fs : List (Field D)) (i : ℕ)
        (r : Imported D)
        → HasDistinctKeys raw
        → lacks_required D fs (cells D fs raw) ≡ true
        → Counted rows s fs (i + 1) r
        → Counted (raw ∷ rows) s fs i (r.0, (i + 1) ∷ r.1, r.2)
    skip_row raw rows s fs i r distinct lacks c =
        let (f, m, l) = lacking fs raw distinct lacks in
        record {
          made = c.made;
          each = reported f m l c.each;
          kept_rows = c.kept_rows;
          count = c.count;
        }

    take_one :
        (raw : Values D) (rows : List (Values D)) (s s' : Store D) (fs : List (Field D)) (i : ℕ)
        (r : Imported D) (row : Row D)
        → HasDistinctKeys raw
        → lacks_required D fs (cells D fs raw) ≡ false
        → s'.records ≡ s.records ++ row ∷ []
        → MadeFrom fs i raw row
        → Counted rows s' fs (i + 1) r
        → Counted (raw ∷ rows) s fs i (r.0 + 1, r.1, r.2)
    take_one raw rows s s' fs i r row distinct has_all grown from c = record {
      made = row ∷ c.made;
      each = imported row (complete fs raw distinct has_all) from c.each;
      kept_rows =
          c.kept_rows
          ∙ ap (λ rs. rs ++ c.made) grown
          ∙ List.append_assoc s.records (row ∷ []) c.made;
      count = omega (arith, c.count);
    }

    loop_counts :
        (fs : List (Field D)) (i : ℕ) (rows : List (Values D)) (s : Store D) {r : Imported D}
        → ((raw : Values D) → Memᴰ raw rows → HasDistinctKeys raw)
        → fields_of D s app ≡ fs
        → import_loop D size show fresh now app user i rows s ≡ ok r
        → Counted rows s fs i r
    unfolding import_loop
    loop_counts fs i [] s distinct same h =
        subst (λ r. Counted [] s fs i r) (ok_inj h)
          (record {
            made = [];
            each = at_end;
            kept_rows = sym (List.append-nil s.records);
            count = refl;
          })
    loop_counts fs i (raw ∷ rows) s distinct same h =
        elim (Bool-cases (lacks_required D fs (cells D fs raw))) [
          | inl lacks ↦
              let (r, rest, e) =
                bind_ok (import_loop D size show fresh now app user (i + 1) rows s) _
                  (rw (same, lacks) at h) in
              subst (λ r. Counted (raw ∷ rows) s fs i r) (ok_inj e)
                (skip_row raw rows s fs i r (distinct raw (Memᴰ.head refl)) lacks
                  (loop_counts fs (i + 1) rows s (λ q m. distinct q (Memᴰ.tail m)) same rest))
          | inr has_all ↦
              let (s', made, more) =
                bind_ok (create D size show (fresh i) now app (cells D fs raw) user false s) _
                  (rw (same, has_all) at h) in
              let (r, rest, e) =
                bind_ok (import_loop D size show fresh now app user (i + 1) rows s') _ more in
              let (row, grown, same', from) =
                created_row fs i raw s (distinct raw (Memᴰ.head refl)) same made in
              subst (λ r. Counted (raw ∷ rows) s fs i r) (ok_inj e)
                (take_one raw rows s s' fs i r row (distinct raw (Memᴰ.head refl)) has_all grown
                  from
                  (loop_counts fs (i + 1) rows s' (λ q m. distinct q (Memᴰ.tail m)) same' rest))
        ]

    -- Where no row has a key twice: an import that returns has at most 10,000 rows. It reports the number, from 1, of each row that lacks a
    -- required field, and of no other; of each other row it makes a record of the app, by the user who imports, in the order of
    -- the rows and behind the records that were there, which stay. The record has the decoded cells of its row under
    -- the codes of the fields, but for automatic numbers, calculated fields and subtables, which computeFields may
    -- set. The count that is answered is the number of the records made.
    pub import_rows_counts :
        (rows : List (Values D)) (s : Store D) {r : Imported D}
        → ((raw : Values D) → Memᴰ raw rows → HasDistinctKeys raw)
        → import_rows D size show fresh now app user rows s ≡ ok r
        → (length rows ≤ max_import_rows) × Counted rows s (fields_of D s app) 0 r
    unfolding import_rows
    import_rows_counts rows s distinct h =
        let (u, few, rest) =
          bind_ok (require (leb (length rows) max_import_rows) bad_request) _ h in
        (
          leb→le _ _ (require_ok _ _ few),
          loop_counts (fields_of D s app) 0 rows s distinct refl rest,
        )

  -- A listing that is given a set of creators shows only records of the app that one of them made.
  pub find_all-IsScoped :
      (includes : Text → Text → Bool) (lower : Text → Text) (app : Text)
      (filters : List (Text × Text)) (search : Option Text) (creators : List Text)
      (scope : Option (Text × List Text)) (s : Store D) (r : Row D)
      → Memᴰ r (find_all D includes lower app filters search (some creators) scope s)
      → Memᴰ r s.records × (r.app_id ≡ app) × (has creators r.created_by ≡ true)
  unfolding find_all
  find_all-IsScoped includes lower app filters search creators scope s r m =
      let (m1, h1) = of_filter _ _ m in
      let (m2, h2) = of_filter _ _ m1 in
      let (m3, h3) = of_filter _ _ m2 in
      let (m4, h4) = of_filter _ s.records m3 in
      (m4, (text_eq_iff r.app_id app).0 (ground arith), ground arith)
