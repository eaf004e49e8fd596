-- ===== src/Records/Import/Cells.antt =====
-- The cells that an import reads of a row.
use nocode_app.Base.{
  any, text_eq, ◌||◌, ◌&&◌, false, if◌then◌else◌, Text, text_eq_iff, List, [], ◌∷◌, map, ◌≡◌, refl,
  subst, ◌∙◌, sym, ap, arith, Bool-cases, inl, inr, has,
}
use nocode_app.Formula.Double.{Double}
use nocode_app.Base.Keys.{has-map}
use nocode_app.Records.Service.Patch.{HasDistinctKeys}
use nocode_app.Records.Csv.{decode_csv_cell}
use nocode_app.Json.{Json, member, undefined, end, get}
use nocode_app.Records.Input.{has_own, set}
use nocode_app.Records.Input.Exact.{get-set, kept}
use nocode_app.Records.Computed.{Field}
use nocode_app.Records.Service.{Values}
use nocode_app.Records.Import.{take_row}

module _ (D : Double) where
  -- What an import reads of a row under a key: its decoded cell where the key is the code of a field.
  abbrev pub imported_value : List (Field D) → Values D → Text → Json D.Num
  imported_value fs raw key =
      if any (λ f. text_eq f.like.field_code key) fs && has_own raw key
      then decode_csv_cell (get raw key)
      else undefined

  get-take_row :
      (valid : List Text) (raw taken : Values D) (key : Text)
      → HasDistinctKeys raw
      → get (take_row D valid raw taken) key ≡ (
          if has valid key && has_own raw key then decode_csv_cell (get raw key) else get taken key)
  unfolding take_row get has_own
  get-take_row valid end taken key h = ground arith
  get-take_row valid (member k v raw) taken key h =
      let taken' = if has valid k then set taken k (decode_csv_cell v) else taken in
      elim (Bool-cases (text_eq k key)) [
        | inl same ↦
            let e : k ≡ key = (text_eq_iff k key).0 same in
            let once : has_own raw key ≡ false = subst (λ x. has_own raw x ≡ false) e (h.0) in
            let valid_too : has valid k ≡ has valid key = ap (has valid) e in
            get-take_row valid raw taken' key (h.1)
            ∙ rw (same, once)
                (elim (Bool-cases (has valid key)) [
                  | inl v_in ↦
                      rw (valid_too, v_in) (rw (get-set taken k key (decode_csv_cell v), same) refl)
                  | inr v_out ↦ rw (valid_too, v_out) refl
                ])
        | inr other ↦
            get-take_row valid raw taken' key (h.1)
            ∙ rw other (elim (Bool-cases (has valid k)) [
              | inl v_in ↦ rw (v_in, get-set taken k key (decode_csv_cell v), other) refl
              | inr v_out ↦ rw v_out refl
            ])
      ]

  get_absent : (o : Values D) (key : Text) → has_own o key ≡ false → get o key ≡ undefined
  unfolding get has_own
  get_absent end key h = refl
  get_absent (member k v o) key h = ground (arith, get_absent o key)

  any_likes :
      (fs : List (Field D)) (key : Text)
      → any (λ f. text_eq f.field_code key) (map (λ f. f.like) fs)
        ≡ any (λ f. text_eq f.like.field_code key) fs
  unfolding any
  any_likes [] key = refl
  any_likes (f ∷ fs) key = ap (λ b. text_eq f.like.field_code key || b) (any_likes fs key)

  -- The decoded cells of a row under the codes of the fields.
  abbrev pub cells : List (Field D) → Values D → Values D
  cells fs raw = take_row D (map (λ f. f.like.field_code) fs) raw end

  pub get-cells :
      (fs : List (Field D)) (raw : Values D) (key : Text)
      → HasDistinctKeys raw
      → get (cells fs raw) key ≡ imported_value fs raw key
  unfolding get
  get-cells fs raw key h =
      get-take_row (map (λ f. f.like.field_code) fs) raw end key h
      ∙ ap (λ b. if b && has_own raw key then decode_csv_cell (get raw key) else undefined)
          (has-map (λ (f : Field D). f.like.field_code) fs key)

  pub kept_cells :
      (fs : List (Field D)) (raw : Values D) (key : Text)
      → HasDistinctKeys raw
      → (if kept (map (λ f. f.like) fs) (cells fs raw) key
          then get (cells fs raw) key
          else undefined)
        ≡ imported_value fs raw key
  kept_cells fs raw key h =
      let same = get-cells fs raw key h in
      rw (any_likes fs key) (elim (Bool-cases (any (λ f. text_eq f.like.field_code key) fs)) [
        | inl is_code ↦ elim (Bool-cases (has_own (cells fs raw) key)) [
          | inl there ↦ rw (is_code, there) (same ∙ rw is_code refl)
          | inr gone ↦
              rw (is_code, gone) (sym (get_absent (cells fs raw) key gone) ∙ same ∙ rw is_code refl)
        ]
        | inr no_code ↦ rw no_code refl
      ])
