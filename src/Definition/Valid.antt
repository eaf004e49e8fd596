-- ===== src/Definition/Valid.antt =====
-- What every sanitized definition satisfies.
use mathlib.Core.List.Memᴰ
use nocode_app.Base.{
  subst, some_inj, ⊎_elim, ℕ, suc, ◌+◌, ◌≤◌, Text, codes, text_eq, text_eq_iff, has, NoDup,
  NoDup-concat, true, false, Option, none, some, List, [], ◌∷◌, ◌++◌, length, length-append, ◌≡◌,
  ◌≢◌, ◌⊎◌, inl, inr, refl, sym, ap, arith, Bool-cases, Memᴰ,
}
use nocode_app.Json.{Json, Members, get, prop}
use nocode_app.Definition.Shape.{
  Host, DefinitionField, choice_types, field_types, type_aliases, is_filled,
}
use nocode_app.Definition.{
  as_string, texts, field_of, choose, with_choices, ai_settings, normalize_type, known, alias_of,
  type_or_text, add_field, add_fields, used_codes, own_settings,
}
use nocode_app.Records.Input.Exact.{get-set}
use nocode_app.Definition.Codes.{is_identifier, all_words, slug_code_total}

module _ (H : Host) where
  -- Some texts, at least one, are the options of a field.
  pub record Offers (settings : Members H.double.Num) : Type 0 where
    pub first : Text
    pub others : List Text
    pub offered : get settings (codes "options") ≡ texts H (first ∷ others)

  pub record IsField (f : DefinitionField H.double.Num) : Type 0 where
    pub coded : is_identifier f.field_code ≡ true
    pub labelled : is_filled f.label ≡ true
    pub typed : has field_types f.field_type ≡ true
    pub choices : (has choice_types f.field_type ≡ false) ⊎ Offers f.settings

  pub record AreFields (fields : List (DefinitionField H.double.Num)) : Type 0 where
    pub once : NoDup (used_codes H fields)
    pub each : (f : DefinitionField H.double.Num) → Memᴰ f fields → IsField f

  known-typed : (o : Option Text) {t : Text} → known H o ≡ some t → has field_types t ≡ true
  known-typed none h = cc
  known-typed (some u) h = elim (Bool-cases (has field_types u)) [
    | inl e ↦ subst (λ x. has field_types x ≡ true) (some_inj (rw e at h)) e
    | inr e ↦ cc (rw e at h)
  ]

  type_or_text-typed :
      (o : Option Text)
      → ((t : Text) → o ≡ some t → has field_types t ≡ true)
      → has field_types (type_or_text H o) ≡ true
  unfolding has text_eq
  type_or_text-typed none h = refl
  type_or_text-typed (some t) h = h t refl

  type_typed :
      (raw : Json H.double.Num) → has field_types (type_or_text H (normalize_type H raw)) ≡ true
  unfolding normalize_type
  type_typed raw =
      let t = H.lower (as_string H 40 raw) in
      elim (Bool-cases (has field_types t)) [
        | inl e ↦ rw e e
        | inr e ↦
            rw e (type_or_text-typed (known H (alias_of H type_aliases t)) (λ u h. known-typed _ h))
      ]

  ai_no_choice : has choice_types (codes "ai") ≢ true
  unfolding has text_eq
  ai_no_choice h = cc

  not_ai : (type : Text) → has choice_types type ≡ true → text_eq type (codes "ai") ≡ false
  not_ai type h = elim (Bool-cases (text_eq type (codes "ai"))) [
    | inr e ↦ e
    | inl e ↦ absurd (
        ai_no_choice
          (subst (λ x. has choice_types x ≡ true) ((text_eq_iff type (codes "ai")).0 e) h))
  ]

  -- The choices of a type and its settings: none are needed, or there are some.
  abbrev Chosen : Text × Members H.double.Num → Type 0
  Chosen chosen =
      (has field_types chosen.0 ≡ true)
      × ((has choice_types chosen.0 ≡ false)
          ⊎ (Offers chosen.1 × (text_eq chosen.0 (codes "ai") ≡ false)))

  with_choices-Chosen :
      (type : Text) (settings : Members H.double.Num) (options : List Text)
      → has field_types type ≡ true
      → has choice_types type ≡ true
      → Chosen (with_choices H type settings options)
  unfolding has text_eq
  with_choices-Chosen type settings [] h1 h2 = (refl, inl refl)
  with_choices-Chosen type settings (o ∷ os) h1 h2 = (
    h1,
    inr (
      record {
        first = o;
        others = os;
        offered = get-set settings (codes "options") (codes "options") (texts H (o ∷ os));
      },
      not_ai type h2,
    ),
  )

  choose-Chosen :
      (type : Text) (settings : Members H.double.Num)
      → has field_types type ≡ true
      → Chosen (choose H type settings)
  unfolding choose
  choose-Chosen type settings h = elim (Bool-cases (has choice_types type)) [
    | inl e ↦ rw e (with_choices-Chosen type settings _ h e)
    | inr e ↦ rw e (h, inl e)
  ]

  field_of-IsField :
      (f : Json H.double.Num) (code : Text)
      → is_identifier code ≡ true
      → is_filled (as_string H 200 (prop f (codes "label"))) ≡ true
      → IsField (field_of H f code)
  unfolding ai_settings
  field_of-IsField f code h1 h2 =
      let (typed, choices) =
        choose-Chosen (type_or_text H (normalize_type H (prop f (codes "fieldType"))))
          (own_settings H (prop f (codes "settings"))) (type_typed (prop f (codes "fieldType"))) in
      record {
        coded = h1;
        labelled = h2;
        typed = typed;
        choices = ⊎_elim inl (λ both. rw (both.1) (inr (both.0))) choices;
      }

  used_codes-concat :
      (fields : List (DefinitionField H.double.Num)) (f : DefinitionField H.double.Num)
      → used_codes H (fields ++ f ∷ []) ≡ used_codes H fields ++ f.field_code ∷ []
  used_codes-concat [] f = refl
  used_codes-concat (g ∷ gs) f = ap (λ cs. g.field_code ∷ cs) (used_codes-concat gs f)

  AreFields-concat :
      (fields : List (DefinitionField H.double.Num)) (f : DefinitionField H.double.Num)
      → AreFields fields
      → IsField f
      → has (used_codes H fields) f.field_code ≡ false
      → AreFields (fields ++ f ∷ [])
  AreFields-concat fields f a is_field fresh = record {
    once =
        rw (used_codes-concat fields f)
          (NoDup-concat (used_codes H fields) f.field_code fresh a.once);
    each = λ g m.
        ⊎_elim (a.each g) (λ l. subst IsField (sym (Memᴰ.eq_of_singleton l)) is_field)
          (Memᴰ.append_cases fields m);
  }

  module _ (distinct : (m n : ℕ) → H.show m ≡ H.show n → m ≡ n)
      (digits : (n : ℕ) → all_words (H.show n) ≡ true) where
    add_field-AreFields :
        (index : ℕ) (f : Json H.double.Num) (fields : List (DefinitionField H.double.Num))
        → AreFields fields
        → (next : List (DefinitionField H.double.Num)) × (add_field H index f fields ≡ some next)
          × AreFields next
          × (length next ≤ length fields + 1)
    unfolding add_field
    add_field-AreFields index f fields a =
        elim (Bool-cases (is_filled (as_string H 200 (prop f (codes "label"))))) [
          | inr e ↦ (fields, rw e refl, a, omega arith)
          | inl e ↦
              let (code, found, fresh, named) =
                slug_code_total H distinct digits (prop f (codes "fieldCode")) index
                  (used_codes H fields) in
              (
                fields ++ field_of H f code ∷ [],
                rw (e, found) refl,
                AreFields-concat fields (field_of H f code) a (field_of-IsField f code named e)
                    fresh,
                omega (arith, length-append fields (field_of H f code ∷ [])),
              )
        ]

    pub add_fields-AreFields :
        (index : ℕ) (rest : List (Json H.double.Num)) (fields : List (DefinitionField H.double.Num))
        → AreFields fields
        → (all : List (DefinitionField H.double.Num)) × (add_fields H index rest fields ≡ some all)
          × AreFields all
          × (length all ≤ length fields + length rest)
    unfolding add_fields
    add_fields-AreFields index [] fields a = (fields, refl, a, omega arith)
    add_fields-AreFields index (f ∷ rest) fields a =
        let (next, e, b, grew) = add_field-AreFields index f fields a in
        let (all, e', c, grown) = add_fields-AreFields (suc index) rest next b in
        (all, rw (add_fields, e) e', c, omega arith)
