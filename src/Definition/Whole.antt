-- ===== src/Definition/Whole.antt =====
-- sanitizeDefinition as a whole: whatever it is given, it returns a definition that hangs together.
use mathlib.Core.List.Memᴰ
use mathlib.Core.Option
use nocode_app.Base.{
  ℕ, zero, suc, ◌≤◌, Text, codes, text_eq, has, true, ◌&&◌, Option, none, some, List, [], ◌∷◌,
  find-some, take, length, ◌≡◌, ◌⊎◌, inl, inr, refl, sym, subst, ⊎_elim, arith, Bool-cases,
  Option-cases, Memᴰ, some_inj,
}
use nocode_app.Base.Keys.{has-map_of_mem}
use nocode_app.Json.{Json, prop}
use nocode_app.Definition.Shape.{
  Host, DefinitionField, DefinitionAiAction, AppDefinition, max_fields, is_filled,
}
use nocode_app.Definition.{used_codes, by_code, elements}
use nocode_app.Definition.Codes.{all_words}
use nocode_app.Definition.Valid.{AreFields, add_fields-AreFields}
use nocode_app.Definition.Process.{ProcessFits, processed-Fits}
use nocode_app.Definition.Sanitize.{
  wants_field, string_at, target_of, ai_action, ai_actions, some_actions, assembled,
  sanitize_definition,
}

module _ (H : Host) where
  -- An action of the language model that writes its answer writes it to a field of the app.
  pub record Acts (fields : List (DefinitionField H.double.Num)) (a : DefinitionAiAction)
      : Type 0 where
    pub has_name : is_filled a.name ≡ true
    pub has_prompt : is_filled a.prompt ≡ true
    pub writes :
        ((a.target_field ≡ none) × (a.output ≡ codes "show"))
        ⊎ ((code : Text) × (a.target_field ≡ some code)
            × (a.output ≡ codes "field")
            × (has (used_codes H fields) code ≡ true))

  abbrev pub AiFits :
      List (DefinitionField H.double.Num) → Option (List DefinitionAiAction) → Type 0
  AiFits fields none = Unit
  AiFits fields (some actions) = (a : DefinitionAiAction) → Memᴰ a actions → Acts fields a

  pub record IsValid (d : AppDefinition H.double.Num) : Type 0 where
    pub few : length d.fields ≤ max_fields
    pub well_formed : AreFields H d.fields
    pub process : ProcessFits H d.fields d.process_config
    pub ai : AiFits d.fields d.ai_config

  map_known :
      (fields : List (DefinitionField H.double.Num)) (code : Text) {c : Text}
      → Option.map (λ f. f.field_code) (by_code H fields code) ≡ some c
      → has (used_codes H fields) c ≡ true
  unfolding by_code
  map_known fields code h = elim (Option-cases (by_code H fields code)) [
    | inl e ↦ cc (rw e at h)
    | inr (f, e) ↦
        let (inside, _) = find-some (λ g. text_eq g.field_code code) fields e in
        subst (λ x. has (used_codes H fields) x ≡ true) (some_inj (rw e at h))
          (has-map_of_mem (λ g. g.field_code) fields f inside)
  ]

  target_known :
      (fields : List (DefinitionField H.double.Num)) (v : Json H.double.Num) {c : Text}
      → target_of H fields v ≡ some c
      → has (used_codes H fields) c ≡ true
  target_known fields v h = elim (Bool-cases (wants_field H (prop v (codes "output")))) [
    | inl e ↦ map_known fields _ (rw e at h)
    | inr e ↦ cc (rw e at h)
  ]

  target-Acts :
      (i : ℕ) (v : Json H.double.Num) (fields : List (DefinitionField H.double.Num))
      → is_filled (string_at H 100 v (codes "name")) ≡ true
      → is_filled (string_at H 8000 v (codes "prompt")) ≡ true
      → Acts fields (ai_action H i v fields)
  target-Acts i v fields h1 h2 = record {
    has_name = h1;
    has_prompt = h2;
    writes = elim (Option-cases (target_of H fields v)) [
      | inl e ↦ inl (e, rw e refl)
      | inr (c, e) ↦ inr (c, e, rw e refl, target_known fields v e)
    ];
  }

  ai_actions-Acts :
      (i : ℕ) (vs : List (Json H.double.Num)) (fields : List (DefinitionField H.double.Num))
      (a : DefinitionAiAction)
      → Memᴰ a (ai_actions H i vs fields)
      → Acts fields a
  unfolding ai_actions
  ai_actions-Acts i [] fields a m = absurd (Memᴰ.not-nil m)
  ai_actions-Acts i (v ∷ vs) fields a m =
      elim (Bool-cases (
        is_filled (string_at H 100 v (codes "name"))
        && is_filled (string_at H 8000 v (codes "prompt")))) [
          | inr e ↦ ai_actions-Acts (suc i) vs fields a (rw e at m)
          | inl e ↦
              ⊎_elim
                (λ same.
                  subst (Acts fields) (sym same)
                    (target-Acts i v fields (ground arith) (ground arith)))
                (λ t. ai_actions-Acts (suc i) vs fields a t) (Memᴰ.cases_cons (rw e at m))
        ]

  some_actions-AiFits :
      (fields : List (DefinitionField H.double.Num)) (actions : List DefinitionAiAction)
      → ((a : DefinitionAiAction) → Memᴰ a actions → Acts fields a)
      → AiFits fields (some_actions H actions)
  some_actions-AiFits fields [] h = tt
  some_actions-AiFits fields (a ∷ rest) h = h

  take-le : {A : Type 0} (n : ℕ) (xs : List A) → length (take n xs) ≤ n
  take-le zero xs = omega arith
  take-le (suc n) [] = omega arith
  take-le (suc n) (x ∷ xs) = omega (arith, take-le n xs)

  -- Where the texts of numbers differ and hold only digits or letters: sanitizeDefinition ends for every
  -- input and returns a definition of at most 40 fields whose codes are identifiers and differ, whose
  -- types are known and whose choices are not empty; its process stands on one of the fields, with the
  -- statuses for options and actions between them, and its actions write to fields that are there.
  pub sanitize_definition-IsValid :
      (raw : Json H.double.Num)
      → ((m n : ℕ) → H.show m ≡ H.show n → m ≡ n)
      → ((n : ℕ) → all_words (H.show n) ≡ true)
      → (d : AppDefinition H.double.Num) × (sanitize_definition H raw ≡ some d) × IsValid d
  unfolding sanitize_definition
  sanitize_definition-IsValid raw distinct digits =
      let listed = take max_fields (elements H (prop raw (codes "fields"))) in
      let (all, e, a, bound) =
        add_fields-AreFields H distinct digits 0 listed []
          (record { once = tt; each = λ f m. absurd (Memᴰ.not-nil m) }) in
      let fits = processed-Fits H (prop raw (codes "processConfig")) all a in
      (
        assembled H raw all,
        rw e refl,
        record {
          few = omega (
            arith,
            fits.as_many,
            bound,
            take-le max_fields (elements H (prop raw (codes "fields"))),
          );
          well_formed = fits.are_fields;
          process = fits.process;
          ai = some_actions-AiFits _ _ (ai_actions-Acts 0 _ _);
        },
      )
