-- ===== src/Definition/Process.antt =====
-- The process of a sanitized definition: the field it stands on, and what it leaves of the fields.
use mathlib.Core.List.Memᴰ
use nocode_app.Base.{
  suc, Text, codes, text_eq, text_eq_iff, has, NoDup, ◌∙◌, true, Option, none, some, List, [], ◌∷◌,
  find-some, length, ◌≡◌, ◌⊎◌, inl, inr, refl, sym, ap, subst, ⊎_elim, arith, Bool-cases, Memᴰ,
  of_filter,
}
use nocode_app.Json.{Json, get}
use nocode_app.Records.Input.{set}
use nocode_app.Records.Input.Exact.{get-set}
use nocode_app.Definition.Shape.{
  Host, DefinitionField, Transition, DefinitionProcess, status_types, is_filled,
}
use nocode_app.Definition.{texts, used_codes, by_code}
use nocode_app.Definition.Valid.{IsField, AreFields}
use nocode_app.Definition.Sanitize.{
  put_options, connects, with_process, process_at, processed, Processed,
}

module _ (H : Host) where
  abbrev pub offering : DefinitionField H.double.Num → List Text → DefinitionField H.double.Num
  offering f statuses = record f { settings = set f.settings (codes "options") (texts H statuses) }

  -- A process stands on a field of the app whose options are its statuses, and its actions lead from one
  -- status to another.
  pub record RunsOn (fields : List (DefinitionField H.double.Num)) (p : DefinitionProcess)
      : Type 0 where
    pub field : DefinitionField H.double.Num
    pub present : Memᴰ field fields
    pub named : field.field_code ≡ p.status_field
    pub typed : has status_types field.field_type ≡ true
    pub offered : get field.settings (codes "options") ≡ texts H p.statuses
    pub connected :
        (a : Transition)
        → Memᴰ a p.actions
        → (has p.statuses a.from_status ≡ true)
          × (has p.statuses a.to_status ≡ true)
          × (is_filled a.label ≡ true)

  abbrev pub ProcessFits : List (DefinitionField H.double.Num) → Option DefinitionProcess → Type 0
  ProcessFits fields none = Unit
  ProcessFits fields (some p) = RunsOn fields p

  used_codes-put :
      (code : Text) (ss : List Text) (fields : List (DefinitionField H.double.Num))
      → used_codes H (put_options H code ss fields) ≡ used_codes H fields
  used_codes-put code ss [] = refl
  used_codes-put code ss (f ∷ fs) = elim (Bool-cases (text_eq f.field_code code)) [
    | inl e ↦ rw (e, used_codes-put code ss fs) refl
    | inr e ↦ rw (e, used_codes-put code ss fs) refl
  ]

  length-put :
      (code : Text) (ss : List Text) (fields : List (DefinitionField H.double.Num))
      → length (put_options H code ss fields) ≡ length fields
  length-put code ss [] = refl
  length-put code ss (f ∷ fs) = ap suc (length-put code ss fs)

  put_from :
      (code : Text) (ss : List Text) (fields : List (DefinitionField H.double.Num))
      (f : DefinitionField H.double.Num)
      → Memᴰ f (put_options H code ss fields)
      → (g : DefinitionField H.double.Num) × Memᴰ g fields × ((f ≡ g) ⊎ (f ≡ offering g ss))
  put_from code ss [] f m = absurd (Memᴰ.not-nil m)
  put_from code ss (g ∷ gs) f m = elim (Memᴰ.cases_cons m) [
    | inl e ↦ elim (Bool-cases (text_eq g.field_code code)) [
      | inl same ↦ (g, Memᴰ.head refl, inr (rw same at e))
      | inr other ↦ (g, Memᴰ.head refl, inl (rw other at e))
    ]
    | inr t ↦ let (x, inside, from) = put_from code ss gs f t in (x, Memᴰ.tail inside, from)
  ]

  put_to :
      (code : Text) (ss : List Text) (fields : List (DefinitionField H.double.Num))
      (f : DefinitionField H.double.Num)
      → Memᴰ f fields
      → f.field_code ≡ code
      → Memᴰ (offering f ss) (put_options H code ss fields)
  put_to code ss [] f m e = absurd (Memᴰ.not-nil m)
  put_to code ss (g ∷ gs) f m e = elim (Memᴰ.cases_cons m) [
    | inl same ↦
        let is_it : text_eq g.field_code code ≡ true =
          (text_eq_iff g.field_code code).1 (sym (ap (λ x. x.field_code) same) ∙ e) in
        Memᴰ.head (rw is_it (ap (λ x. offering x ss) same))
    | inr t ↦ Memᴰ.tail (put_to code ss gs f t e)
  ]

  offering-IsField :
      (f : DefinitionField H.double.Num) (s : Text) (ss : List Text)
      → IsField H f
      → IsField H (offering f (s ∷ ss))
  unfolding text_eq
  offering-IsField f s ss i = record {
    coded = i.coded;
    labelled = i.labelled;
    typed = i.typed;
    choices = inr (record {
      first = s;
      others = ss;
      offered = get-set f.settings (codes "options") (codes "options") (texts H (s ∷ ss));
    });
  }

  put-AreFields :
      (code s : Text) (ss : List Text) (fields : List (DefinitionField H.double.Num))
      → AreFields H fields
      → AreFields H (put_options H code (s ∷ ss) fields)
  put-AreFields code s ss fields a = record {
    once = subst NoDup (sym (used_codes-put code (s ∷ ss) fields)) a.once;
    each = λ f m.
        let (g, inside, from) = put_from code (s ∷ ss) fields f m in
        ⊎_elim (λ same. subst (IsField H) (sym same) (a.each g inside))
          (λ same. subst (IsField H) (sym same) (offering-IsField g s ss (a.each g inside))) from;
  }

  connects-parts :
      (ss : List Text) (a : Transition)
      → connects H ss a ≡ true
      → (has ss a.from_status ≡ true) × (has ss a.to_status ≡ true) × (is_filled a.label ≡ true)
  connects-parts ss a h = (ground arith, ground arith, ground arith)

  -- What the process leaves of the fields.
  pub record Fits (before : List (DefinitionField H.double.Num)) (after : Processed H)
      : Type 0 where
    pub as_many : length after.0 ≡ length before
    pub same_codes : used_codes H after.0 ≡ used_codes H before
    pub are_fields : AreFields H after.0
    pub process : ProcessFits after.0 after.1

  untouched :
      (fields : List (DefinitionField H.double.Num))
      → AreFields H fields
      → Fits fields (fields, none)
  untouched fields a = record { as_many = refl; same_codes = refl; are_fields = a; process = tt }

  with_process-Fits :
      (pc : Json H.double.Num) (fields : List (DefinitionField H.double.Num))
      (f : DefinitionField H.double.Num) (ss : List Text)
      → AreFields H fields
      → Memᴰ f fields
      → has status_types f.field_type ≡ true
      → Fits fields (with_process H pc fields f ss)
  unfolding text_eq
  with_process-Fits pc fields f [] a m h = untouched fields a
  with_process-Fits pc fields f (s ∷ ss) a m h = record {
    as_many = length-put f.field_code (s ∷ ss) fields;
    same_codes = used_codes-put f.field_code (s ∷ ss) fields;
    are_fields = put-AreFields f.field_code s ss fields a;
    process = record {
      field = offering f (s ∷ ss);
      present = put_to f.field_code (s ∷ ss) fields f m refl;
      named = refl;
      typed = h;
      offered = get-set f.settings (codes "options") (codes "options") (texts H (s ∷ ss));
      connected = λ t t_in. connects-parts (s ∷ ss) t ((of_filter (connects H (s ∷ ss)) _ t_in).1);
    };
  }

  process_at-Fits :
      (pc : Json H.double.Num) (fields : List (DefinitionField H.double.Num))
      (o : Option (DefinitionField H.double.Num))
      → AreFields H fields
      → ((f : DefinitionField H.double.Num) → o ≡ some f → Memᴰ f fields)
      → Fits fields (process_at H pc fields o)
  process_at-Fits pc fields none a m = untouched fields a
  process_at-Fits pc fields (some f) a m = elim (Bool-cases (has status_types f.field_type)) [
    | inl e ↦ rw e (with_process-Fits pc fields f _ a (m f refl) e)
    | inr e ↦ rw e (untouched fields a)
  ]

  pub processed-Fits :
      (pc : Json H.double.Num) (fields : List (DefinitionField H.double.Num))
      → AreFields H fields
      → Fits fields (processed H pc fields)
  unfolding processed by_code
  processed-Fits pc fields a = process_at-Fits pc fields _ a (λ f h. (find-some _ fields h).0)
