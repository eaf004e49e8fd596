-- ===== src/Definition/Sanitize.antt =====
-- sanitizeDefinition of app-definition.util.ts: the process, the actions of the language model, and the whole.
use nocode_app.Base.{
  ℕ, suc, Text, codes, text_eq, has, Bool, true, false, ◌&&◌, Option, none, some, List, [], ◌∷◌,
  ◌++◌, map, filter, take, if◌then◌else◌,
}
use mathlib.Core.Option
use nocode_app.Json.{Json, string, array, get, prop}
use nocode_app.Records.Input.{set}
use nocode_app.Definition.Shape.{
  Host, DefinitionField, Transition, DefinitionProcess, DefinitionAiAction, AppDefinition,
  status_types, max_fields, is_filled, filled_or, filled_text,
}
use nocode_app.Definition.{
  as_string, as_string_array, texts, elements, scope_or_all, by_code, add_fields,
}

module _ (H : Host) where
  abbrev pub string_at : ℕ → Json H.double.Num → Text → Text
  string_at limit v key = as_string H limit (prop v key)

  -- `sf.settings.options = statuses`; the field is the one that the list holds.
  abbrev pub put_options :
      Text → List Text → List (DefinitionField H.double.Num) → List (DefinitionField H.double.Num)
  put_options code statuses [] = []
  put_options code statuses (f ∷ fs) =
      (if text_eq f.field_code code
        then record f { settings = set f.settings (codes "options") (texts H statuses) }
        else f)
      ∷ put_options code statuses fs

  abbrev pub transition : Json H.double.Num → Transition
  transition a = record {
    from_status = string_at 100 a (codes "from");
    to_status = string_at 100 a (codes "to");
    label = string_at 100 a (codes "label");
  }

  abbrev pub connects : List Text → Transition → Bool
  connects statuses a = has statuses a.from_status && has statuses a.to_status && is_filled a.label

  abbrev pub Processed : Type 0
  Processed = List (DefinitionField H.double.Num) × Option DefinitionProcess

  -- The process where there is a status, whose field takes the statuses for its options.
  abbrev pub with_process :
      Json H.double.Num
      → List (DefinitionField H.double.Num)
      → DefinitionField H.double.Num
      → List Text
      → Processed
  with_process pc fields f [] = (fields, none)
  with_process pc fields f (s ∷ ss) = (
    put_options f.field_code (s ∷ ss) fields,
    some (record {
      enabled = true;
      status_field = f.field_code;
      statuses = s ∷ ss;
      actions =
          filter (connects (s ∷ ss)) (map transition (elements H (prop pc (codes "actions"))));
    }),
  )

  -- `if (statuses.length === 0) statuses = asStringArray(sf.settings.options)`
  abbrev pub or_options : List Text → DefinitionField H.double.Num → List Text
  or_options [] f = as_string_array H (get f.settings (codes "options"))
  or_options (s ∷ ss) f = s ∷ ss

  abbrev pub process_at :
      Json H.double.Num
      → List (DefinitionField H.double.Num)
      → Option (DefinitionField H.double.Num)
      → Processed
  process_at pc fields none = (fields, none)
  process_at pc fields (some f) =
      if has status_types f.field_type
      then with_process pc fields f (or_options (as_string_array H (prop pc (codes "statuses"))) f)
      else (fields, none)

  unfoldable pub processed : Json H.double.Num → List (DefinitionField H.double.Num) → Processed
  processed pc fields =
      process_at pc fields (by_code H fields (string_at 100 pc (codes "statusField")))

  abbrev pub wants_field : Json H.double.Num → Bool
  wants_field (string s) = text_eq s (codes "field")
  wants_field v = false

  abbrev pub target_of : List (DefinitionField H.double.Num) → Json H.double.Num → Option Text
  target_of fields a =
      if wants_field (prop a (codes "output"))
      then Option.map (λ f. f.field_code) (by_code H fields (string_at 100 a (codes "targetField")))
      else none

  abbrev pub output_of : Option Text → Text
  output_of none = codes "show"
  output_of (some code) = codes "field"

  abbrev pub ai_action :
      ℕ → Json H.double.Num → List (DefinitionField H.double.Num) → DefinitionAiAction
  ai_action i a fields =
      let target = target_of fields a in
      record {
        id =
            filled_or (string_at 60 a (codes "id"))
              (codes "act_" ++ H.stamp ++ codes "_" ++ H.show i);
        name = string_at 100 a (codes "name");
        prompt = string_at 8000 a (codes "prompt");
        output = output_of target;
        target_field = target;
      }

  unfoldable pub ai_actions :
      ℕ → List (Json H.double.Num) → List (DefinitionField H.double.Num) → List DefinitionAiAction
  ai_actions i [] fields = []
  ai_actions i (a ∷ rest) fields =
      let kept = ai_actions (suc i) rest fields in
      if is_filled (string_at 100 a (codes "name")) && is_filled (string_at 8000 a (codes "prompt"))
      then ai_action i a fields ∷ kept
      else kept

  abbrev pub first_list : Json H.double.Num → Json H.double.Num → List (Json H.double.Num)
  first_list (array vs) other = elements H (array vs)
  first_list v other = elements H other

  abbrev pub some_actions : List DefinitionAiAction → Option (List DefinitionAiAction)
  some_actions [] = none
  some_actions (a ∷ rest) = some (a ∷ rest)

  abbrev pub assembled :
      Json H.double.Num → List (DefinitionField H.double.Num) → AppDefinition H.double.Num
  assembled r collected =
      let (fields, process) = processed (prop r (codes "processConfig")) collected in
      record {
        name = filled_text (string_at 200 r (codes "name"));
        description = filled_text (string_at 2000 r (codes "description"));
        record_view_scope = scope_or_all H (prop r (codes "recordViewScope"));
        record_edit_scope = scope_or_all H (prop r (codes "recordEditScope"));
        fields = fields;
        process_config = process;
        ai_config = some_actions (
            ai_actions 0
              (first_list (prop (prop r (codes "aiConfig")) (codes "actions"))
                (prop r (codes "aiActions")))
              fields);
      }

  -- sanitizeDefinition
  unfoldable pub sanitize_definition : Json H.double.Num → Option (AppDefinition H.double.Num)
  sanitize_definition raw =
      Option.map (assembled raw)
        (add_fields H 0 (take max_fields (elements H (prop raw (codes "fields")))) [])
