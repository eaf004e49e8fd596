-- ===== src/Definition.antt =====
-- backend/src/common/app-definition.util.ts: an app definition that a language model or a client wrote, put
-- into a form that the other parts can rely on. What it throws away is not an error.
pub mod Shape
pub mod Codes
pub mod Valid
pub mod Sanitize
pub mod Process
pub mod Whole
use nocode_app.Base.{
  ℕ, zero, suc, ◌+◌, Text, codes, text_eq, has, present, Bool, true, false, not, ◌&&◌, ◌||◌, Option,
  none, some, List, [], ◌∷◌, ◌++◌, map, filter, find, length, take, if◌then◌else◌,
}
use nocode_app.Json.{
  Json, undefined, null, bool, number, string, array, object, Items, Members, end, member, get,
  items, to_items, prop,
}
use nocode_app.Records.Input.{set}
use nocode_app.Formula.Tokens.{is_letter, is_word}
use nocode_app.Definition.Shape.{
  Host, DefinitionField, choice_types, field_types, type_aliases, is_filled,
}

module _ (H : Host) where
  -- asString
  unfoldable pub as_string : ℕ → Json H.double.Num → Text
  as_string limit undefined = []
  as_string limit null = []
  as_string limit v = H.trim (take limit (H.double.string_of v))

  unfoldable pub as_string_array : Json H.double.Num → List Text
  as_string_array (array vs) = filter is_filled (map (as_string 200) (items vs))
  as_string_array v = []

  -- `!!v`
  abbrev pub is_truthy : Json H.double.Num → Bool
  is_truthy undefined = false
  is_truthy null = false
  is_truthy (bool b) = b
  is_truthy (number n) = not (H.double.eq n (H.double.of_nat 0) || H.double.is_nan n)
  is_truthy (string s) = is_filled s
  is_truthy _ = true

  abbrev pub led : ℕ → Text → Text
  led index [] = codes "field_" ++ H.show (suc index)
  led index (c ∷ cs) = if is_letter c then c ∷ cs else codes "f_" ++ c ∷ cs

  -- The code that slugCode tries first.
  unfoldable pub code_base : Json H.double.Num → ℕ → Text
  code_base raw index = led index (filter is_word (as_string 100 raw))

  abbrev pub numbered : Text → ℕ → Text
  numbered s n = s ++ (codes "_" ++ H.show n)

  -- The loop of slugCode on fuel: `code` is tried, and the number of the next one is `n`.
  unfoldable pub free_code : ℕ → List Text → Text → Text → ℕ → Option Text
  free_code zero used s code n = none
  free_code (suc fuel) used s code n =
      let rest = free_code fuel used s (numbered s n) (suc n) in
      if has used code then rest else some code

  unfoldable pub slug_code : Json H.double.Num → ℕ → List Text → Option Text
  slug_code raw index used =
      let s = code_base raw index in free_code (suc (suc (length used))) used s s 2

  abbrev pub alias_of : List (Text × Text) → Text → Option Text
  alias_of [] t = none
  alias_of (a ∷ rest) t = if text_eq a.0 t then some a.1 else alias_of rest t

  abbrev pub known : Option Text → Option Text
  known none = none
  known (some t) = if has field_types t then some t else none

  unfoldable pub normalize_type : Json H.double.Num → Option Text
  normalize_type raw =
      let t = H.lower (as_string 40 raw) in
      if has field_types t then some t else known (alias_of type_aliases t)

  abbrev pub type_or_text : Option Text → Text
  type_or_text none = codes "text"
  type_or_text (some t) = t

  abbrev pub indexed : ℕ → List (Json H.double.Num) → Members H.double.Num
  indexed i [] = end
  indexed i (v ∷ vs) = member (H.show i) v (indexed (suc i) vs)

  -- `{ ...f.settings }` where `typeof` says object; a list gives its indices
  abbrev pub own_settings : Json H.double.Num → Members H.double.Num
  own_settings (object o) = o
  own_settings (array vs) = indexed 0 (items vs)
  own_settings v = end

  abbrev pub texts : List Text → Json H.double.Num
  texts ts = array (to_items (map string ts))

  -- A field of choices without a choice becomes one of text.
  abbrev pub with_choices : Text → Members H.double.Num → List Text → Text × Members H.double.Num
  with_choices type settings [] = (codes "text", settings)
  with_choices type settings (o ∷ os) = (type, set settings (codes "options") (texts (o ∷ os)))

  unfoldable pub choose : Text → Members H.double.Num → Text × Members H.double.Num
  choose type settings =
      if has choice_types type
      then with_choices type settings (as_string_array (get settings (codes "options")))
      else (type, settings)

  -- `if (settings.maxTokens !== undefined) settings.maxTokens = Number(settings.maxTokens) || undefined`
  abbrev pub number_or_undefined : Json H.double.Num → Json H.double.Num
  number_or_undefined v =
      let n = H.double.number_of v in
      if H.double.eq n (H.double.of_nat 0) || H.double.is_nan n then undefined else number n

  abbrev pub with_max_tokens : Members H.double.Num → Json H.double.Num → Members H.double.Num
  with_max_tokens settings undefined = settings
  with_max_tokens settings v = set settings (codes "maxTokens") (number_or_undefined v)

  unfoldable pub ai_settings : Text → Members H.double.Num → Members H.double.Num
  ai_settings type settings =
      if text_eq type (codes "ai")
      then (let prompted =
            set settings (codes "prompt")
              (string (as_string 8000 (get settings (codes "prompt")))) in
          with_max_tokens prompted (get prompted (codes "maxTokens")))
      else settings

  abbrev pub field_of : Json H.double.Num → Text → DefinitionField H.double.Num
  field_of f code =
      let (type, settings) =
        choose (type_or_text (normalize_type (prop f (codes "fieldType"))))
          (own_settings (prop f (codes "settings"))) in
      record {
        field_code = code;
        field_type = type;
        label = as_string 200 (prop f (codes "label"));
        required = is_truthy (prop f (codes "required"));
        settings = ai_settings type settings;
      }

  abbrev pub used_codes : List (DefinitionField H.double.Num) → List Text
  used_codes fields = map (λ f. f.field_code) fields

  -- One turn of the loop over the fields; `used` holds the codes of the fields so far.
  unfoldable pub add_field :
      ℕ
      → Json H.double.Num
      → List (DefinitionField H.double.Num)
      → Option (List (DefinitionField H.double.Num))
  add_field index f fields =
      if is_filled (as_string 200 (prop f (codes "label")))
      then elim (slug_code (prop f (codes "fieldCode")) index (used_codes fields)) [
        | none ↦ none
        | some code ↦ some (fields ++ field_of f code ∷ [])
      ]
      else some fields

  unfoldable pub add_fields :
      ℕ
      → List (Json H.double.Num)
      → List (DefinitionField H.double.Num)
      → Option (List (DefinitionField H.double.Num))
  add_fields index [] fields = some fields
  add_fields index (f ∷ rest) fields = elim (add_field index f fields) [
    | none ↦ none
    | some next ↦ add_fields (suc index) rest next
  ]

  abbrev pub elements : Json H.double.Num → List (Json H.double.Num)
  elements (array vs) = items vs
  elements v = []

  abbrev pub scope_or_all : Json H.double.Num → Text
  scope_or_all (string s) =
      if text_eq s (codes "owner") || text_eq s (codes "org") then s else codes "all"
  scope_or_all v = codes "all"

  -- `byCode.get(code)`: the map holds the fields of the list.
  unfoldable pub by_code :
      List (DefinitionField H.double.Num) → Text → Option (DefinitionField H.double.Num)
  by_code fields code = find (λ f. text_eq f.field_code code) fields
