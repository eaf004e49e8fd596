-- ===== src/Definition/Shape.antt =====
-- The definition of an app as app-definition.util.ts returns it, and the lists of words it knows.
use nocode_app.Base.{ℕ, Text, codes, Bool, true, false, Option, none, some, List, [], ◌∷◌}
use nocode_app.Json.{Members}
use nocode_app.Formula.Double.{Double}

-- What the language gives: its numbers, `trim` and `toLowerCase` of a text, the text of a natural number
-- and that of the clock.
pub record Host : Type 1 where
  pub double : Double
  pub trim : Text → Text
  pub lower : Text → Text
  pub show : ℕ → Text
  pub stamp : Text

pub record DefinitionField (N : Type 0) : Type 0 where
  pub field_code : Text
  pub field_type : Text
  pub label : Text
  pub required : Bool
  pub settings : Members N

pub record Transition : Type 0 where
  pub from_status : Text
  pub to_status : Text
  pub label : Text

pub record DefinitionProcess : Type 0 where
  pub enabled : Bool
  pub status_field : Text
  pub statuses : List Text
  pub actions : List Transition

pub record DefinitionAiAction : Type 0 where
  pub id : Text
  pub name : Text
  pub prompt : Text
  pub output : Text
  pub target_field : Option Text

pub record AppDefinition (N : Type 0) : Type 0 where
  pub name : Option Text
  pub description : Option Text
  pub record_view_scope : Text
  pub record_edit_scope : Text
  pub fields : List (DefinitionField N)
  pub process_config : Option DefinitionProcess
  pub ai_config : Option (List DefinitionAiAction)

abbrev pub choice_types : List Text
choice_types = codes "select" ∷ codes "radio" ∷ codes "checkbox" ∷ codes "status" ∷ []

-- The types of field whose value can be the status of a process.
abbrev pub status_types : List Text
status_types = codes "status" ∷ codes "select" ∷ codes "radio" ∷ []

abbrev pub max_fields : ℕ
max_fields = 40

abbrev pub field_types : List Text
field_types =
    codes "text"
    ∷ codes "textarea"
    ∷ codes "number"
    ∷ codes "date"
    ∷ codes "datetime"
    ∷ codes "checkbox"
    ∷ codes "radio"
    ∷ codes "select"
    ∷ codes "user_select"
    ∷ codes "group_select"
    ∷ codes "file"
    ∷ codes "auto_number"
    ∷ codes "status"
    ∷ codes "calc"
    ∷ codes "reference"
    ∷ codes "subtable"
    ∷ codes "link"
    ∷ codes "email"
    ∷ codes "phone"
    ∷ codes "section"
    ∷ codes "location"
    ∷ codes "ai"
    ∷ []

abbrev pub type_aliases : List (Text × Text)
type_aliases =
    (codes "string", codes "text")
    ∷ (codes "multiline", codes "textarea")
    ∷ (codes "longtext", codes "textarea")
    ∷ (codes "dropdown", codes "select")
    ∷ (codes "selectbox", codes "select")
    ∷ (codes "enum", codes "select")
    ∷ (codes "bool", codes "checkbox")
    ∷ (codes "boolean", codes "checkbox")
    ∷ (codes "user", codes "user_select")
    ∷ (codes "attachment", codes "file")
    ∷ (codes "url", codes "link")
    ∷ (codes "tel", codes "phone")
    ∷ (codes "datetime_local", codes "datetime")
    ∷ []

-- `filter(Boolean)` on texts, and `s || other`
abbrev pub is_filled : Text → Bool
is_filled [] = false
is_filled (c ∷ cs) = true

abbrev pub filled_or : Text → Text → Text
filled_or [] other = other
filled_or (c ∷ cs) other = c ∷ cs

-- `s || undefined`
abbrev pub filled_text : Text → Option Text
filled_text [] = none
filled_text (c ∷ cs) = some (c ∷ cs)
