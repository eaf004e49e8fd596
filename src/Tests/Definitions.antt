-- ===== src/Tests/Definitions.antt =====
-- Sanitized definitions of apps, at a host that writes numbers as strokes.
use nocode_app.Base.{
  ℕ, zero, suc, Text, codes, text_eq, has, true, false, some, [], ◌∷◌, length, filter, ◌≡◌, refl,
  ap, arith,
}
use nocode_app.Json.{Json, string, array, object, end, member, item, nil}
use nocode_app.Formula.Tokens.{is_letter, is_word}
use nocode_app.Definition.Shape.{Host, AppDefinition}
use nocode_app.Definition.{as_string, code_base, free_code, slug_code}
use nocode_app.Definition.Codes.{all_words, is_identifier, slug_code_total}
use nocode_app.Definition.Sanitize.{sanitize_definition}
use nocode_app.Definition.Whole.{IsValid, sanitize_definition-IsValid}
use nocode_app.Tests.Formulas.{naturals}

abbrev strokes : ℕ → Text
strokes zero = []
strokes (suc n) = 49 ∷ strokes n

length-strokes : (n : ℕ) → length (strokes n) ≡ n
length-strokes zero = refl
length-strokes (suc n) = ap suc (length-strokes n)

strokes_distinct : (m n : ℕ) → strokes m ≡ strokes n → m ≡ n
strokes_distinct m n e =
    let same : length (strokes m) ≡ length (strokes n) = ap length e in
    omega (arith, same, length-strokes m, length-strokes n)

strokes_words : (n : ℕ) → all_words (strokes n) ≡ true
unfolding is_word is_letter
strokes_words zero = refl
strokes_words (suc n) = strokes_words n

abbrev pub text_of_json : Json ℕ → Text
text_of_json (string s) = s
text_of_json v = []

abbrev host : Host
host = record {
  double = record naturals { string_of = text_of_json };
  trim = λ t. t;
  lower = λ t. t;
  show = strokes;
  stamp = codes "now";
}

abbrev asked_field : Text → Text → Json ℕ
asked_field code type = object (
    member (codes "label") (string code)
      (member (codes "fieldCode") (string code) (member (codes "fieldType") (string type) end)))

abbrev asked : Json ℕ
asked = object (
    member (codes "fields")
      (array (
        item (asked_field (codes "a") (codes "text"))
          (item (asked_field (codes "a") (codes "select")) nil)))
      (member (codes "processConfig")
        (object (member (codes "statusField") (string (codes "a")) end)) end))

sanitize_definition-IsValid_example :
    (d : AppDefinition ℕ) × (sanitize_definition host asked ≡ some d) × IsValid host d
sanitize_definition-IsValid_example =
    sanitize_definition-IsValid host asked strokes_distinct strokes_words

slug_code_total_example :
    (code : Text) × (slug_code host (string (codes "a")) 1 (codes "a" ∷ []) ≡ some code)
    × (has (codes "a" ∷ []) code ≡ false)
    × (is_identifier code ≡ true)
slug_code_total_example =
    slug_code_total host strokes_distinct strokes_words (string (codes "a")) 1 (codes "a" ∷ [])

second_code : slug_code host (string (codes "a")) 1 (codes "a" ∷ []) ≡ some (codes "a_11")
unfolding slug_code free_code code_base as_string filter has text_eq is_word is_letter
second_code = refl
