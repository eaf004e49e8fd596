-- ===== src/Tests/Formulas.antt =====
-- compute.util.ts on concrete formulas, with natural numbers in the place of doubles.
use nocode_app.Base.{
  ℕ, ◌+◌, ◌-◌, ◌*◌, ◌/◌, Text, codes, text_eq, true, false, List, [], ◌∷◌, ltb, leb, ◌==◌, ◌≡◌, ◌≢◌,
  ◌⊎◌, refl, none, some, arith,
}
use nocode_app.Json.{Json, undefined, number, string, Members, end, member, get}
use nocode_app.Formula.Double.{Double}
use nocode_app.Formula.Tokens.{
  tokenize, read_number, read_ident, column_after, read_op, read_comparison, arithmetic,
  with_equals, alone, is_numeric, is_letter, is_word, done, no_fuel,
}
use nocode_app.Formula.Parser.{
  run_formula, whole, parse_expression, parse_comparison, parse_additive, parse_term, parse_factor,
  parse_ident, expect_close, chain, leading, additive_op, term_op, compare_op,
}
use nocode_app.Formula.Parser.Total.{run_formula_ends}
use nocode_app.Formula.Rules.{RuleTable, Rule, gt, eval_rules, format_auto_number_injective}
use nocode_app.Formula.Rules.Table.{Hit, Miss, eval_rules_exact}

abbrev nat_of : Json ℕ → ℕ
nat_of (number n) = n
nat_of _ = 0

abbrev digits : ℕ → Text
digits n = (48 + n) ∷ []

abbrev text_of_json : Json ℕ → Text
text_of_json (string s) = s
text_of_json _ = []

abbrev smallest : List ℕ → ℕ
smallest [] = 0
smallest (n ∷ ns) = n

abbrev digit_of : Text → ℕ
digit_of [] = 0
digit_of (c ∷ cs) = c - 48

abbrev pub naturals : Double
naturals = record {
  Num = ℕ;
  of_nat = λ n. n;
  add = λ a b. a + b;
  sub = λ a b. a - b;
  mul = λ a b. a * b;
  div = λ a b. a / b;
  neg = λ a. 0;
  eq = λ a b. a == b;
  lt = λ a b. ltb a b;
  le = λ a b. leb a b;
  is_nan = λ a. false;
  is_finite = λ a. true;
  minimum = smallest;
  maximum = smallest;
  abs = λ a. a;
  round = λ a. a;
  floor = λ a. a;
  ceil = λ a. a;
  parse_float = digit_of;
  number_of = nat_of;
  string_of = text_of_json;
  is_blank = λ s. false;
}

abbrev stock : Members ℕ
stock = member (codes "qty") (number 4) (member (codes "limit") (number 3) end)

-- Multiplication binds before addition, and a comparison last.
priority : run_formula naturals (codes "2 + qty*3 > 9") stock ≡ done 1
unfolding run_formula tokenize read_number read_ident column_after read_op read_comparison
    arithmetic with_equals alone is_numeric is_letter is_word whole parse_expression
    parse_comparison parse_additive parse_term parse_factor parse_ident expect_close chain leading
    additive_op term_op compare_op get text_eq
priority = refl

grouped : run_formula naturals (codes "(2+qty)*3") stock ≡ done 18
unfolding run_formula tokenize read_number read_ident column_after read_op read_comparison
    arithmetic with_equals alone is_numeric is_letter is_word whole parse_expression
    parse_comparison parse_additive parse_term parse_factor parse_ident expect_close chain leading
    additive_op term_op compare_op get text_eq
grouped = refl

run_formula_ends_example : run_formula naturals (codes "if(qty > 3, 1, (2") stock ≢ no_fuel
run_formula_ends_example = run_formula_ends naturals (codes "if(qty > 3, 1, (2") stock

abbrev low : Rule naturals
low = record {
  when =
      record {
        field = codes "qty";
        test = gt;
        value = undefined;
        value2 = undefined;
        value_field = some (codes "limit");
        value2_field = none;
      }
      ∷ [];
  result = string (codes "ok");
}

abbrev table : RuleTable naturals
table = record { rules = low ∷ []; fallback = string (codes "order") }

eval_rules_exact_example :
    Hit naturals table.rules stock (eval_rules naturals table stock)
    ⊎ Miss naturals table.rules table.fallback stock (eval_rules naturals table stock)
eval_rules_exact_example = eval_rules_exact naturals table stock

format_auto_number_injective_example : ◌≡◌ {A = ℕ} 5 5
format_auto_number_injective_example =
    format_auto_number_injective digits 5 5 (codes "INQ-") 4 (λ e. refl)
      (λ e. absurd (omega (arith, e))) (λ e. absurd (omega (arith, e))) refl
