-- ===== src/Formula/Parser.antt =====
-- The recursive descent of compute.util.ts over the tokens. Each method takes the tokens that are left
-- and returns those it leaves, in place of the position; the fuel of the loops and of the nesting is
-- one more than the number of the tokens.
pub mod Total
use nocode_app.Base.{
  ℕ, zero, suc, Text, codes, text_eq, Bool, true, false, not, ◌&&◌, ◌||◌, Option, none, some, List,
  [], ◌∷◌, if◌then◌else◌, ◌==◌, ◌+◌, length, take_while, drop_while, has, filter, map,
}
use nocode_app.Json.{
  Json, undefined, null, string, array, object, number, Items, Members, get, count, items,
}
use nocode_app.Formula.Double.{Double}
use nocode_app.Formula.Tokens.{
  Parsed, done, thrown, no_fuel, ◌>>=◌, Op, plus, minus, times, slash, gt, lt, ge, le, eq, ne, Tok,
  num, ident, op, paren_open, paren_close, comma, tokenize, between,
}

-- `this.next().v !== ')'` throws
unfoldable pub expect_close : List Tok → Parsed (List Tok)
expect_close (paren_close ∷ ts) = done ts
expect_close _ = thrown

-- `name.toLowerCase()` of an identifier, which is ASCII
abbrev pub lower : Text → Text
lower = map (λ c. if between 65 90 c then c + 32 else c)

abbrev pub aggregates : List Text
aggregates = codes "sum" ∷ codes "avg" ∷ codes "count" ∷ []

-- The operator of the next token, where the table of a level has it, and the tokens after it.
unfoldable pub leading : {A : Type 0} → (Op → Option A) → List Tok → Option (A × List Tok)
leading table (op o ∷ ts) = elim (table o) [ none ↦ none | some f ↦ some (f, ts) ]
leading table _ = none

module _ (D : Double) where
  abbrev pub Answer : Type 0
  Answer = Parsed (D.Num × List Tok)

  -- The `while` of parseAdditive and of parseTerm: operands joined from the left.
  unfoldable pub chain :
      (List Tok → Answer) → (Op → Option (D.Num → D.Num → D.Num)) → ℕ → D.Num → List Tok → Answer
  chain operand table zero left ts = no_fuel
  chain operand table (suc n) left ts = elim (leading table ts) [
    | none ↦ done (left, ts)
    | some r ↦ operand r.1 >>= λ s. chain operand table n (r.0 left s.0) s.1
  ]

  unfoldable pub additive_op : Op → Option (D.Num → D.Num → D.Num)
  additive_op plus = some D.add
  additive_op minus = some D.sub
  additive_op _ = none

  abbrev pub divide : D.Num → D.Num → D.Num
  divide a b = if D.eq b (D.of_nat 0) then D.of_nat 0 else D.div a b

  unfoldable pub term_op : Op → Option (D.Num → D.Num → D.Num)
  term_op times = some D.mul
  term_op slash = some divide
  term_op _ = none

  -- compare
  unfoldable pub compare_op : Op → Option (D.Num → D.Num → Bool)
  compare_op gt = some (λ l r. D.lt r l)
  compare_op lt = some (λ l r. D.lt l r)
  compare_op ge = some (λ l r. D.le r l)
  compare_op le = some (λ l r. D.le l r)
  compare_op eq = some (λ l r. D.eq l r)
  compare_op ne = some (λ l r. not (D.eq l r))
  compare_op _ = none

  abbrev pub arg_or_zero : Option D.Num → D.Num
  arg_or_zero none = D.of_nat 0
  arg_or_zero (some v) = v

  abbrev pub nth : ℕ → List D.Num → Option D.Num
  nth n [] = none
  nth zero (v ∷ vs) = some v
  nth (suc n) (v ∷ vs) = nth n vs

  -- `args[0] !== 0`, which holds of a missing argument
  abbrev pub truthy : Option D.Num → Bool
  truthy none = true
  truthy (some v) = not (D.eq v (D.of_nat 0))

  -- The cases of applyFunc; none where it throws.
  unfoldable pub func_value : Text → List D.Num → Option D.Num
  func_value name args =
      if text_eq name (codes "if")
      then some (if truthy (nth 0 args) then arg_or_zero (nth 1 args) else arg_or_zero (nth 2 args))
      else if text_eq name (codes "min")
      then some (D.minimum args)
      else if text_eq name (codes "max")
      then some (D.maximum args)
      else if text_eq name (codes "abs")
      then some (D.abs (arg_or_zero (nth 0 args)))
      else if text_eq name (codes "round")
      then some (D.round (arg_or_zero (nth 0 args)))
      else if text_eq name (codes "floor")
      then some (D.floor (arg_or_zero (nth 0 args)))
      else if text_eq name (codes "ceil")
      then some (D.ceil (arg_or_zero (nth 0 args)))
      else none

  abbrev pub or_throw : Option D.Num → Parsed D.Num
  or_throw none = thrown
  or_throw (some v) = done v

  unfoldable pub apply_func : Text → List D.Num → Parsed D.Num
  apply_func name args = or_throw (func_value name args)

  -- `r?.[column]`; of what an array or a string has of its own, a name can only ask for the length
  unfoldable pub cell : Text → Json D.Num → Json D.Num
  cell column (object o) = get o column
  cell column (array vs) =
      if text_eq column (codes "length") then number (D.of_nat (count vs)) else undefined
  cell column (string s) =
      if text_eq column (codes "length") then number (D.of_nat (length s)) else undefined
  cell column _ = undefined

  -- `v === null || v === undefined || v === ''`
  unfoldable pub is_empty : Json D.Num → Bool
  is_empty undefined = true
  is_empty null = true
  is_empty (string []) = true
  is_empty _ = false

  abbrev pub sum : List D.Num → D.Num → D.Num
  sum [] total = total
  sum (v ∷ vs) total = sum vs (D.add total v)

  abbrev pub total_of : Text → List D.Num → D.Num
  total_of name nums =
      let total = sum nums (D.of_nat 0) in
      if text_eq name (codes "avg")
      then (if length nums == 0 then D.of_nat 0 else D.div total (D.of_nat (length nums)))
      else total

  -- The cells that count: filled, and finite as numbers.
  unfoldable pub numbers_of : Text → List (Json D.Num) → List D.Num
  numbers_of column rows =
      filter D.is_finite (map D.number_of (filter (λ v. not (is_empty v)) (map (cell column) rows)))

  -- A column is what follows the dot of the reference.
  unfoldable pub column_total : Text → Text → Items D.Num → Parsed D.Num
  column_total name (dot ∷ c ∷ cs) rows = done (total_of name (numbers_of (c ∷ cs) (items rows)))
  column_total name _ rows = thrown

  unfoldable pub aggregate_in : Text → Text → Json D.Num → Parsed D.Num
  aggregate_in name ref (array rows) =
      if text_eq name (codes "count")
      then done (D.of_nat (count rows))
      else column_total name (drop_while (λ c. not (c == 46)) ref) rows
  aggregate_in name ref _ = done (D.of_nat 0)

  unfoldable pub aggregate : Text → Text → Members D.Num → Parsed D.Num
  aggregate name ref values =
      aggregate_in name ref (get values (take_while (λ c. not (c == 46)) ref))

  -- `v ?? 0`
  abbrev pub or_nil : Json D.Num → Json D.Num
  or_nil undefined = number (D.of_nat 0)
  or_nil null = number (D.of_nat 0)
  or_nil v = v

  -- `n || 0`
  abbrev pub or_zero : D.Num → D.Num
  or_zero v = if D.is_nan v || D.eq v (D.of_nat 0) then D.of_nat 0 else v

  module _ (values : Members D.Num) where
    abbrev pub field_value : Text → D.Num
    field_value code = or_zero (D.number_of (or_nil (get values code)))

    unfoldable pub parse_aggregate : Text → List Tok → Answer
    parse_aggregate name (ident ref ∷ ts) =
        expect_close ts >>= λ rest. aggregate name ref values >>= λ v. done (v, rest)
    parse_aggregate name _ = thrown

    module _ (expression : List Tok → Answer) where
      -- The `while` of parseCall.
      unfoldable pub more_args : ℕ → List Tok → Parsed (List D.Num × List Tok)
      more_args zero ts = no_fuel
      more_args (suc n) (comma ∷ ts) =
          expression ts >>= λ r. more_args n r.1 >>= λ s. done (r.0 ∷ s.0, s.1)
      more_args (suc n) ts = done ([], ts)

      unfoldable pub parse_args : ℕ → List Tok → Parsed (List D.Num × List Tok)
      parse_args n (paren_close ∷ ts) = done ([], paren_close ∷ ts)
      parse_args n ts = expression ts >>= λ r. more_args n r.1 >>= λ s. done (r.0 ∷ s.0, s.1)

      unfoldable pub parse_call : ℕ → Text → List Tok → Answer
      parse_call n name ts = parse_args n ts >>= λ r.
          expect_close r.1 >>= λ rest. apply_func name r.0 >>= λ v. done (v, rest)

      -- What follows an identifier: a call, or nothing of its own.
      unfoldable pub parse_ident : ℕ → Text → List Tok → Answer
      parse_ident n code (paren_open ∷ ts) =
          if has aggregates (lower code)
          then parse_aggregate (lower code) ts
          else parse_call n (lower code) ts
      parse_ident n code ts = done (field_value code, ts)

      abbrev pub signed : Op → Answer → Answer
      signed minus a = a >>= λ r. done (D.neg r.0, r.1)
      signed plus a = a
      signed _ a = thrown

      unfoldable pub parse_factor : ℕ → List Tok → Answer
      parse_factor n [] = thrown
      parse_factor n (op o ∷ ts) = signed o (parse_factor n ts)
      parse_factor n (num text ∷ ts) = done (D.parse_float text, ts)
      parse_factor n (ident code ∷ ts) = parse_ident n code ts
      parse_factor n (paren_open ∷ ts) =
          expression ts >>= λ r. expect_close r.1 >>= λ rest. done (r.0, rest)
      parse_factor n (paren_close ∷ ts) = thrown
      parse_factor n (comma ∷ ts) = thrown

      unfoldable pub parse_term : ℕ → List Tok → Answer
      parse_term n ts = parse_factor n ts >>= λ r. chain (parse_factor n) term_op n r.0 r.1

      unfoldable pub parse_additive : ℕ → List Tok → Answer
      parse_additive n ts = parse_term n ts >>= λ r. chain (parse_term n) additive_op n r.0 r.1

      unfoldable pub parse_comparison : ℕ → List Tok → Answer
      parse_comparison n ts = parse_additive n ts >>= λ r. elim (leading compare_op r.1) [
        | none ↦ done r
        | some c ↦
            parse_additive n c.1 >>= λ s. done (if c.0 r.0 s.0 then D.of_nat 1 else D.of_nat 0, s.1)
      ]

    unfoldable pub parse_expression : ℕ → List Tok → Answer
    parse_expression zero ts = no_fuel
    parse_expression (suc n) ts = parse_comparison (parse_expression n) n ts

  -- `if (!p.atEnd()) throw`
  unfoldable pub whole : D.Num → List Tok → Parsed D.Num
  whole v [] = done v
  whole v (t ∷ rest) = thrown

  -- The body of evalFormula under its `try`.
  unfoldable pub run_formula : Text → Members D.Num → Parsed D.Num
  run_formula formula values = tokenize (length formula) formula >>= λ ts.
      parse_expression values (suc (length ts)) ts >>= λ r. whole r.0 r.1

  unfoldable pub eval_formula : Text → Members D.Num → Json D.Num
  eval_formula formula values = elim (run_formula formula values) [
    | done v ↦
        if D.is_finite v
        then number (D.div (D.round (D.mul v (D.of_nat 1000000))) (D.of_nat 1000000))
        else string []
    | thrown ↦ string []
    | no_fuel ↦ string []
  ]
