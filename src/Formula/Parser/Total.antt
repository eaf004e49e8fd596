-- ===== src/Formula/Parser/Total.antt =====
-- The parser comes to an end: what it leaves is shorter than what it was given, and the fuel is enough.
use nocode_app.Base.{
  ℕ, zero, suc, ◌≤◌, ◌<◌, Text, Bool, true, false, Option, none, some, List, [], ◌∷◌, length, arith,
  if◌then◌else◌, ◌≡◌, ◌≢◌, refl, ap, inl, inr, Bool-cases, Option-cases, has,
}
use nocode_app.Json.{Json, undefined, null, bool, number, string, array, object, Items, Members}
use nocode_app.Formula.Double.{Double}
use nocode_app.Formula.Tokens.{
  Parsed, done, thrown, no_fuel, ◌>>=◌, Op, plus, minus, times, slash, gt, lt, ge, le, eq, ne, Tok,
  num, ident, op, paren_open, paren_close, comma, tokenize, tokenize_ends,
}
use nocode_app.Formula.Parser.{
  Answer, expect_close, lower, aggregates, leading, chain, additive_op, term_op, compare_op,
  apply_func, or_throw, func_value, aggregate, aggregate_in, column_total, parse_aggregate,
  more_args, parse_args, parse_call, parse_ident, parse_factor, parse_term, parse_additive,
  parse_comparison, parse_expression, run_formula, whole, signed,
}

-- What is left is shorter than `k`; an error has left nothing.
abbrev Within : {A : Type 0} → ℕ → Parsed (A × List Tok) → Type 0
Within k (done r) = length r.1 < k
Within k thrown = Unit
Within k no_fuel = ⊥

bind-Within :
    {A B : Type 0} (k l : ℕ) (m : Parsed (A × List Tok)) (f : A × List Tok → Parsed (B × List Tok))
    → Within k m
    → ((r : A × List Tok) → length r.1 < k → Within l (f r))
    → Within l (m >>= f)
bind-Within k l (done r) f h all = all r h
bind-Within k l thrown f h all = tt
bind-Within k l no_fuel f h all = absurd h

weaken : {A : Type 0} (k l : ℕ) (m : Parsed (A × List Tok)) → Within k m → k ≤ l → Within l m
weaken k l (done r) h e = omega arith
weaken k l thrown h e = tt
weaken k l no_fuel h e = absurd h

close-Within :
    {A : Type 0} (ts : List Tok) (k : ℕ) (f : List Tok → Parsed (A × List Tok))
    → ((rest : List Tok) → length rest < length ts → Within k (f rest))
    → Within k (expect_close ts >>= f)
unfolding expect_close
close-Within [] k f all = tt
close-Within (paren_close ∷ ts) k f all = all ts (omega arith)
close-Within (num s ∷ ts) k f all = tt
close-Within (ident s ∷ ts) k f all = tt
close-Within (op o ∷ ts) k f all = tt
close-Within (paren_open ∷ ts) k f all = tt
close-Within (comma ∷ ts) k f all = tt

abbrev rest_of : {A : Type 0} → List Tok → Option (A × List Tok) → List Tok
rest_of ts none = ts
rest_of ts (some r) = r.1

pair_rest :
    {A : Type 0} (t : Tok) (ts : List Tok) (o : Option A) {r : A × List Tok}
    → elim o as (λ x. Option (A × List Tok)) [ none ↦ none | some f ↦ some (f, ts) ] ≡ some r
    → length r.1 < length (t ∷ ts)
pair_rest t ts none h = cc
pair_rest t ts (some f) {r} h = omega (arith, ap (λ o. length (rest_of ts o)) h)

leading-lt :
    {A : Type 0} (table : Op → Option A) (ts : List Tok) {r : A × List Tok}
    → leading table ts ≡ some r
    → length r.1 < length ts
unfolding leading
leading-lt table [] h = cc
leading-lt table (op o ∷ ts) {r} h = pair_rest (op o) ts (table o) h
leading-lt table (num s ∷ ts) h = cc
leading-lt table (ident s ∷ ts) h = cc
leading-lt table (paren_open ∷ ts) h = cc
leading-lt table (paren_close ∷ ts) h = cc
leading-lt table (comma ∷ ts) h = cc

module _ (D : Double) where
  -- An operand that leaves less than it was given, of every list that is no longer than `k`.
  abbrev Shrinks : ℕ → (List Tok → Answer D) → Type 0
  Shrinks k operand = (us : List Tok) → length us ≤ k → Within (length us) (operand us)

  chain-Within :
      (operand : List Tok → Answer D) (table : Op → Option (D.Num → D.Num → D.Num)) (n : ℕ)
      (v : D.Num) (ts : List Tok)
      → Shrinks (length ts) operand
      → length ts < n
      → Within (suc (length ts)) (chain D operand table n v ts)
  unfolding chain
  chain-Within operand table zero v ts fine h = absurd (omega arith)
  chain-Within operand table (suc n) v ts fine h = elim (Option-cases (leading table ts)) [
    | inl over ↦ rw (Within, over) (omega arith)
    | inr (r, e) ↦
        let shorter = leading-lt table ts e in
        rw (Within, e)
          (bind-Within (length r.1) (suc (length ts)) (operand r.1) _ (fine r.1 (omega arith))
            (λ s le.
              weaken (suc (length s.1)) (suc (length ts)) (chain D operand table n (r.0 v s.0) s.1)
                (chain-Within operand table n (r.0 v s.0) s.1 (λ us few. fine us (omega arith))
                  (omega arith))
                (omega arith)))
  ]

  level-Within :
      (operand : List Tok → Answer D) (table : Op → Option (D.Num → D.Num → D.Num)) (n : ℕ)
      (ts : List Tok)
      → Shrinks (length ts) operand
      → length ts ≤ n
      → Within (length ts) (operand ts >>= λ r. chain D operand table n r.0 r.1)
  level-Within operand table n ts fine h =
      bind-Within (length ts) (length ts) (operand ts) _ (fine ts (omega arith)) (λ r le.
        weaken (suc (length r.1)) (length ts) (chain D operand table n r.0 r.1)
          (chain-Within operand table n r.0 r.1 (λ us few. fine us (omega arith)) (omega arith))
          (omega arith))

  module _ (values : Members D.Num) (expression : List Tok → Answer D) where
    more_args-Within :
        (n : ℕ) (ts : List Tok)
        → Shrinks (length ts) expression
        → length ts < n
        → Within (suc (length ts)) (more_args D values expression n ts)
    unfolding more_args
    more_args-Within zero ts fine h = absurd (omega arith)
    more_args-Within (suc n) (comma ∷ ts) fine h =
        bind-Within (length ts) (suc (suc (length ts))) (expression ts) _ (fine ts (omega arith))
          (λ r le.
            bind-Within (suc (length r.1)) (suc (suc (length ts)))
              (more_args D values expression n r.1) _
              (more_args-Within n r.1 (λ us few. fine us (omega arith)) (omega arith))
              (λ s less. omega arith))
    more_args-Within (suc n) [] fine h = omega arith
    more_args-Within (suc n) (num s ∷ ts) fine h = omega arith
    more_args-Within (suc n) (ident s ∷ ts) fine h = omega arith
    more_args-Within (suc n) (op o ∷ ts) fine h = omega arith
    more_args-Within (suc n) (paren_open ∷ ts) fine h = omega arith
    more_args-Within (suc n) (paren_close ∷ ts) fine h = omega arith

    -- Nothing shorter than `k` is left to a step that keeps what it was given.
    ends-Within :
        {A B : Type 0} (k : ℕ) (m : Parsed A) (f : A → B) (rest : List Tok)
        → m ≢ no_fuel
        → length rest < k
        → Within k (m >>= λ v. done (f v, rest))
    ends-Within k (done v) f rest ends h = h
    ends-Within k thrown f rest ends h = tt
    ends-Within k no_fuel f rest ends h = absurd (ends refl)

    some_args-Within :
        (n : ℕ) (ts : List Tok)
        → Shrinks (length ts) expression
        → length ts ≤ n
        → Within (suc (length ts)) (
            expression ts >>= λ r.
            more_args D values expression n r.1 >>= λ s. done (r.0 ∷ s.0, s.1))
    some_args-Within n ts fine h =
        bind-Within (length ts) (suc (length ts)) (expression ts) _ (fine ts (omega arith)) (λ r le.
          bind-Within (suc (length r.1)) (suc (length ts)) (more_args D values expression n r.1) _
            (more_args-Within n r.1 (λ us few. fine us (omega arith)) (omega arith))
            (λ s less. omega arith))

    parse_args-Within :
        (n : ℕ) (ts : List Tok)
        → Shrinks (length ts) expression
        → length ts ≤ n
        → Within (suc (length ts)) (parse_args D values expression n ts)
    unfolding parse_args
    parse_args-Within n (paren_close ∷ ts) fine h = omega arith
    parse_args-Within n [] fine h = some_args-Within n [] fine h
    parse_args-Within n (num s ∷ ts) fine h = some_args-Within n (num s ∷ ts) fine h
    parse_args-Within n (ident s ∷ ts) fine h = some_args-Within n (ident s ∷ ts) fine h
    parse_args-Within n (op o ∷ ts) fine h = some_args-Within n (op o ∷ ts) fine h
    parse_args-Within n (paren_open ∷ ts) fine h = some_args-Within n (paren_open ∷ ts) fine h
    parse_args-Within n (comma ∷ ts) fine h = some_args-Within n (comma ∷ ts) fine h

    if_ends :
        (b : Bool) (x y : Parsed D.Num) → x ≢ no_fuel → y ≢ no_fuel → (if b then x else y) ≢ no_fuel
    if_ends true x y h k = h
    if_ends false x y h k = k

    done_ends : (v : D.Num) → done v ≢ no_fuel
    done_ends v e = cc

    or_throw_ends : (o : Option D.Num) → or_throw D o ≢ no_fuel
    or_throw_ends none e = cc
    or_throw_ends (some v) e = cc

    apply_func_ends : (name : Text) (args : List D.Num) → apply_func D name args ≢ no_fuel
    unfolding apply_func
    apply_func_ends name args = or_throw_ends (func_value D name args)

    column_total_ends :
        (name ref : Text) (rows : Items D.Num) → column_total D name ref rows ≢ no_fuel
    unfolding column_total
    column_total_ends name [] rows e = cc
    column_total_ends name (dot ∷ []) rows e = cc
    column_total_ends name (dot ∷ c ∷ cs) rows e = cc

    aggregate_in_ends : (name ref : Text) (v : Json D.Num) → aggregate_in D name ref v ≢ no_fuel
    unfolding aggregate_in
    aggregate_in_ends name ref (array rows) =
        if_ends _ _ _ (done_ends _) (column_total_ends name _ rows)
    aggregate_in_ends name ref undefined = done_ends _
    aggregate_in_ends name ref null = done_ends _
    aggregate_in_ends name ref (bool b) = done_ends _
    aggregate_in_ends name ref (number v) = done_ends _
    aggregate_in_ends name ref (string s) = done_ends _
    aggregate_in_ends name ref (object o) = done_ends _

    aggregate_ends : (name ref : Text) → aggregate D name ref values ≢ no_fuel
    unfolding aggregate
    aggregate_ends name ref = aggregate_in_ends name ref _

    parse_call-Within :
        (n : ℕ) (name : Text) (ts : List Tok)
        → Shrinks (length ts) expression
        → length ts ≤ n
        → Within (suc (length ts)) (parse_call D values expression n name ts)
    unfolding parse_call
    parse_call-Within n name ts fine h =
        bind-Within (suc (length ts)) (suc (length ts)) (parse_args D values expression n ts) _
          (parse_args-Within n ts fine h)
          (λ r le. close-Within r.1 (suc (length ts)) _ (λ rest less.
            ends-Within (suc (length ts)) (apply_func D name r.0) _ rest (apply_func_ends name r.0)
              (omega arith)))

    parse_aggregate-Within :
        (name : Text) (ts : List Tok) → Within (suc (length ts)) (parse_aggregate D values name ts)
    unfolding parse_aggregate
    parse_aggregate-Within name [] = tt
    parse_aggregate-Within name (ident ref ∷ ts) =
        close-Within ts (suc (suc (length ts))) _ (λ rest less.
          ends-Within (suc (suc (length ts))) (aggregate D name ref values) _ rest
            (aggregate_ends name ref) (omega arith))
    parse_aggregate-Within name (num s ∷ ts) = tt
    parse_aggregate-Within name (op o ∷ ts) = tt
    parse_aggregate-Within name (paren_open ∷ ts) = tt
    parse_aggregate-Within name (paren_close ∷ ts) = tt
    parse_aggregate-Within name (comma ∷ ts) = tt

    parse_ident-Within :
        (n : ℕ) (code : Text) (ts : List Tok)
        → Shrinks (length ts) expression
        → length ts ≤ n
        → Within (suc (length ts)) (parse_ident D values expression n code ts)
    unfolding parse_ident
    parse_ident-Within n code (paren_open ∷ ts) fine h =
        elim (Bool-cases (has aggregates (lower code))) [
          | inl agg ↦
              rw (Within, agg)
                (weaken (suc (length ts)) (suc (suc (length ts)))
                  (parse_aggregate D values (lower code) ts)
                  (parse_aggregate-Within (lower code) ts) (omega arith))
          | inr call ↦
              rw (Within, call)
                (weaken (suc (length ts)) (suc (suc (length ts)))
                  (parse_call D values expression n (lower code) ts)
                  (parse_call-Within n (lower code) ts (λ us few. fine us (omega arith))
                    (omega arith))
                  (omega arith))
        ]
    parse_ident-Within n code [] fine h = omega arith
    parse_ident-Within n code (num s ∷ ts) fine h = omega arith
    parse_ident-Within n code (ident s ∷ ts) fine h = omega arith
    parse_ident-Within n code (op o ∷ ts) fine h = omega arith
    parse_ident-Within n code (paren_close ∷ ts) fine h = omega arith
    parse_ident-Within n code (comma ∷ ts) fine h = omega arith

    signed-Within :
        (k : ℕ) (o : Op) (a : Answer D)
        → Within k a
        → Within (suc k) (signed D values expression o a)
    signed-Within k minus a h = bind-Within k (suc k) a _ h (λ r le. omega arith)
    signed-Within k plus a h = weaken k (suc k) a h (omega arith)
    signed-Within k times a h = tt
    signed-Within k slash a h = tt
    signed-Within k gt a h = tt
    signed-Within k lt a h = tt
    signed-Within k ge a h = tt
    signed-Within k le a h = tt
    signed-Within k eq a h = tt
    signed-Within k ne a h = tt

    parse_factor-Within :
        (n : ℕ) (ts : List Tok)
        → ((us : List Tok) → length us < length ts → Within (length us) (expression us))
        → length ts ≤ suc n
        → Within (length ts) (parse_factor D values expression n ts)
    unfolding parse_factor
    parse_factor-Within n [] fine h = tt
    parse_factor-Within n (op o ∷ ts) fine h =
        signed-Within (length ts) o (parse_factor D values expression n ts)
          (parse_factor-Within n ts (λ us few. fine us (omega arith)) (omega arith))
    parse_factor-Within n (num text ∷ ts) fine h = omega arith
    parse_factor-Within n (ident code ∷ ts) fine h =
        parse_ident-Within n code ts (λ us few. fine us (omega arith)) (omega arith)
    parse_factor-Within n (paren_open ∷ ts) fine h =
        bind-Within (length ts) (suc (length ts)) (expression ts) _ (fine ts (omega arith))
          (λ r le. close-Within r.1 (suc (length ts)) _ (λ rest less. omega arith))
    parse_factor-Within n (paren_close ∷ ts) fine h = tt
    parse_factor-Within n (comma ∷ ts) fine h = tt

    module _ (n : ℕ)
        (fine : (us : List Tok) → length us < n → Within (length us) (expression us)) where
      factor_all : Shrinks n (parse_factor D values expression n)
      factor_all ts h = parse_factor-Within n ts (λ us few. fine us (omega arith)) (omega arith)

      term_all : Shrinks n (parse_term D values expression n)
      unfolding parse_term
      term_all ts h =
          level-Within (parse_factor D values expression n) (term_op D) n ts
            (λ us few. factor_all us (omega arith)) h

      additive_all : Shrinks n (parse_additive D values expression n)
      unfolding parse_additive
      additive_all ts h =
          level-Within (parse_term D values expression n) (additive_op D) n ts
            (λ us few. term_all us (omega arith)) h

      comparison_all : Shrinks n (parse_comparison D values expression n)
      unfolding parse_comparison
      comparison_all ts h =
          bind-Within (length ts) (length ts) (parse_additive D values expression n ts) _
            (additive_all ts h)
            (λ r less. elim (Option-cases (leading (compare_op D) r.1)) [
              | inl over ↦ rw (Within, over) less
              | inr (c, e) ↦
                  let shorter = leading-lt (compare_op D) r.1 e in
                  rw (Within, e)
                    (bind-Within (length c.1) (length ts) (parse_additive D values expression n c.1)
                      _ (additive_all c.1 (omega arith)) (λ s few. omega arith))
            ])

  parse_expression-Within :
      (values : Members D.Num) (n : ℕ) (ts : List Tok)
      → length ts < n
      → Within (length ts) (parse_expression D values n ts)
  unfolding parse_expression
  parse_expression-Within values zero ts h = absurd (omega arith)
  parse_expression-Within values (suc n) ts h =
      comparison_all values (parse_expression D values n) n
        (λ us few. parse_expression-Within values n us few) ts (omega arith)

  then_ends :
      {A : Type 0} (m : Parsed A) (f : A → Parsed D.Num)
      → m ≢ no_fuel
      → ((a : A) → f a ≢ no_fuel)
      → (m >>= f) ≢ no_fuel
  then_ends (done a) f ends all = all a
  then_ends thrown f ends all = λ e. cc
  then_ends no_fuel f ends all = absurd (ends refl)

  Within-ends : {A : Type 0} (k : ℕ) (m : Parsed (A × List Tok)) → Within k m → m ≢ no_fuel
  Within-ends k (done r) h e = cc
  Within-ends k thrown h e = cc
  Within-ends k no_fuel h e = h

  whole_ends : (v : D.Num) (rest : List Tok) → whole D v rest ≢ no_fuel
  unfolding whole
  whole_ends v [] e = cc
  whole_ends v (t ∷ rest) e = cc

  -- A formula always returns a number or throws: with the fuel that the evaluator gives them, neither the
  -- tokenizer nor the parser is ever cut off, whatever the text and the values are.
  pub run_formula_ends :
      (formula : Text) (values : Members D.Num) → run_formula D formula values ≢ no_fuel
  unfolding run_formula
  run_formula_ends formula values =
      then_ends (tokenize (length formula) formula) _
        (tokenize_ends (length formula) formula (omega arith))
        (λ ts.
          then_ends (parse_expression D values (suc (length ts)) ts) _
            (Within-ends (length ts) (parse_expression D values (suc (length ts)) ts)
              (parse_expression-Within values (suc (length ts)) ts (omega arith)))
            (λ r. whole_ends r.0 r.1))
