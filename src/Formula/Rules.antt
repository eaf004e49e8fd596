-- ===== src/Formula/Rules.antt =====
-- The rule tables and the automatic numbers of compute.util.ts.
pub mod Conditions
pub mod Table
use nocode_app.Base.{
  ℕ, zero, suc, ◌-◌, Text, text_eq, Bool, true, false, not, ◌&&◌, Option, none, some, List, [], ◌∷◌,
  ◌++◌, if◌then◌else◌, ltb, length, arith, ◌≡◌, refl, sym, ◌≢◌, ap, ⊎_elim, ◌⊎◌, inl, inr, Memᴰ,
  Bool-cases,
}
use nocode_app.Json.{Json, undefined, null, string, number, Members, get}
use nocode_app.Formula.Double.{Double}
use nocode_app.Formula.Parser.{is_empty}

-- `op` of a condition; `other` is any text that the code does not know
pub data Compare : Type 0 where
  gt lt ge le eq ne between empty notempty other : Compare

module _ (D : Double) where
  pub record RuleCond : Type 0 where
    pub field : Text
    pub test : Compare
    pub value : Json D.Num
    pub value2 : Json D.Num
    pub value_field : Option Text  -- present where it is a string
    pub value2_field : Option Text

  pub record Rule : Type 0 where
    pub when : List RuleCond
    pub result : Json D.Num

  -- settings; `undefined` for an absent fallback
  pub record RuleTable : Type 0 where
    pub rules : List Rule
    pub fallback : Json D.Num

  -- `typeof ref === 'string' && ref ? values[ref] : cond[key]`
  unfoldable pub operand : Option Text → Json D.Num → Members D.Num → Json D.Num
  operand none fixed values = fixed
  operand (some []) fixed values = fixed
  operand (some (c ∷ cs)) fixed values = get values (c ∷ cs)

  unfoldable pub num_of : Json D.Num → D.Num
  num_of v = if D.is_nan (D.number_of v) then D.of_nat 0 else D.number_of v

  -- `String(v ?? '')`
  unfoldable pub text_of : Json D.Num → Text
  text_of undefined = D.string_of (string [])
  text_of null = D.string_of (string [])
  text_of v = D.string_of v

  unfoldable pub match_rule_cond : Json D.Num → Compare → Json D.Num → Json D.Num → Bool
  match_rule_cond v gt a b = D.lt (num_of a) (num_of v)
  match_rule_cond v lt a b = D.lt (num_of v) (num_of a)
  match_rule_cond v ge a b = D.le (num_of a) (num_of v)
  match_rule_cond v le a b = D.le (num_of v) (num_of a)
  match_rule_cond v eq a b = text_eq (text_of v) (text_of a)
  match_rule_cond v ne a b = not (text_eq (text_of v) (text_of a))
  match_rule_cond v between a b = D.le (num_of a) (num_of v) && D.le (num_of v) (num_of b)
  match_rule_cond v empty a b = is_empty D v
  match_rule_cond v notempty a b = not (is_empty D v)
  match_rule_cond v other a b = false

  unfoldable pub holds : Members D.Num → RuleCond → Bool
  holds values c =
      match_rule_cond (get values c.field) c.test (operand c.value_field c.value values)
        (operand c.value2_field c.value2 values)

  -- `conds.every(…)`
  unfoldable pub every : Members D.Num → List RuleCond → Bool
  every values [] = true
  every values (c ∷ cs) = holds values c && every values cs

  -- `r ?? ''`, and numbers for the texts that read as one
  unfoldable pub coerce_result : Json D.Num → Json D.Num
  coerce_result undefined = string []
  coerce_result null = string []
  coerce_result (string s) =
      if not (D.is_blank s) && not (D.is_nan (D.number_of (string s)))
      then number (D.number_of (string s))
      else string s
  coerce_result v = v

  -- The loop of evalRules, and what follows it.
  unfoldable pub first_rule : List Rule → Json D.Num → Members D.Num → Json D.Num
  first_rule [] fallback values = coerce_result fallback
  first_rule (r ∷ rs) fallback values =
      if every values r.when then coerce_result r.result else first_rule rs fallback values

  unfoldable pub eval_rules : RuleTable → Members D.Num → Json D.Num
  eval_rules settings values = first_rule settings.rules settings.fallback values

-- The digits of a number are the language's, a parameter `show`.
module _ (show : ℕ → Text) where
  abbrev pub zeros : ℕ → Text
  zeros zero = []
  zeros (suc n) = 48 ∷ zeros n

  -- `s.padStart(width, '0')`
  unfoldable pub pad_start : Text → ℕ → Text
  pad_start s width = zeros (width - length s) ++ s

  unfoldable pub format_auto_number : ℕ → Text → ℕ → Text
  format_auto_number n prefix padding =
      prefix ++ (if ltb 0 padding then pad_start (show n) padding else show n)

  abbrev rest : Text → Text
  rest [] = []
  rest (c ∷ cs) = cs

  abbrev first_or : ℕ → Text → ℕ
  first_or d [] = d
  first_or d (c ∷ cs) = c

  -- Text that no zero leads.
  abbrev pub IsBare : Text → Type 0
  IsBare s = first_or 49 s ≢ 48

  zeros_cancel : (a b : ℕ) (s t : Text) → IsBare s → IsBare t → zeros a ++ s ≡ zeros b ++ t → s ≡ t
  zeros_cancel zero zero s t hs ht e = e
  zeros_cancel zero (suc b) s t hs ht e = absurd (hs (ap (first_or 49) e))
  zeros_cancel (suc a) zero s t hs ht e = absurd (ht (ap (first_or 49) (sym e)))
  zeros_cancel (suc a) (suc b) s t hs ht e = zeros_cancel a b s t hs ht (ap rest e)

  prefix_cancel : (p s t : Text) → p ++ s ≡ p ++ t → s ≡ t
  prefix_cancel [] s t e = e
  prefix_cancel (c ∷ p) s t e = prefix_cancel p s t (ap rest e)

  -- Where the digits of different numbers differ and no zero leads those of `n` and `m`, an automatic number
  -- tells them apart: the same prefix and padding give `n` and `m` the same text only if they are equal.
  pub format_auto_number_injective :
      (n m : ℕ) (prefix : Text) (padding : ℕ)
      → (show n ≡ show m → n ≡ m)
      → IsBare (show n)
      → IsBare (show m)
      → format_auto_number n prefix padding ≡ format_auto_number m prefix padding
      → n ≡ m
  unfolding format_auto_number pad_start
  format_auto_number_injective n m prefix padding inj hn hm e = elim (Bool-cases (ltb 0 padding)) [
    | inl padded ↦ inj (
        zeros_cancel (padding - length (show n)) (padding - length (show m)) (show n) (show m) hn hm
          (prefix_cancel prefix _ _ (rw padded at e)))
    | inr plain ↦ inj (prefix_cancel prefix _ _ (rw plain at e))
  ]
