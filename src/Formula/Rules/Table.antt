-- ===== src/Formula/Rules/Table.antt =====
-- What a rule table gives.
use mathlib.Core.List.Memᴰ
use nocode_app.Base.{
  true, false, List, [], ◌∷◌, ◌++◌, arith, ◌≡◌, refl, ap, ⊎_elim, ◌⊎◌, inl, inr, Memᴰ, Bool-cases,
}
use nocode_app.Json.{Json, Members}
use nocode_app.Formula.Double.{Double}
use nocode_app.Formula.Rules.{RuleCond, Rule, RuleTable, every, first_rule, eval_rules}
use nocode_app.Formula.Rules.Conditions.{Holds, holds_iff, Gives, coerce_result-Gives}

module _ (D : Double) where
  -- Every condition of the rule holds of the values.
  abbrev pub Matches : Members D.Num → List (RuleCond D) → Type 0
  Matches values [] = Unit
  Matches values (c ∷ cs) = Holds D values c × Matches values cs

  pub record Hit (rules : List (Rule D)) (values : Members D.Num) (v : Json D.Num) : Type 0 where
    pub above : List (Rule D)
    pub rule : Rule D
    pub below : List (Rule D)
    pub split : rules ≡ above ++ rule ∷ below
    pub matches : Matches values rule.when
    pub first : (u : Rule D) → Memᴰ u above → ¬ Matches values u.when
    pub given : Gives D rule.result v

  pub record Miss (rules : List (Rule D)) (fallback : Json D.Num) (values : Members D.Num)
      (v : Json D.Num) : Type 0 where
    pub none_matches : (u : Rule D) → Memᴰ u rules → ¬ Matches values u.when
    pub given : Gives D fallback v

  every-Matches :
      (values : Members D.Num) (cs : List (RuleCond D))
      → every D values cs ≡ true
      → Matches values cs
  unfolding every
  every-Matches values [] h = tt
  every-Matches values (c ∷ cs) h =
      ((holds_iff D values c).0 (ground arith), every-Matches values cs (ground arith))

  Matches-every :
      (values : Members D.Num) (cs : List (RuleCond D))
      → Matches values cs
      → every D values cs ≡ true
  unfolding every
  Matches-every values [] h = refl
  Matches-every values (c ∷ cs) h =
      let rest = Matches-every values cs (h.1) in
      ground (arith, (holds_iff D values c).1 (h.0), rest)

  not_every :
      (values : Members D.Num) (cs : List (RuleCond D))
      → every D values cs ≡ false
      → ¬ Matches values cs
  not_every values cs h m = cc (h, Matches-every values cs m)

  first_rule_exact :
      (rules : List (Rule D)) (fallback : Json D.Num) (values : Members D.Num)
      → Hit rules values (first_rule D rules fallback values)
        ⊎ Miss rules fallback values (first_rule D rules fallback values)
  unfolding first_rule
  first_rule_exact [] fallback values = inr (record {
    none_matches = λ u m. absurd (Memᴰ.not-nil m);
    given = coerce_result-Gives D fallback;
  })
  first_rule_exact (r ∷ rs) fallback values = elim (Bool-cases (every D values r.when)) [
    | inl hit ↦ rw hit (
        inl (record {
          above = [];
          rule = r;
          below = rs;
          split = refl;
          matches = every-Matches values r.when hit;
          first = λ u m. absurd (Memᴰ.not-nil m);
          given = coerce_result-Gives D r.result;
        }))
    | inr miss ↦ rw miss (
        ⊎_elim
          (λ h. inl (record {
            above = r ∷ h.above;
            rule = h.rule;
            below = h.below;
            split = ap (λ xs. r ∷ xs) h.split;
            matches = h.matches;
            first = λ u m.
                ⊎_elim (λ e. rw e (not_every values r.when miss)) (λ t. h.first u t)
                  (Memᴰ.cases_cons m);
            given = h.given;
          }))
          (λ k. inr (record {
            none_matches = λ u m.
                ⊎_elim (λ e. rw e (not_every values r.when miss)) (λ t. k.none_matches u t)
                  (Memᴰ.cases_cons m);
            given = k.given;
          }))
          (first_rule_exact rs fallback values))
  ]

  -- A rule table gives the result of a rule of the table whose conditions all hold of the values while
  -- every rule above it has one that does not, or the fallback where no rule has all its conditions. A condition compares
  -- the value of its field with the values of the fields that it names, or else with its fixed ones. An order compares
  -- what the values read as numbers, 0 for what is none; (in)equality compares them as texts; an unknown
  -- comparison holds of nothing. A text as result is given as a number where it reads as one, and an absent result as
  -- the empty text.
  pub eval_rules_exact :
      (settings : RuleTable D) (values : Members D.Num)
      → Hit settings.rules values (eval_rules D settings values)
        ⊎ Miss settings.rules settings.fallback values (eval_rules D settings values)
  unfolding eval_rules
  eval_rules_exact settings values = first_rule_exact settings.rules settings.fallback values
