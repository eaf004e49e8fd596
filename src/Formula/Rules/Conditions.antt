-- ===== src/Formula/Rules/Conditions.antt =====
-- What the conditions of a rule ask and what its result gives, described apart from the code.
use nocode_app.Base.{
  subst, Option, none, some, Text, text_eq, text_eq_iff, Bool, true, false, not, [], ◌∷◌, arith,
  ◌≡◌, ◌≢◌, ◌↔◌, refl, sym, ◌∙◌, ⊎_elim, ◌⊎◌, inl, inr, Bool-cases,
}
use nocode_app.Json.{Json, undefined, null, bool, string, number, array, object, Members, get}
use nocode_app.Formula.Double.{Double}
use nocode_app.Formula.Parser.{is_empty}
use nocode_app.Formula.Rules.{
  Compare, gt, lt, ge, le, eq, ne, between, empty, notempty, other, RuleCond, operand, num_of,
  text_of, match_rule_cond, holds, coerce_result,
}

module _ (D : Double) where
  -- The number of a value in a comparison: `Number` of it, and 0 where that is no number.
  abbrev pub Reads : Json D.Num → D.Num → Type 0
  Reads v n =
      ((D.is_nan (D.number_of v) ≡ false) × (n ≡ D.number_of v))
      ⊎ ((D.is_nan (D.number_of v) ≡ true) × (n ≡ D.of_nat 0))

  -- The text of a value in a comparison: that of the empty text where the value is absent.
  abbrev pub Shows : Json D.Num → Text → Type 0
  Shows v t =
      (((v ≡ undefined) ⊎ (v ≡ null)) × (t ≡ D.string_of (string [])))
      ⊎ ((v ≢ undefined) × (v ≢ null) × (t ≡ D.string_of v))

  abbrev pub IsBlank : Json D.Num → Type 0
  IsBlank v = (v ≡ undefined) ⊎ (v ≡ null) ⊎ (v ≡ string [])

  -- What each comparison asks of a value and the two it is compared with.
  abbrev pub Meets : Json D.Num → Compare → Json D.Num → Json D.Num → Type 0
  Meets v gt a b = (n : D.Num) × (m : D.Num) × Reads v n × Reads a m × (D.lt m n ≡ true)
  Meets v lt a b = (n : D.Num) × (m : D.Num) × Reads v n × Reads a m × (D.lt n m ≡ true)
  Meets v ge a b = (n : D.Num) × (m : D.Num) × Reads v n × Reads a m × (D.le m n ≡ true)
  Meets v le a b = (n : D.Num) × (m : D.Num) × Reads v n × Reads a m × (D.le n m ≡ true)
  Meets v eq a b = (t : Text) × Shows v t × Shows a t
  Meets v ne a b = (t : Text) × (u : Text) × Shows v t × Shows a u × (t ≢ u)
  Meets v between a b =
      (n : D.Num) × (m : D.Num) × (k : D.Num) × Reads v n
      × Reads a m
      × Reads b k
      × (D.le m n ≡ true)
      × (D.le n k ≡ true)
  Meets v empty a b = IsBlank v
  Meets v notempty a b = ¬ IsBlank v
  Meets v other a b = true ≡ false

  num_of-Reads : (v : Json D.Num) → Reads v (num_of D v)
  unfolding num_of
  num_of-Reads v = elim (Bool-cases (D.is_nan (D.number_of v))) [
    | inl e ↦ rw e (inr (refl, refl))
    | inr e ↦ rw e (inl (refl, refl))
  ]

  Reads-num_of : (v : Json D.Num) (n : D.Num) → Reads v n → n ≡ num_of D v
  unfolding num_of
  Reads-num_of v n (inl (e, same)) = rw e same
  Reads-num_of v n (inr (e, same)) = rw e same

  text_of-Shows : (v : Json D.Num) → Shows v (text_of D v)
  unfolding text_of
  text_of-Shows undefined = inl (inl refl, refl)
  text_of-Shows null = inl (inr refl, refl)
  text_of-Shows (bool b) = inr (λ e. cc, λ e. cc, refl)
  text_of-Shows (number n) = inr (λ e. cc, λ e. cc, refl)
  text_of-Shows (string s) = inr (λ e. cc, λ e. cc, refl)
  text_of-Shows (array vs) = inr (λ e. cc, λ e. cc, refl)
  text_of-Shows (object o) = inr (λ e. cc, λ e. cc, refl)

  text_absent :
      (v : Json D.Num) → (v ≡ undefined) ⊎ (v ≡ null) → text_of D v ≡ D.string_of (string [])
  unfolding text_of
  text_absent v (inl e) = rw e refl
  text_absent v (inr e) = rw e refl

  text_present : (v : Json D.Num) → v ≢ undefined → v ≢ null → text_of D v ≡ D.string_of v
  unfolding text_of
  text_present undefined u n = absurd (u refl)
  text_present null u n = absurd (n refl)
  text_present (bool b) u n = refl
  text_present (number x) u n = refl
  text_present (string s) u n = refl
  text_present (array vs) u n = refl
  text_present (object o) u n = refl

  Shows-text_of : (v : Json D.Num) (t : Text) → Shows v t → t ≡ text_of D v
  Shows-text_of v t (inl (absent, same)) = same ∙ sym (text_absent v absent)
  Shows-text_of v t (inr (u, n, same)) = same ∙ sym (text_present v u n)

  is_empty_iff : (v : Json D.Num) → (is_empty D v ≡ true) ↔ IsBlank v
  unfolding is_empty
  is_empty_iff undefined = (λ h. inl refl, λ h. refl)
  is_empty_iff null = (λ h. inr (inl refl), λ h. refl)
  is_empty_iff (string []) = (λ h. inr (inr refl), λ h. refl)
  is_empty_iff (string (c ∷ cs)) = (λ h. cc, ⊎_elim (λ e. cc) (λ r. ⊎_elim (λ e. cc) (λ e. cc) r))
  is_empty_iff (bool b) = (λ h. cc, ⊎_elim (λ e. cc) (λ r. ⊎_elim (λ e. cc) (λ e. cc) r))
  is_empty_iff (number n) = (λ h. cc, ⊎_elim (λ e. cc) (λ r. ⊎_elim (λ e. cc) (λ e. cc) r))
  is_empty_iff (array vs) = (λ h. cc, ⊎_elim (λ e. cc) (λ r. ⊎_elim (λ e. cc) (λ e. cc) r))
  is_empty_iff (object o) = (λ h. cc, ⊎_elim (λ e. cc) (λ r. ⊎_elim (λ e. cc) (λ e. cc) r))

  -- A relation of two numbers, at the numbers that the code reads.
  both_read :
      (p : D.Num → D.Num → Bool) (v a : Json D.Num)
      → (p (num_of D v) (num_of D a) ≡ true)
        ↔ ((n : D.Num) × (m : D.Num) × Reads v n × Reads a m × (p n m ≡ true))
  both_read p v a = (
    λ h. (num_of D v, num_of D a, num_of-Reads v, num_of-Reads a, h),
    λ h. rw (sym (Reads-num_of v h.0 h.2), sym (Reads-num_of a h.1 h.3)) (h.4),
  )

  eq_iff :
      (v a : Json D.Num)
      → (text_eq (text_of D v) (text_of D a) ≡ true) ↔ ((t : Text) × Shows v t × Shows a t)
  eq_iff v a = (
    λ h.
        let same = (text_eq_iff (text_of D v) (text_of D a)).0 h in
        (text_of D v, text_of-Shows v, rw same (text_of-Shows a)),
    λ (t, tv, ta).
        (text_eq_iff (text_of D v) (text_of D a)).1
          (sym (Shows-text_of v t tv) ∙ Shows-text_of a t ta),
  )

  ne_iff :
      (v a : Json D.Num)
      → (not (text_eq (text_of D v) (text_of D a)) ≡ true)
        ↔ ((t : Text) × (u : Text) × Shows v t × Shows a u × (t ≢ u))
  ne_iff v a = (
    λ h. (
      text_of D v,
      text_of D a,
      text_of-Shows v,
      text_of-Shows a,
      λ e. ground (arith, (text_eq_iff (text_of D v) (text_of D a)).1 e),
    ),
    λ (t, u, tv, ua, apart).
        let unequal : text_of D v ≢ text_of D a =
          λ e. apart (Shows-text_of v t tv ∙ e ∙ sym (Shows-text_of a u ua)) in
        ground (arith, text_eq_iff (text_of D v) (text_of D a)),
  )

  match_rule_cond_iff :
      (v : Json D.Num) (op : Compare) (a b : Json D.Num)
      → (match_rule_cond D v op a b ≡ true) ↔ Meets v op a b
  unfolding match_rule_cond
  match_rule_cond_iff v gt a b = both_read (λ n m. D.lt m n) v a
  match_rule_cond_iff v lt a b = both_read (λ n m. D.lt n m) v a
  match_rule_cond_iff v ge a b = both_read (λ n m. D.le m n) v a
  match_rule_cond_iff v le a b = both_read (λ n m. D.le n m) v a
  match_rule_cond_iff v eq a b = eq_iff v a
  match_rule_cond_iff v ne a b = ne_iff v a
  match_rule_cond_iff v between a b = (
    λ h. (
      num_of D v,
      num_of D a,
      num_of D b,
      num_of-Reads v,
      num_of-Reads a,
      num_of-Reads b,
      ground arith,
      ground arith,
    ),
    λ (n, m, k, rn, rm, rk, low, high).
        rw
          (
            sym (Reads-num_of v n rn),
            sym (Reads-num_of a m rm),
            sym (Reads-num_of b k rk),
            low,
            high,
          )
          refl,
  )
  match_rule_cond_iff v empty a b = is_empty_iff v
  match_rule_cond_iff v notempty a b = ground (arith, is_empty_iff v)
  match_rule_cond_iff v other a b = (λ h. sym h, λ h. sym h)

  -- What a condition compares with: the value of the field that it names, or else its fixed value.
  abbrev pub Takes : Option Text → Json D.Num → Members D.Num → Json D.Num → Type 0
  Takes none fixed values v = v ≡ fixed
  Takes (some []) fixed values v = v ≡ fixed
  Takes (some (c ∷ cs)) fixed values v = v ≡ get values (c ∷ cs)

  operand-Takes :
      (ref : Option Text) (fixed : Json D.Num) (values : Members D.Num)
      → Takes ref fixed values (operand D ref fixed values)
  unfolding operand
  operand-Takes none fixed values = refl
  operand-Takes (some []) fixed values = refl
  operand-Takes (some (c ∷ cs)) fixed values = refl

  Takes-operand :
      (ref : Option Text) (fixed : Json D.Num) (values : Members D.Num) (v : Json D.Num)
      → Takes ref fixed values v
      → v ≡ operand D ref fixed values
  unfolding operand
  Takes-operand none fixed values v h = h
  Takes-operand (some []) fixed values v h = h
  Takes-operand (some (c ∷ cs)) fixed values v h = h

  -- A condition holds of the values.
  abbrev pub Holds : Members D.Num → RuleCond D → Type 0
  Holds values c =
      (a : Json D.Num) × (b : Json D.Num) × Takes c.value_field c.value values a
      × Takes c.value2_field c.value2 values b
      × Meets (get values c.field) c.test a b

  pub holds_iff :
      (values : Members D.Num) (c : RuleCond D) → (holds D values c ≡ true) ↔ Holds values c
  unfolding holds
  holds_iff values c =
      let a = operand D c.value_field c.value values in
      let b = operand D c.value2_field c.value2 values in
      let iff = match_rule_cond_iff (get values c.field) c.test in
      (
        λ h. (
          a,
          b,
          operand-Takes c.value_field c.value values,
          operand-Takes c.value2_field c.value2 values,
          (iff a b).0 h,
        ),
        λ (x, y, tx, ty, m). (iff a b).1 (
            subst (λ z. Meets (get values c.field) c.test z b)
              (Takes-operand c.value_field c.value values x tx)
              (subst (λ z. Meets (get values c.field) c.test x z)
                (Takes-operand c.value2_field c.value2 values y ty) m)),
      )

  -- What a result of a rule is given as.
  abbrev pub Gives : Json D.Num → Json D.Num → Type 0
  Gives undefined v = v ≡ string []
  Gives null v = v ≡ string []
  Gives (string s) v =
      ((D.is_blank s ≡ false)
        × (D.is_nan (D.number_of (string s)) ≡ false)
        × (v ≡ number (D.number_of (string s))))
      ⊎ (((D.is_blank s ≡ true) ⊎ (D.is_nan (D.number_of (string s)) ≡ true)) × (v ≡ string s))
  Gives r v = v ≡ r

  pub coerce_result-Gives : (r : Json D.Num) → Gives r (coerce_result D r)
  unfolding coerce_result
  coerce_result-Gives undefined = refl
  coerce_result-Gives null = refl
  coerce_result-Gives (string s) = elim (Bool-cases (D.is_blank s)) [
    | inl e ↦ rw e (inr (inl refl, refl))
    | inr e ↦ elim (Bool-cases (D.is_nan (D.number_of (string s)))) [
      | inl n ↦ rw (e, n) (inr (inr refl, refl))
      | inr n ↦ rw (e, n) (inl (refl, refl, refl))
    ]
  ]
  coerce_result-Gives (bool b) = refl
  coerce_result-Gives (number n) = refl
  coerce_result-Gives (array vs) = refl
  coerce_result-Gives (object o) = refl
