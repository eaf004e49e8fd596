-- ===== src/Definition/Codes.antt =====
-- slugCode of app-definition.util.ts: the loop ends, and the code is one that no field has.
use nocode_app.Base.{
  ℕ, zero, suc, ◌≤◌, ◌<◌, Text, codes, text_eq, text_eq_iff, has, Bool, true, false, not, ◌&&◌,
  some, List, [], ◌∷◌, ◌++◌, filter, length, length-append, ◌≡◌, ◌≢◌, ◌⊎◌, inl, inr, refl, sym, ap,
  ◌∙◌, arith, Bool-cases, some_inj,
}
use nocode_app.Formula.Tokens.{is_letter, is_word}
use nocode_app.Json.{Json}
use nocode_app.Definition.Shape.{Host}
use nocode_app.Definition.{as_string, code_base, led, numbered, free_code, slug_code}

-- /^[A-Za-z0-9_]*$/ and /^[A-Za-z_][A-Za-z0-9_]*$/
abbrev pub all_words : Text → Bool
all_words [] = true
all_words (c ∷ cs) = is_word c && all_words cs

abbrev pub is_identifier : Text → Bool
is_identifier [] = false
is_identifier (c ∷ cs) = is_letter c && all_words cs

words-append : (a b : Text) → all_words a ≡ true → all_words b ≡ true → all_words (a ++ b) ≡ true
words-append [] b h1 h2 = h2
words-append (c ∷ cs) b h1 h2 = ground (arith, words-append cs b)

words-filter : (t : Text) → all_words (filter is_word t) ≡ true
unfolding filter
words-filter [] = refl
words-filter (c ∷ cs) = elim (Bool-cases (is_word c)) [
  | inl e ↦ rw (e, e) (words-filter cs)
  | inr e ↦ rw e (words-filter cs)
]

identifier-append :
    (a b : Text) → is_identifier a ≡ true → all_words b ≡ true → is_identifier (a ++ b) ≡ true
identifier-append [] b h1 h2 = cc
identifier-append (c ∷ cs) b h1 h2 = ground (arith, words-append cs b)

-- The texts of a list but one.
abbrev without : Text → List Text → List Text
without t ts = filter (λ u. not (text_eq u t)) ts

has-without : (t a : Text) (ts : List Text) → t ≢ a → has (without t ts) a ≡ has ts a
unfolding filter has
has-without t a [] h = refl
has-without t a (u ∷ us) h = elim (Bool-cases (text_eq u t)) [
  | inl e ↦ rw e (ground (arith, has-without t a us h, text_eq_iff u t, text_eq_iff u a))
  | inr e ↦ rw e (ground (arith, has-without t a us h))
]

without-shorter : (t : Text) (ts : List Text) → length (without t ts) ≤ length ts
unfolding filter
without-shorter t [] = omega arith
without-shorter t (u ∷ us) = ground (arith, without-shorter t us)

without-shortens :
    (t : Text) (ts : List Text) → has ts t ≡ true → suc (length (without t ts)) ≤ length ts
unfolding filter has
without-shortens t [] h = cc
without-shortens t (u ∷ us) h = elim (Bool-cases (text_eq u t)) [
  | inl e ↦ rw e (ground (arith, without-shorter t us))
  | inr e ↦ rw e (ground (arith, without-shortens t us))
]

abbrev rest_of : Text → Text
rest_of [] = []
rest_of (c ∷ cs) = cs

append_cancel : (s a b : Text) → s ++ a ≡ s ++ b → a ≡ b
append_cancel [] a b h = h
append_cancel (c ∷ cs) a b h = append_cancel cs a b (ap rest_of h)

module _ (H : Host) where
  -- Two sets of used codes that agree on all codes to come.
  free_code-agree :
      (fuel : ℕ) (used used' : List Text) (s code : Text) (n : ℕ)
      → has used code ≡ has used' code
      → ((m : ℕ) → n ≤ m → has used (numbered H s m) ≡ has used' (numbered H s m))
      → free_code H fuel used s code n ≡ free_code H fuel used' s code n
  unfolding free_code
  free_code-agree zero used used' s code n h later = refl
  free_code-agree (suc fuel) used used' s code n h later =
      rw
        (
          h,
          free_code-agree fuel used used' s (numbered H s n) (suc n) (later n (omega arith))
              (λ m m_le. later m (omega arith)),
        )
        refl

  found_free :
      (fuel : ℕ) (used : List Text) (s code : Text) (n : ℕ) {c : Text}
      → free_code H fuel used s code n ≡ some c
      → (has used c ≡ false) × ((c ≡ code) ⊎ ((m : ℕ) × (c ≡ numbered H s m)))
  unfolding free_code
  found_free zero used s code n h = cc
  found_free (suc fuel) used s code n h = elim (Bool-cases (has used code)) [
    | inl e ↦
        let (is_free, from) = found_free fuel used s (numbered H s n) (suc n) (rw e at h) in
        (is_free, inr (elim from [ inl same ↦ (n, same) | inr other ↦ other ]))
    | inr e ↦ let same = some_inj (rw e at h) in (rw (sym same) e, inl (sym same))
  ]

  module _ (distinct : (m n : ℕ) → H.show m ≡ H.show n → m ≡ n) where
    numbered_apart : (s : Text) (m n : ℕ) → m ≢ n → numbered H s m ≢ numbered H s n
    numbered_apart s m n h e = h (
        distinct m n
          (ap rest_of (append_cancel s (codes "_" ++ H.show m) (codes "_" ++ H.show n) e)))

    free_code_total :
        (fuel : ℕ) (used : List Text) (s code : Text) (n : ℕ)
        → length used < fuel
        → ((m : ℕ) → n ≤ m → code ≢ numbered H s m)
        → (c : Text) × (free_code H fuel used s code n ≡ some c)
    unfolding free_code
    free_code_total zero used s code n h apart = absurd (omega arith)
    free_code_total (suc fuel) used s code n h apart = elim (Bool-cases (has used code)) [
      | inr e ↦ (code, rw e refl)
      | inl e ↦
          let (c, found) =
            free_code_total fuel (without code used) s (numbered H s n) (suc n)
              (omega (arith, without-shortens code used e))
              (λ m m_le. numbered_apart s n m (λ z. absurd (omega arith))) in
          (
            c,
            rw e (
                free_code-agree fuel used (without code used) s (numbered H s n) (suc n)
                  (sym (has-without code (numbered H s n) used (apart n (omega arith))))
                  (λ m m_le. sym (has-without code (numbered H s m) used (apart m (omega arith))))
                ∙ found),
          )
    ]

    module _ (digits : (n : ℕ) → all_words (H.show n) ≡ true) where
      led-identifier :
          (index : ℕ) (t : Text) → all_words t ≡ true → is_identifier (led H index t) ≡ true
      unfolding is_letter is_word
      led-identifier index [] h = digits (suc index)
      led-identifier index (c ∷ cs) h = elim (Bool-cases (is_letter c)) [
        | inl e ↦ rw (e, e) (ground arith)
        | inr e ↦ rw e h
      ]

      suffix_words : (m : ℕ) → all_words (codes "_" ++ H.show m) ≡ true
      unfolding is_letter is_word
      suffix_words m = digits m

      base_apart : (s : Text) (m : ℕ) → s ≢ numbered H s m
      base_apart s m e =
          let same : length s ≡ length (s ++ (codes "_" ++ H.show m)) = ap length e in
          absurd (omega (arith, same, length-append s (codes "_" ++ H.show m)))

      -- Where the texts of numbers differ and hold only digits or letters: slugCode ends after at most two
      -- turns more than there are used codes, with an identifier that is not among them.
      pub slug_code_total :
          (raw : Json H.double.Num) (index : ℕ) (used : List Text)
          → (code : Text) × (slug_code H raw index used ≡ some code)
            × (has used code ≡ false)
            × (is_identifier code ≡ true)
      unfolding slug_code code_base
      slug_code_total raw index used =
          let s = code_base H raw index in
          let named =
            led-identifier index (filter is_word (as_string H 100 raw))
              (words-filter (as_string H 100 raw)) in
          let (c, found) =
            free_code_total (suc (suc (length used))) used s s 2 (omega arith)
              (λ m h. base_apart s m) in
          let (is_free, from) = found_free (suc (suc (length used))) used s s 2 found in
          (
            c,
            found,
            is_free,
            elim from [
              | inl same ↦ rw same named
              | inr (m, same) ↦
                  rw same (identifier-append s (codes "_" ++ H.show m) named (suffix_words m))
            ],
          )
