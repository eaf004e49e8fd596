-- ===== src/Base/Keys.antt =====
-- Tables with a text key: a lookup by the key, and the set of the keys.
use mathlib.Core.List.Memᴰ
use mathlib.Core.Path.{◌≡◌, refl, sym, ap, subst}
use mathlib.Core.Logic.{inl, inr}
use mathlib.Core.Bool.{true, ◌||◌}
use mathlib.Core.Option.{some}
use mathlib.Core.List.{List, [], ◌∷◌, map, Memᴰ}
use nocode_app.Base.Tests.{Bool-cases}
use nocode_app.Base.Lists.{any, find, find-some, any_of_mem, mem_of_any}
use nocode_app.Base.Strings.{Text, text_eq, text_eq_iff, text_eq_refl, has, NoDup}

module _ {ℓ} {A : Type ℓ} (key : A → Text) where
  pub has-map : (xs : List A) (id : Text) → has (map key xs) id ≡ any (λ a. text_eq (key a) id) xs
  unfolding has any
  has-map [] id = refl
  has-map (x ∷ xs) id = ap (λ b. text_eq (key x) id || b) (has-map xs id)

  pub has-map_of_mem : (xs : List A) (a : A) → Memᴰ a xs → has (map key xs) (key a) ≡ true
  has-map_of_mem xs a m =
      rw has-map (any_of_mem (λ x. text_eq (key x) (key a)) xs m (text_eq_refl (key a)))

  pub mem_of_has-map :
      (xs : List A) (id : Text) → has (map key xs) id ≡ true → (a : A) × Memᴰ a xs × (key a ≡ id)
  mem_of_has-map xs id h =
      let (a, m, e) = mem_of_any (λ x. text_eq (key x) id) xs (rw has-map at h) in
      (a, m, (text_eq_iff (key a) id).0 e)

  -- Where keys are unique, the row of a key is the one that a lookup finds.
  pub find_unique :
      (xs : List A) (a : A)
      → NoDup (map key xs)
      → Memᴰ a xs
      → find (λ x. text_eq (key x) (key a)) xs ≡ some a
  unfolding find
  find_unique [] a n m = absurd (Memᴰ.not-nil m)
  find_unique (x ∷ xs) a n m = elim (Memᴰ.cases_cons m) [
    | inl e ↦ rw (e, text_eq_refl)
    | inr t ↦ elim (Bool-cases (text_eq (key x) (key a))) [
      | inl same ↦
          let e : key x ≡ key a = (text_eq_iff (key x) (key a)).0 same in
          cc (n.0, subst (λ k. has (map key xs) k ≡ true) (sym e) (has-map_of_mem xs a t))
      | inr other ↦ rw other (find_unique xs a n.1 t)
    ]
  ]

  pub find-key :
      (xs : List A) (id : Text) {a : A}
      → find (λ x. text_eq (key x) id) xs ≡ some a
      → Memᴰ a xs × (key a ≡ id)
  find-key xs id {a} h =
      let (m, e) = find-some (λ x. text_eq (key x) id) xs h in (m, (text_eq_iff (key a) id).0 e)

  pub has_of_find :
      (xs : List A) (id : Text) {a : A}
      → find (λ x. text_eq (key x) id) xs ≡ some a
      → has (map key xs) id ≡ true
  has_of_find xs id {a} h =
      let (m, e) = find-key xs id h in
      subst (λ k. has (map key xs) k ≡ true) e (has-map_of_mem xs a m)

  pub find_of_has :
      (xs : List A) (id : Text)
      → has (map key xs) id ≡ true
      → (a : A) × (find (λ x. text_eq (key x) id) xs ≡ some a)
  unfolding has find
  find_of_has [] id h = cc
  find_of_has (x ∷ xs) id h = elim (Bool-cases (text_eq (key x) id)) [
    | inl same ↦ (x, rw same)
    | inr other ↦ let (a, e) = find_of_has xs id (rw other at h) in (a, rw other e)
  ]
