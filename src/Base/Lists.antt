-- ===== src/Base/Lists.antt =====
-- Lists measured by native numbers, filtered by Boolean tests, and the predicate of all members.
use Prim.Native.Nat.{ℕ, zero, suc, ◌+◌, ◌≤◌}
use mathlib.Core.Path.{◌≡◌, refl, sym, subst, ap}
use mathlib.Core.Logic.{◌⊎◌, inl, inr, ⊎_elim}
use mathlib.Core.Bool.{Bool, true, false, ◌||◌}
use mathlib.Core.Option.{Option, none, some}
use mathlib.Core.List.{List, [], ◌∷◌, ◌++◌, Memᴰ}
use mathlib.Core.List.Memᴰ
use native.Mathlib.Omega.{arith}
use nocode_app.Base.Tests.{if◌then◌else◌, Bool-cases}

module _ {ℓ} {A : Type ℓ} where
  abbrev pub length : List A → ℕ
  length [] = 0
  length (x ∷ xs) = suc (length xs)

  -- `xs.slice(0, n)`
  abbrev pub take : ℕ → List A → List A
  take zero xs = []
  take (suc n) [] = []
  take (suc n) (x ∷ xs) = x ∷ take n xs

  -- `xs.slice(n)`
  abbrev pub drop : ℕ → List A → List A
  drop zero xs = xs
  drop (suc n) [] = []
  drop (suc n) (x ∷ xs) = drop n xs

  pub length-append : (xs ys : List A) → length (xs ++ ys) ≡ length xs + length ys
  length-append [] ys = omega arith
  length-append (x ∷ xs) ys = omega (arith, length-append xs ys)

  pub List-cases : (xs : List A) → (xs ≡ []) ⊎ ((x : A) × (rest : List A) × (xs ≡ x ∷ rest))
  List-cases [] = inl refl
  List-cases (x ∷ xs) = inr (x, xs, refl)

  -- `xs.filter(p)`
  unfoldable pub filter : (A → Bool) → List A → List A
  filter p [] = []
  filter p (x ∷ xs) = let rest = filter p xs in if p x then x ∷ rest else rest

  -- `xs.some(p)`
  unfoldable pub any : (A → Bool) → List A → Bool
  any p [] = false
  any p (x ∷ xs) = p x || any p xs

  -- `xs.find(p)`, and `findUnique` by a key
  unfoldable pub find : (A → Bool) → List A → Option A
  find p [] = none
  find p (x ∷ xs) = if p x then some x else find p xs

  pub length-filter-le : (p : A → Bool) (xs : List A) → length (filter p xs) ≤ length xs
  unfolding filter
  length-filter-le p [] = omega arith
  length-filter-le p (x ∷ xs) = ground (arith, length-filter-le p xs)

  -- A member of a filtered list is a member of the list that passes the test.
  pub of_filter :
      (p : A → Bool) {a : A} (xs : List A) → Memᴰ a (filter p xs) → Memᴰ a xs × (p a ≡ true)
  unfolding filter
  of_filter p [] m = absurd (Memᴰ.not-nil m)
  of_filter p (x ∷ xs) m = elim (Bool-cases (p x)) [
    | inl yes_x ↦
        ⊎_elim (λ e. (Memᴰ.head e, rw e yes_x))
          (λ t. let (m', h) = of_filter p xs t in (Memᴰ.tail m', h))
          (Memᴰ.cases_cons (rw yes_x at m))
    | inr no_x ↦ let (m', h) = of_filter p xs (rw no_x at m) in (Memᴰ.tail m', h)
  ]

  pub to_filter :
      (p : A → Bool) {a : A} (xs : List A) → Memᴰ a xs → p a ≡ true → Memᴰ a (filter p xs)
  unfolding filter
  to_filter p [] m h = absurd (Memᴰ.not-nil m)
  to_filter p (x ∷ xs) m h = elim (Memᴰ.cases_cons m) [
    | inl e ↦ rw (rw e at h) (Memᴰ.head e)
    | inr t ↦ elim (Bool-cases (p x)) [
      | inl yes_x ↦ rw yes_x (Memᴰ.tail (to_filter p xs t h))
      | inr no_x ↦ rw no_x (to_filter p xs t h)
    ]
  ]

  pub any_of_mem : (p : A → Bool) {a : A} (xs : List A) → Memᴰ a xs → p a ≡ true → any p xs ≡ true
  unfolding any
  any_of_mem p [] m h = absurd (Memᴰ.not-nil m)
  any_of_mem p (x ∷ xs) m h = elim (Memᴰ.cases_cons m) [
    | inl e ↦ rw (rw e at h)
    | inr t ↦ ground (arith, any_of_mem p xs t h)
  ]

  pub mem_of_any :
      (p : A → Bool) (xs : List A) → any p xs ≡ true → (a : A) × Memᴰ a xs × (p a ≡ true)
  unfolding any
  mem_of_any p [] h = cc
  mem_of_any p (x ∷ xs) h = elim (Bool-cases (p x)) [
    | inl yes_x ↦ (x, Memᴰ.head refl, yes_x)
    | inr no_x ↦ let (a, m, e) = mem_of_any p xs (rw no_x at h) in (a, Memᴰ.tail m, e)
  ]

  pub find-some :
      (p : A → Bool) (xs : List A) {a : A} → find p xs ≡ some a → Memᴰ a xs × (p a ≡ true)
  unfolding find
  find-some p [] h = cc
  find-some p (x ∷ xs) {a} h = elim (Bool-cases (p x)) [
    | inl yes_x ↦
        let e : x ≡ a = cc (rw yes_x at h) in (Memᴰ.head (sym e), subst (λ y. p y ≡ true) e yes_x)
    | inr no_x ↦ let (m, e) = find-some p xs (rw no_x at h) in (Memᴰ.tail m, e)
  ]

  abbrev pub take_while : (A → Bool) → List A → List A
  take_while p [] = []
  take_while p (x ∷ xs) = let rest = take_while p xs in if p x then x ∷ rest else []

  abbrev pub drop_while : (A → Bool) → List A → List A
  drop_while p [] = []
  drop_while p (x ∷ xs) = let rest = drop_while p xs in if p x then rest else x ∷ xs

  pub length-drop_while : (p : A → Bool) (xs : List A) → length (drop_while p xs) ≤ length xs
  length-drop_while p [] = omega arith
  length-drop_while p (x ∷ xs) = ground (arith, length-drop_while p xs)

module _ {ℓ} {A : Type ℓ} where
  abbrev value_or : A → Option A → A
  value_or d none = d
  value_or d (some a) = a

  pub some_inj : {a b : A} → some a ≡ some b → a ≡ b
  some_inj {a} h = ap (value_or a) h
