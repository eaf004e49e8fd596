-- ===== src/Base/Strings.antt =====
-- Text: a JavaScript string is the list of its UTF-16 code units.
use Prim.Native.Nat.{ℕ}
use Prim.Native.Char.{code}
use Prim.Native.String.{String}
use mathlib.Core.Path.{◌≡◌, refl}
use mathlib.Core.Logic.{◌↔◌, ◌⊎◌, inl, inr}
use mathlib.Core.Bool.{Bool, true, false, ◌&&◌, ◌||◌}
use mathlib.Core.Option.{Option, none, some}
use mathlib.Core.List.{List, [], ◌∷◌, ◌++◌}
use native.Mathlib.Omega.{arith}
use nocode_app.Base.Tests.{◌==◌, Bool-cases, if◌then◌else◌}

abbrev pub Text : Type 0
Text = List ℕ

-- The code units of a literal, which is ASCII wherever it is used.
abbrev pub codes : String → Text
codes String.[] = []
codes (String.◌∷◌ c s) = code c ∷ codes s

-- `a === b`
unfoldable pub text_eq : Text → Text → Bool
text_eq [] [] = true
text_eq (x ∷ xs) (y ∷ ys) = x == y && text_eq xs ys
text_eq _ _ = false

pub text_eq_iff : (a b : Text) → (text_eq a b ≡ true) ↔ (a ≡ b)
unfolding text_eq
text_eq_iff [] [] = ground arith
text_eq_iff (x ∷ xs) (y ∷ ys) = ground (arith, text_eq_iff xs ys)
text_eq_iff [] (y ∷ ys) = ground arith
text_eq_iff (x ∷ xs) [] = ground arith

pub text_eq_refl : (a : Text) → text_eq a a ≡ true
text_eq_refl a = (text_eq_iff a a).1 refl

-- `xs.includes(a)`, `new Set(xs).has(a)`
unfoldable pub has : List Text → Text → Bool
has [] a = false
has (x ∷ xs) a = text_eq x a || has xs a

pub has-append_eq : (xs ys : List Text) (a : Text) → has (xs ++ ys) a ≡ (has xs a || has ys a)
unfolding has
has-append_eq [] ys a = refl
has-append_eq (x ∷ xs) ys a = ground (arith, has-append_eq xs ys a)

pub has-append :
    (xs ys : List Text) (a : Text)
    → (has (xs ++ ys) a ≡ true) ↔ ((has xs a ≡ true) ⊎ (has ys a ≡ true))
has-append xs ys a = ground (arith, has-append_eq xs ys a)

pub has-singleton : (x a : Text) → has (x ∷ []) a ≡ text_eq x a
unfolding has
has-singleton x a = ground arith

-- No text occurs twice.
abbrev pub NoDup : List Text → Type 0
NoDup [] = Unit
NoDup (x ∷ xs) = (has xs x ≡ false) × NoDup xs

pub NoDup-concat : (xs : List Text) (a : Text) → has xs a ≡ false → NoDup xs → NoDup (xs ++ a ∷ [])
unfolding has
NoDup-concat [] a h n = (refl, tt)
NoDup-concat (x ∷ xs) a h n = (
  ground (arith, has-append_eq xs (a ∷ []) x, has-singleton a x, text_eq_iff a x, text_eq_iff x a),
  NoDup-concat xs a (ground arith) n.1,
)

-- `!!s` of a nullable column: neither null nor the empty string.
unfoldable pub present : Option Text → Bool
present none = false
present (some []) = false
present (some (c ∷ cs)) = true

-- `a === s` for a nullable column `a`.
unfoldable pub opt_text_eq : Option Text → Text → Bool
opt_text_eq none s = false
opt_text_eq (some a) s = text_eq a s

pub opt_text_eq_iff : (o : Option Text) (s : Text) → (opt_text_eq o s ≡ true) ↔ (o ≡ some s)
unfolding opt_text_eq
opt_text_eq_iff none s = ground arith
opt_text_eq_iff (some a) s = ground (arith, text_eq_iff a s)

-- `new Set(ids)` and `ids.add(id)`
unfoldable pub add_id : List Text → Text → List Text
add_id ids id = if has ids id then ids else ids ++ id ∷ []

unfoldable pub to_set : List Text → List Text → List Text
to_set seen [] = seen
to_set seen (id ∷ ids) = to_set (add_id seen id) ids

pub has-add_id :
    (ids : List Text) (id a : Text) → has (add_id ids id) a ≡ (has ids a || text_eq id a)
unfolding add_id
has-add_id ids id a =
    ground (arith, has-append_eq ids (id ∷ []) a, has-singleton id a, text_eq_iff id a)

pub has-to_set :
    (seen ids : List Text) (a : Text) → has (to_set seen ids) a ≡ (has seen a || has ids a)
unfolding to_set has
has-to_set seen [] a = ground arith
has-to_set seen (id ∷ ids) a =
    ground (arith, has-to_set (add_id seen id) ids a, has-add_id seen id a)

pub NoDup-add_id : (ids : List Text) (id : Text) → NoDup ids → NoDup (add_id ids id)
unfolding add_id
NoDup-add_id ids id n = elim (Bool-cases (has ids id)) [
  | inl old ↦ rw old n
  | inr new ↦ rw new (NoDup-concat ids id new n)
]

pub NoDup-to_set : (seen ids : List Text) → NoDup seen → NoDup (to_set seen ids)
unfolding to_set
NoDup-to_set seen [] n = n
NoDup-to_set seen (id ∷ ids) n = NoDup-to_set (add_id seen id) ids (NoDup-add_id seen id n)
