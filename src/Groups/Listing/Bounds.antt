-- ===== src/Groups/Listing/Bounds.antt =====
-- The sizes of pages and of paths.
use nocode_app.Base.{
  ℕ, zero, suc, ◌+◌, ◌-◌, ◌*◌, min, max, ◌≤◌, Text, Bool, Option, none, some, List, [], ◌∷◌, ◌++◌,
  filter, length, take, drop, ◌≡◌, refl, sym, ap, ◌∙◌, arith, Option-cases, inl, inr,
}
use native.Mathlib.Nat.{suc-mul}
use nocode_app.Base.Int.{ℤ}
use nocode_app.Schema.{Group, find_group}
use nocode_app.Groups.Listing.{ancestor_names, MemberRow, is_wanted, or_default, find_members}

zero_plus : (b : ℕ) → b ≡ 0 + b
zero_plus b = omega arith

suc_plus : (a b : ℕ) → suc (a + b) ≡ suc a + b
suc_plus a b = omega arith

module _ {ℓ} {A : Type ℓ} where
  length-take : (n : ℕ) (xs : List A) → length (take n xs) ≤ n
  length-take zero xs = omega arith
  length-take (suc n) [] = omega arith
  length-take (suc n) (x ∷ xs) = omega (arith, length-take n xs)

  take_none : (n : ℕ) → take {A = A} n [] ≡ []
  take_none zero = refl
  take_none (suc n) = refl

  take-drop : (a b : ℕ) (xs : List A) → take a xs ++ take b (drop a xs) ≡ take (a + b) xs
  take-drop zero b xs = ap (λ n. take n xs) (zero_plus b)
  take-drop (suc a) b (x ∷ xs) =
      ap (λ t. x ∷ t) (take-drop a b xs) ∙ ap (λ n. take n (x ∷ xs)) (suc_plus a b)
  take-drop (suc a) b [] = take_none b ∙ sym (take_none (suc a + b))

ancestors_bound :
    (turns : ℕ) (groups : List Group) (parent : Option Text) (path : List Text)
    → length (ancestor_names turns groups parent path) ≤ turns + length path
unfolding ancestor_names
ancestors_bound zero groups parent path = omega arith
ancestors_bound (suc turns) groups none path = omega arith
ancestors_bound (suc turns) groups (some []) path = omega arith
ancestors_bound (suc turns) groups (some (c ∷ cs)) path =
    elim (Option-cases (find_group groups (c ∷ cs))) [
      | inl gone ↦ rw (ancestor_names, gone) (omega arith)
      | inr (g, there) ↦
          rw (ancestor_names, there)
            (omega (arith, ancestors_bound turns groups g.parent_id (g.name ∷ path)))
    ]

less_one : (k : ℕ) → suc k - 1 ≡ k
less_one k = omega arith

page_end : (n s : ℕ) → 1 ≤ n → (n - 1) * s + s ≡ n * s
page_end zero s h = absurd (omega arith)
page_end (suc k) s h = ap (λ m. m * s + s) (less_one k) ∙ sym (suc-mul k s)

-- A page of members is the page that was asked for, the first where none or one below 1 was, and of the size that
-- was asked for, 50 where none was, but at least 1 and at most 200. It holds no more than that, and is the stretch of the
-- sorted members that follows the pages before it: those before it and it are the first `page` pages together.
-- The total counts the members on all the pages.
pub find_members_bounds :
    (by_login : List MemberRow → List MemberRow) (contains : Text → Text → Bool)
    (users : List MemberRow) (group_id q : Text) (page page_size : Option ℤ)
    → let answer = find_members by_login contains users group_id q page page_size in
      let sorted = by_login (filter (is_wanted by_login contains group_id q) users) in
      (answer.page ≡ max 1 (or_default page 1))
      × (answer.page_size ≡ min 200 (max 1 (or_default page_size 50)))
      × (answer.total ≡ length (filter (is_wanted by_login contains group_id q) users))
      × (length answer.items ≤ answer.page_size)
      × (take ((answer.page - 1) * answer.page_size) sorted ++ answer.items
          ≡ take (answer.page * answer.page_size) sorted)
unfolding find_members
find_members_bounds by_login contains users group_id q page page_size =
    let number = max 1 (or_default page 1) in
    let size = min 200 (max 1 (or_default page_size 50)) in
    let sorted = by_login (filter (is_wanted by_login contains group_id q) users) in
    (
      refl,
      refl,
      refl,
      length-take size _,
      take-drop ((number - 1) * size) size sorted
          ∙ ap (λ n. take n sorted) (page_end number size (omega arith)),
    )
