-- ===== src/Formula/Tokens.antt =====
-- The tokenizer of compute.util.ts.
use nocode_app.Base.{
  ℕ, zero, suc, ◌≤◌, Text, Bool, true, ◌&&◌, ◌||◌, List, [], ◌∷◌, ◌++◌, if◌then◌else◌, leb, ◌==◌,
  length, arith, ◌≡◌, refl, ◌≢◌, Bool-cases, Option, none, some, Option-cases, inl, inr, take_while,
  drop_while, length-drop_while,
}

-- A parse that returned, that threw an error, or that the model cut off.
pub data Parsed (A : Type 0) : Type 0 where
  done : A → Parsed A
  thrown no_fuel : Parsed A

infixl 5 ◌>>=◌
abbrev pub ◌>>=◌ : {A B : Type 0} → Parsed A → (A → Parsed B) → Parsed B
done a >>= k = k a
thrown >>= k = thrown
no_fuel >>= k = no_fuel

pub data Op : Type 0 where
  plus minus times slash gt lt ge le eq ne : Op

-- `Tok`: the kind and the text in one; a parenthesis is `paren_open` or `paren_close`.
pub data Tok : Type 0 where
  num ident : Text → Tok
  op : Op → Tok
  paren_open paren_close comma : Tok

abbrev pub between : ℕ → ℕ → ℕ → Bool
between a b c = leb a c && leb c b

-- /[0-9.]/
unfoldable pub is_numeric : ℕ → Bool
is_numeric c = between 48 57 c || c == 46

-- /[A-Za-z_]/
unfoldable pub is_letter : ℕ → Bool
is_letter c = between 65 90 c || between 97 122 c || c == 95

-- /[A-Za-z0-9_]/
unfoldable pub is_word : ℕ → Bool
is_word c = is_letter c || between 48 57 c

-- The column of `items.amount`, where a dot and a letter follow the name: the text to add, and what is
-- left.
unfoldable pub column_after : Text → Text × Text
column_after (dot ∷ c ∷ cs) =
    if dot == 46 && is_letter c
    then (dot ∷ take_while is_word (c ∷ cs), drop_while is_word (c ∷ cs))
    else ([], dot ∷ c ∷ cs)
column_after cs = ([], cs)

unfoldable pub read_ident : Text → Text × Text
read_ident cs =
    let (column, rest) = column_after (drop_while is_word cs) in
    (take_while is_word cs ++ column, rest)

unfoldable pub arithmetic : ℕ → Option Tok
arithmetic c =
    if c == 43
    then some (op plus)
    else if c == 45
    then some (op minus)
    else if c == 42
    then some (op times)
    else if c == 47
    then some (op slash)
    else if c == 40
    then some paren_open
    else if c == 41
    then some paren_close
    else if c == 44
    then some comma
    else none

-- With `=` after it.
unfoldable pub with_equals : ℕ → Option Tok
with_equals c =
    if c == 60
    then some (op le)
    else if c == 62
    then some (op ge)
    else if c == 61
    then some (op eq)
    else if c == 33
    then some (op ne)
    else none

unfoldable pub alone : ℕ → Option Tok
alone c = if c == 60 then some (op lt) else if c == 62 then some (op gt) else none

-- The token with the text after it; the source throws where there is none.
abbrev pub take : Option Tok → Text → Parsed (Tok × Text)
take none rest = thrown
take (some t) rest = done (t, rest)

unfoldable pub read_comparison : ℕ → Text → Parsed (Tok × Text)
read_comparison c [] = take (alone c) []
read_comparison c (e ∷ rest) =
    if e == 61 then take (with_equals c) rest else take (alone c) (e ∷ rest)

-- The operators: the token, and what follows it.
unfoldable pub read_op : ℕ → Text → Parsed (Tok × Text)
read_op c rest = elim (arithmetic c) [ none ↦ read_comparison c rest | some t ↦ done (t, rest) ]

unfoldable pub read_number : Text → Text × Text
read_number cs = (take_while is_numeric cs, drop_while is_numeric cs)

-- `toks.push(t)` before the rest of the loop.
abbrev pub prepend : Tok → Parsed (List Tok) → Parsed (List Tok)
prepend t m = m >>= λ ts. done (t ∷ ts)

-- The `while` of tokenize.
unfoldable pub tokenize : ℕ → Text → Parsed (List Tok)
tokenize n [] = done []
tokenize zero (c ∷ cs) = no_fuel
tokenize (suc n) (c ∷ cs) =
    if c == 32 || c == 9
    then tokenize n cs
    else if is_numeric c
    then prepend (num (read_number (c ∷ cs)).0) (tokenize n (read_number (c ∷ cs)).1)
    else if is_letter c
    then prepend (ident (read_ident (c ∷ cs)).0) (tokenize n (read_ident (c ∷ cs)).1)
    else (read_op c cs >>= λ r. prepend r.0 (tokenize n r.1))

-- Enough fuel: no step leaves more text than it was given.
rest_lt :
    (f : ℕ → Bool) (c : ℕ) (cs : Text) → f c ≡ true → length (drop_while f (c ∷ cs)) ≤ length cs
rest_lt f c cs h = ground (arith, length-drop_while f cs)

length-column_after : (cs : Text) → length (column_after cs).1 ≤ length cs
unfolding column_after
length-column_after [] = omega arith
length-column_after (a ∷ []) = omega arith
length-column_after (a ∷ c ∷ cs) = ground (arith, length-drop_while is_word (c ∷ cs))

length-read_ident :
    (c : ℕ) (cs : Text) → is_letter c ≡ true → length (read_ident (c ∷ cs)).1 ≤ length cs
unfolding read_ident
length-read_ident c cs h = omega (
  arith,
  length-column_after (drop_while is_word (c ∷ cs)),
  rest_lt is_word c cs (unfold is_word in rw h),
)

length-read_number :
    (c : ℕ) (cs : Text) → is_numeric c ≡ true → length (read_number (c ∷ cs)).1 ≤ length cs
unfolding read_number
length-read_number c cs h = rest_lt is_numeric c cs h

-- What a step leaves is no longer than `k`, and the step came to an end.
abbrev Left : ℕ → Parsed (Tok × Text) → Type 0
Left k (done r) = length r.1 ≤ k
Left k thrown = Unit
Left k no_fuel = ⊥

take-Left : (k : ℕ) (o : Option Tok) (rest : Text) → length rest ≤ k → Left k (take o rest)
take-Left k none rest h = tt
take-Left k (some t) rest h = h

read_op-Left : (c : ℕ) (cs : Text) → Left (length cs) (read_op c cs)
unfolding read_op read_comparison
read_op-Left c [] = elim (Option-cases (arithmetic c)) [
  | inl other ↦ rw (Left, other) (take-Left 0 (alone c) [] (omega arith))
  | inr (t, e) ↦ rw (Left, e) (omega arith)
]
read_op-Left c (e ∷ cs) = elim (Option-cases (arithmetic c)) [
  | inl other ↦ elim (Bool-cases (e == 61)) [
    | inl two ↦ rw (Left, other, two) (take-Left (suc (length cs)) (with_equals c) cs (omega arith))
    | inr one ↦ rw (Left, other, one) (take-Left (suc (length cs)) (alone c) (e ∷ cs) (omega arith))
  ]
  | inr (t, same) ↦ rw (Left, same) (omega arith)
]

prepend-fuel : (t : Tok) (m : Parsed (List Tok)) → m ≢ no_fuel → prepend t m ≢ no_fuel
prepend-fuel t (done a) h e = cc
prepend-fuel t thrown h e = cc
prepend-fuel t no_fuel h e = absurd (h refl)

op-fuel :
    (k : ℕ) (m : Parsed (Tok × Text)) (f : Text → Parsed (List Tok))
    → Left k m
    → ((cs : Text) → length cs ≤ k → f cs ≢ no_fuel)
    → (m >>= λ r. prepend r.0 (f r.1)) ≢ no_fuel
op-fuel k (done r) f h all = prepend-fuel r.0 (f r.1) (all r.1 h)
op-fuel k thrown f h all = λ e. cc
op-fuel k no_fuel f h all = absurd h

-- The tokenizer always comes to an end: with as much fuel as there are characters it returns or throws.
pub tokenize_ends : (n : ℕ) (cs : Text) → length cs ≤ n → tokenize n cs ≢ no_fuel
unfolding tokenize
tokenize_ends n [] h = λ e. cc
tokenize_ends zero (c ∷ cs) h = absurd (omega arith)
tokenize_ends (suc n) (c ∷ cs) h = elim (Bool-cases (c == 32 || c == 9)) [
  | inl space ↦ rw space (tokenize_ends n cs (omega arith))
  | inr ink ↦ elim (Bool-cases (is_numeric c)) [
    | inl digit ↦
        rw (ink, digit)
          (prepend-fuel (num (read_number (c ∷ cs)).0) (tokenize n (read_number (c ∷ cs)).1) (
            tokenize_ends n (read_number (c ∷ cs)).1
              (omega (arith, length-read_number c cs digit))))
    | inr other ↦ elim (Bool-cases (is_letter c)) [
      | inl letter ↦
          rw (ink, other, letter)
            (prepend-fuel (ident (read_ident (c ∷ cs)).0) (tokenize n (read_ident (c ∷ cs)).1) (
              tokenize_ends n (read_ident (c ∷ cs)).1
                (omega (arith, length-read_ident c cs letter))))
      | inr sign ↦
          rw (ink, other, sign)
            (op-fuel (length cs) (read_op c cs) (tokenize n) (read_op-Left c cs)
              (λ rest le. tokenize_ends n rest (omega arith)))
    ]
  ]
]
