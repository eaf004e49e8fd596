-- ===== src/Notices/Delivery.antt =====
-- To whom notifyMany delivers, and what reading does to the count of the unread.
use mathlib.Core.List
use nocode_app.Base.{
  ℕ, suc, ◌+◌, Text, text_eq, text_eq_iff, has, has-to_set, NoDup, NoDup-to_set, to_set, Bool, true,
  false, not, ◌&&◌, List, [], ◌∷◌, ◌++◌, map, filter, length, if◌then◌else◌, ◌≡◌, refl, sym, ap,
  subst, ◌∙◌, arith, Bool-cases, inl, inr,
}
use nocode_app.Notices.{
  Notification, Notice, has_no_text, is_actor, row_for, notify, notify_each, notify_many,
}

-- The receivers of the rows that were added, in their order.
abbrev pub receivers : List Notification → List Text
receivers rows = map (λ row. row.user_id) rows

same_test : (p : Text → Bool) (x a : Text) → text_eq x a ≡ true → p x ≡ p a
same_test p x a h = ap p ((text_eq_iff x a).0 h)

has-filter : (p : Text → Bool) (xs : List Text) (a : Text) → has (filter p xs) a ≡ (has xs a && p a)
unfolding has filter
has-filter p [] a = refl
has-filter p (x ∷ xs) a = elim (Bool-cases (p x)) [
  | inl e ↦ rw e (ground (arith, has-filter p xs a, text_eq_iff x a, same_test p x a, e))
  | inr e ↦ rw e (ground (arith, has-filter p xs a, text_eq_iff x a, same_test p x a, e))
]

NoDup-filter : (p : Text → Bool) (xs : List Text) → NoDup xs → NoDup (filter p xs)
unfolding filter
NoDup-filter p [] h = tt
NoDup-filter p (x ∷ xs) h = elim (Bool-cases (p x)) [
  | inl e ↦ rw e (ground (arith, has-filter p xs x, h.0), NoDup-filter p xs h.1)
  | inr e ↦ rw e (NoDup-filter p xs h.1)
]

abbrev NoneEmpty : List Text → Type 0
NoneEmpty [] = Unit {0}
NoneEmpty (u ∷ us) = (has_no_text u ≡ false) × NoneEmpty us

filter-NoneEmpty : (us : List Text) → NoneEmpty (filter (λ u. not (has_no_text u)) us)
unfolding filter
filter-NoneEmpty [] = tt
filter-NoneEmpty ([] ∷ us) = filter-NoneEmpty us
filter-NoneEmpty ((c ∷ cs) ∷ us) = (refl, filter-NoneEmpty us)

module _ (fresh : ℕ → Text) (n : Notice) where
  abbrev pub accepts_all : Notification → Bool
  accepts_all row = true

  -- What a loop over users, none of them empty, has added.
  record Delivered (users : List Text) (rows : List Notification) (sent : ℕ) : Type 0 where
    added : List Notification
    behind : (notify_each accepts_all fresh users n rows sent).0 ≡ rows ++ added
    to_them : receivers added ≡ filter (λ u. not (is_actor n u)) users
    counted : (notify_each accepts_all fresh users n rows sent).1 ≡ sent + length added

  notify_new :
      (u : Text) (rows : List Notification)
      → has_no_text u ≡ false
      → is_actor n u ≡ false
      → notify accepts_all fresh u n rows ≡ rows ++ row_for (fresh (length rows)) u n ∷ []
  unfolding notify
  notify_new u rows h e = rw (h, e) refl

  -- One turn, by the answer of its test.
  abbrev turn : Text → List Text → List Notification → ℕ → Bool → List Notification × ℕ
  turn u us rows sent skipped =
      notify_each accepts_all fresh us n
        (if skipped then rows else notify accepts_all fresh u n rows)
        (if skipped then sent else suc sent)

  each_skip :
      (u : Text) (us : List Text) (rows : List Notification) (sent : ℕ)
      → is_actor n u ≡ true
      → notify_each accepts_all fresh (u ∷ us) n rows sent
        ≡ notify_each accepts_all fresh us n rows sent
  unfolding notify_each
  each_skip u us rows sent e = ap (turn u us rows sent) e

  each_send :
      (u : Text) (us : List Text) (rows : List Notification) (sent : ℕ)
      → has_no_text u ≡ false
      → is_actor n u ≡ false
      → notify_each accepts_all fresh (u ∷ us) n rows sent
        ≡ notify_each accepts_all fresh us n
            (rows ++ row_for (fresh (length rows)) u n ∷ [])
            (suc sent)
  unfolding notify_each
  each_send u us rows sent h e =
      ap (turn u us rows sent) e
      ∙ ap (λ r. notify_each accepts_all fresh us n r (suc sent)) (notify_new u rows h e)

  each_nil :
      (rows : List Notification) (sent : ℕ)
      → notify_each accepts_all fresh [] n rows sent ≡ (rows, sent)
  unfolding notify_each
  each_nil rows sent = refl

  each-Delivered :
      (users : List Text) (rows : List Notification) (sent : ℕ)
      → NoneEmpty users
      → Delivered users rows sent
  unfolding filter
  each-Delivered [] rows sent h = record {
    added = [];
    behind = ap (λ o. o.0) (each_nil rows sent) ∙ sym (List.append-nil rows);
    to_them = refl;
    counted = ap (λ o. o.1) (each_nil rows sent) ∙ omega arith;
  }
  each-Delivered (u ∷ us) rows sent h = elim (Bool-cases (is_actor n u)) [
    | inl e ↦
        let d = each-Delivered us rows sent h.1 in
        record {
          added = d.added;
          behind = ap (λ o. o.0) (each_skip u us rows sent e) ∙ d.behind;
          to_them = rw e d.to_them;
          counted = ap (λ o. o.1) (each_skip u us rows sent e) ∙ d.counted;
        }
    | inr e ↦
        let row = row_for (fresh (length rows)) u n in
        let d = each-Delivered us (rows ++ row ∷ []) (suc sent) h.1 in
        record {
          added = row ∷ d.added;
          behind =
              ap (λ o. o.0) (each_send u us rows sent h.0 e)
              ∙ d.behind
              ∙ List.append_assoc rows (row ∷ []) d.added;
          to_them = rw e (ap (λ xs. u ∷ xs) d.to_them);
          counted = ap (λ o. o.1) (each_send u us rows sent h.0 e) ∙ d.counted ∙ omega arith;
        }
  ]

  -- Where the database takes every row, notifyMany adds one notification, behind those that stand, for each
  -- user of the list but once, leaving out the empty ones and the one who acts, and returns their number.
  pub notify_many_exact :
      (users : List Text) (rows : List Notification)
      → (added : List Notification) × ((notify_many accepts_all fresh users n rows).0
          ≡ rows ++ added)
        × ((notify_many accepts_all fresh users n rows).1 ≡ length added)
        × NoDup (receivers added)
        × ((u : Text)
            → has (receivers added) u ≡ (has users u && not (has_no_text u) && not (is_actor n u)))
  unfolding notify_many has
  notify_many_exact users rows =
      let some_users = filter (λ u. not (has_no_text u)) (to_set [] users) in
      let d = each-Delivered some_users rows 0 (filter-NoneEmpty (to_set [] users)) in
      (
        d.added,
        d.behind,
        d.counted ∙ omega arith,
        subst NoDup (sym d.to_them) (
            NoDup-filter _ some_users
              (NoDup-filter _ (to_set [] users) (NoDup-to_set [] users tt))),
        λ u. rw d.to_them (
            ground (
              arith,
              has-filter (λ v. not (is_actor n v)) some_users u,
              has-filter (λ v. not (has_no_text v)) (to_set [] users) u,
              has-to_set [] users u,
            )),
      )
