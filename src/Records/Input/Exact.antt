-- ===== src/Records/Input/Exact.antt =====
-- What sanitizeRecordInput lets in.
use nocode_app.Base.{
  ℕ, suc, ◌+◌, ◌≤◌, Text, text_eq, text_eq_iff, Bool, true, false, ◌&&◌, List, [], ◌∷◌,
  if◌then◌else◌, leb, length, any, max, ok, bad_request, require, bind_ok, require_ok, ◌≡◌, ◌↔◌,
  refl, sym, subst, leb→le, ok_inj, ◌∙◌, ap, arith, Bool-cases, inl, inr, ⊎_elim, ◌⊎◌, Memᴰ,
}
use mathlib.Core.List.Memᴰ
use nocode_app.Json.{
  Json, undefined, null, bool, string, array, object, number, Items, nil, item, Members, end,
  member, get, count,
}
use nocode_app.Records.Input.{
  FieldLike, array_limit, within, within_items, within_members, has_own, set, collect_fields,
  sanitize_record_input, max_depth, max_text_length, max_record_chars,
}

-- The arithmetic of one level: `d` deep, with `n`, `w` and `l` for what is inside.
plain_iff : (d D L T : ℕ) → (leb d D ≡ true) ↔ ((d + 0 ≤ D) × (0 ≤ L) × (0 ≤ T))
plain_iff d D L T = ground arith

text_iff : (d l D L T : ℕ) → ((leb d D && leb l T) ≡ true) ↔ ((d + 0 ≤ D) × (0 ≤ L) × (l ≤ T))
text_iff d l D L T = ground arith

none_iff : (d D L T : ℕ) → d ≤ D → (true ≡ true) ↔ ((d + 0 ≤ D) × (0 ≤ L) × (0 ≤ T))
none_iff d D L T h = ground arith

array_iff :
    (d c n w l D L T : ℕ) (b : Bool)
    → (d ≤ D → (b ≡ true) ↔ ((d + n ≤ D) × (w ≤ L) × (l ≤ T)))
    → ((leb d D && leb c L && b) ≡ true) ↔ ((d + n ≤ D) × (max c w ≤ L) × (l ≤ T))
array_iff d c n w l D L T b h = ground arith

object_iff :
    (d n w l D L T : ℕ) (b : Bool)
    → (d ≤ D → (b ≡ true) ↔ ((d + n ≤ D) × (w ≤ L) × (l ≤ T)))
    → ((leb d D && b) ≡ true) ↔ ((d + n ≤ D) × (w ≤ L) × (l ≤ T))
object_iff d n w l D L T b h = ground arith

both_iff :
    (d n w l n' w' l' D L T : ℕ) (b b' : Bool)
    → (b ≡ true) ↔ ((d + 1 + n ≤ D) × (w ≤ L) × (l ≤ T))
    → (b' ≡ true) ↔ ((d + n' ≤ D) × (w' ≤ L) × (l' ≤ T))
    → ((b && b') ≡ true) ↔ ((d + max (suc n) n' ≤ D) × (max w w' ≤ L) × (max l l' ≤ T))
both_iff d n w l n' w' l' D L T b b' h h' = ground arith

module _ {N : Type 0} where
  -- How deep a value is nested.
  abbrev mutual
    pub nesting : Json N → ℕ
    nesting (array vs) = nesting_items vs
    nesting (object o) = nesting_members o
    nesting _ = 0

    pub nesting_items : Items N → ℕ
    nesting_items nil = 0
    nesting_items (item v vs) = max (suc (nesting v)) (nesting_items vs)

    pub nesting_members : Members N → ℕ
    nesting_members end = 0
    nesting_members (member k v o) = max (suc (nesting v)) (nesting_members o)

  -- The length of its longest array.
  abbrev mutual
    pub widest : Json N → ℕ
    widest (array vs) = max (count vs) (widest_items vs)
    widest (object o) = widest_members o
    widest _ = 0

    pub widest_items : Items N → ℕ
    widest_items nil = 0
    widest_items (item v vs) = max (widest v) (widest_items vs)

    pub widest_members : Members N → ℕ
    widest_members end = 0
    widest_members (member k v o) = max (widest v) (widest_members o)

  -- The length of its longest text.
  abbrev mutual
    pub longest : Json N → ℕ
    longest (string s) = length s
    longest (array vs) = longest_items vs
    longest (object o) = longest_members o
    longest _ = 0

    pub longest_items : Items N → ℕ
    longest_items nil = 0
    longest_items (item v vs) = max (longest v) (longest_items vs)

    pub longest_members : Members N → ℕ
    longest_members end = 0
    longest_members (member k v o) = max (longest v) (longest_members o)

  abbrev pub Fits : ℕ → ℕ → Json N → Type 0
  Fits limit depth v =
      (depth + nesting v ≤ max_depth) × (widest v ≤ limit) × (longest v ≤ max_text_length)

  mutual
    unfolding within

    within_iff : (limit depth : ℕ) (v : Json N) → (within limit depth v ≡ true) ↔ Fits limit depth v
    within_iff limit depth (string s) = text_iff depth (length s) max_depth limit max_text_length
    within_iff limit depth (array vs) =
        array_iff depth (count vs) _ _ _ max_depth limit max_text_length _
          (items_iff limit depth vs)
    within_iff limit depth (object o) =
        object_iff depth _ _ _ max_depth limit max_text_length _ (members_iff limit depth o)
    within_iff limit depth undefined = plain_iff depth max_depth limit max_text_length
    within_iff limit depth null = plain_iff depth max_depth limit max_text_length
    within_iff limit depth (bool b) = plain_iff depth max_depth limit max_text_length
    within_iff limit depth (number n) = plain_iff depth max_depth limit max_text_length

    items_iff :
        (limit depth : ℕ) (vs : Items N)
        → depth ≤ max_depth
        → (within_items limit (depth + 1) vs ≡ true) ↔ (
            (depth + nesting_items vs ≤ max_depth)
            × (widest_items vs ≤ limit)
            × (longest_items vs ≤ max_text_length))
    items_iff limit depth nil h = none_iff depth max_depth limit max_text_length h
    items_iff limit depth (item v vs) h =
        both_iff depth _ _ _ _ _ _ max_depth limit max_text_length _ _
          (within_iff limit (depth + 1) v) (items_iff limit depth vs h)

    members_iff :
        (limit depth : ℕ) (o : Members N)
        → depth ≤ max_depth
        → (within_members limit (depth + 1) o ≡ true) ↔ (
            (depth + nesting_members o ≤ max_depth)
            × (widest_members o ≤ limit)
            × (longest_members o ≤ max_text_length))
    members_iff limit depth end h = none_iff depth max_depth limit max_text_length h
    members_iff limit depth (member k v o) h =
        both_iff depth _ _ _ _ _ _ max_depth limit max_text_length _ _
          (within_iff limit (depth + 1) v) (members_iff limit depth o h)

  pub get-set :
      (o : Members N) (k key : Text) (v : Json N)
      → get (set o k v) key ≡ (if text_eq k key then v else get o key)
  unfolding get set
  get-set end k key v = refl
  get-set (member j w o) k key v = elim (Bool-cases (text_eq j k)) [
    | inl same ↦
        let e : j ≡ k = (text_eq_iff j k).0 same in
        rw same (ground (arith, ap (λ x. text_eq x key) e))
    | inr other ↦
        rw other
          (ground (arith, get-set o k key v, text_eq_iff j key, text_eq_iff k key, text_eq_iff j k))
  ]

  -- The field codes that the request has.
  abbrev pub kept : List FieldLike → Members N → Text → Bool
  kept fields source key = any (λ f. text_eq f.field_code key) fields && has_own source key

  step_kept :
      (f : FieldLike) (fs : List FieldLike) (source clean : Members N) (key : Text)
      → has_own source f.field_code ≡ true
      → (if kept fs source key
          then get source key
          else (if text_eq f.field_code key then get source f.field_code else get clean key))
        ≡ (if kept (f ∷ fs) source key then get source key else get clean key)
  unfolding any
  step_kept f fs source clean key own = elim (Bool-cases (text_eq f.field_code key)) [
    | inl same ↦
        let e : f.field_code ≡ key = (text_eq_iff f.field_code key).0 same in
        let own_key : has_own source key ≡ true = subst (λ k. has_own source k ≡ true) e own in
        rw (same, own_key, e) (ground arith)
    | inr other ↦ rw other refl
  ]

  step_lacks :
      (f : FieldLike) (fs : List FieldLike) (source clean : Members N) (key : Text)
      → has_own source f.field_code ≡ false
      → (if kept fs source key then get source key else get clean key)
        ≡ (if kept (f ∷ fs) source key then get source key else get clean key)
  unfolding any
  step_lacks f fs source clean key lacks = elim (Bool-cases (text_eq f.field_code key)) [
    | inl same ↦
        let e : f.field_code ≡ key = (text_eq_iff f.field_code key).0 same in
        let lacks_key : has_own source key ≡ false =
          subst (λ k. has_own source k ≡ false) e lacks in
        rw lacks_key (ground arith)
    | inr other ↦ rw other refl
  ]

  pub collect_exact :
      (fields : List FieldLike) (source clean : Members N) {out : Members N}
      → collect_fields fields source clean ≡ ok out
      → (((key : Text)
            → get out key ≡ (if kept fields source key then get source key else get clean key))
          × ((f : FieldLike)
              → Memᴰ f fields
              → has_own source f.field_code ≡ true
              → Fits (array_limit f) 0 (get source f.field_code)))
  unfolding collect_fields any get
  collect_exact [] source clean {out} h =
      (λ key. ap (λ o. get o key) (sym (ok_inj h)), λ f m own. absurd (Memᴰ.not-nil m))
  collect_exact (f ∷ fs) source clean {out} h = elim (Bool-cases (has_own source f.field_code)) [
    | inl own ↦
        let v = get source f.field_code in
        let (u, checked, rest) =
          bind_ok (require (within (array_limit f) 0 v) bad_request) _ (rw own at h) in
        let (keys, fit) = collect_exact fs source (set clean f.field_code v) rest in
        (
          λ key.
              keys key
              ∙ ap (λ x. if kept fs source key then get source key else x)
                  (get-set clean f.field_code key v)
              ∙ step_kept f fs source clean key own,
          λ g m has_g.
              ⊎_elim (λ e. rw e ((within_iff (array_limit f) 0 v).0 (require_ok _ _ checked)))
                (λ t. fit g t has_g) (Memᴰ.cases_cons m),
        )
    | inr lacks ↦
        let (keys, fit) = collect_exact fs source clean (rw lacks at h) in
        (
          λ key. keys key ∙ step_lacks f fs source clean key lacks,
          λ g m has_g.
              ⊎_elim (λ e. absurd (cc (lacks, has_g, e))) (λ t. fit g t has_g) (Memᴰ.cases_cons m),
        )
  ]

  -- Every value of the request under the code of a field fits.
  abbrev pub AllFit : List FieldLike → Members N → Type 0
  AllFit [] source = Unit {0}
  AllFit (f ∷ fs) source =
      ((has_own source f.field_code ≡ false) ⊎ Fits (array_limit f) 0 (get source f.field_code))
      × AllFit fs source

  Fits-AllFit :
      (fields : List FieldLike) (source : Members N)
      → ((f : FieldLike)
          → Memᴰ f fields
          → has_own source f.field_code ≡ true
          → Fits (array_limit f) 0 (get source f.field_code))
      → AllFit fields source
  Fits-AllFit [] source h = tt
  Fits-AllFit (f ∷ fs) source h = (
    elim (Bool-cases (has_own source f.field_code)) [
      | inl own ↦ inr (h f (Memᴰ.head refl) own)
      | inr lacks ↦ inl lacks
    ],
    Fits-AllFit fs source (λ g m. h g (Memᴰ.tail m)),
  )

  -- What sanitizeRecordInput returns has, under a key that is the code of a field and that the request has, the
  -- value of the request, and nothing under any other key; each value of the request under the code of a field is
  -- nested at most 10 deep, with no array longer than the limit of the field and no text longer than
  -- 100,000 characters; and the whole is within the limit of a record.
  pub sanitize_record_input_exact :
      (size : Members N → ℕ) (fields : List FieldLike) (source : Members N) {out : Members N}
      → sanitize_record_input size fields source ≡ ok out
      → ((key : Text)
          → get out key ≡ (if kept fields source key then get source key else undefined))
        × AllFit fields source
        × (size out ≤ max_record_chars)
  unfolding sanitize_record_input get
  sanitize_record_input_exact size fields source {out} h =
      let (clean, collected, rest) = bind_ok (collect_fields fields source end) _ h in
      let (u, small, e) =
        bind_ok (require (leb (size clean) max_record_chars) bad_request) _ rest in
      let (keys, fit) = collect_exact fields source end collected in
      let same : clean ≡ out = ok_inj e in
      (
        λ key. ap (λ o. get o key) (sym same) ∙ keys key,
        Fits-AllFit fields source fit,
        subst (λ o. size o ≤ max_record_chars) same (leb→le _ _ (require_ok _ _ small)),
      )
