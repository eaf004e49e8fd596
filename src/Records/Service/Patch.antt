-- ===== src/Records/Service/Patch.antt =====
-- What `{ ...stored, ...patch }` gives for a sanitized patch.
use nocode_app.Base.{
  ℕ, Text, text_eq, text_eq_iff, Bool, true, false, ◌||◌, List, [], ◌∷◌, if◌then◌else◌, any, ok,
  bad_request, require, bind_ok, ok_inj, leb, ◌≡◌, refl, sym, subst, ap, ◌∙◌, arith, Bool-cases,
  inl, inr,
}
use nocode_app.Json.{Json, Members, end, member, get}
use nocode_app.Formula.Double.{Double}
use nocode_app.Records.Input.{
  FieldLike, array_limit, within, has_own, set, collect_fields, sanitize_record_input,
  max_record_chars,
}
use nocode_app.Records.Input.Exact.{get-set, kept, collect_exact}
use nocode_app.Records.Service.{spread}

module _ {N : Type 0} where
  -- No key stands twice in an object.
  abbrev pub HasDistinctKeys : Members N → Type 0
  HasDistinctKeys end = Unit {0}
  HasDistinctKeys (member k v o) = (has_own o k ≡ false) × HasDistinctKeys o

  has_own-set :
      (o : Members N) (k key : Text) (v : Json N)
      → has_own (set o k v) key ≡ (text_eq k key || has_own o key)
  unfolding has_own set
  has_own-set end k key v = ground arith
  has_own-set (member j w o) k key v = elim (Bool-cases (text_eq j k)) [
    | inl same ↦
        let e : j ≡ k = (text_eq_iff j k).0 same in
        rw same (ground (arith, ap (λ x. text_eq x key) e))
    | inr other ↦ rw other (ground (arith, has_own-set o k key v))
  ]

  set-HasDistinctKeys :
      (o : Members N) (k : Text) (v : Json N) → HasDistinctKeys o → HasDistinctKeys (set o k v)
  unfolding has_own set
  set-HasDistinctKeys end k v h = (refl, tt)
  set-HasDistinctKeys (member j w o) k v h = elim (Bool-cases (text_eq j k)) [
    | inl same ↦ rw same h
    | inr other ↦
        let apart : text_eq k j ≡ false = ground (arith, text_eq_iff j k, text_eq_iff k j) in
        rw other (rw (has_own-set o k j v, apart) (h.0), set-HasDistinctKeys o k v (h.1))
  ]

  step_own :
      (f : FieldLike) (fs : List FieldLike) (source : Members N) (key : Text) (b : Bool)
      → has_own source f.field_code ≡ true
      → (kept fs source key || (text_eq f.field_code key || b)) ≡ (kept (f ∷ fs) source key || b)
  unfolding any
  step_own f fs source key b own = elim (Bool-cases (text_eq f.field_code key)) [
    | inl same ↦
        let own_key : has_own source key ≡ true =
          subst (λ k. has_own source k ≡ true) ((text_eq_iff f.field_code key).0 same) own in
        rw (same, own_key) (ground arith)
    | inr other ↦ rw other refl
  ]

  step_not_own :
      (f : FieldLike) (fs : List FieldLike) (source : Members N) (key : Text)
      → has_own source f.field_code ≡ false
      → kept fs source key ≡ kept (f ∷ fs) source key
  unfolding any
  step_not_own f fs source key lacks = elim (Bool-cases (text_eq f.field_code key)) [
    | inl same ↦
        let lacks_key : has_own source key ≡ false =
          subst (λ k. has_own source k ≡ false) ((text_eq_iff f.field_code key).0 same) lacks in
        rw lacks_key (ground arith)
    | inr other ↦ rw other refl
  ]

  collect_own :
      (fields : List FieldLike) (source clean : Members N) {out : Members N}
      → HasDistinctKeys clean
      → collect_fields fields source clean ≡ ok out
      → HasDistinctKeys out
        × ((key : Text) → has_own out key ≡ (kept fields source key || has_own clean key))
  unfolding collect_fields any
  collect_own [] source clean d h =
      (subst HasDistinctKeys (ok_inj h) d, λ key. ap (λ o. has_own o key) (sym (ok_inj h)))
  collect_own (f ∷ fs) source clean d h = elim (Bool-cases (has_own source f.field_code)) [
    | inl own ↦
        let v = get source f.field_code in
        let (u, checked, rest) =
          bind_ok (require (within (array_limit f) 0 v) bad_request) _ (rw own at h) in
        let (distinct, keys) =
          collect_own fs source (set clean f.field_code v)
            (set-HasDistinctKeys clean f.field_code v d) rest in
        (
          distinct,
          λ key.
              keys key
              ∙ ap (λ b. kept fs source key || b) (has_own-set clean f.field_code key v)
              ∙ step_own f fs source key (has_own clean key) own,
        )
    | inr lacks ↦
        let (distinct, keys) = collect_own fs source clean d (rw lacks at h) in
        (
          distinct,
          λ key. keys key ∙ ap (λ b. b || has_own clean key) (step_not_own f fs source key lacks),
        )
  ]

module _ (D : Double) where
  get-spread :
      (a b : Members D.Num) (key : Text)
      → HasDistinctKeys b
      → get (spread D a b) key ≡ (if has_own b key then get b key else get a key)
  unfolding spread get has_own
  get-spread a end key h = refl
  get-spread a (member k v b) key h = elim (Bool-cases (text_eq k key)) [
    | inl same ↦
        let gone : has_own b key ≡ false =
          subst (λ x. has_own b x ≡ false) ((text_eq_iff k key).0 same) (h.0) in
        get-spread (set a k v) b key (h.1) ∙ rw (gone, same, get-set a k key v, same) refl
    | inr other ↦ get-spread (set a k v) b key (h.1) ∙ rw (other, get-set a k key v, other) refl
  ]

  choose :
      {A : Type 0} (b : Bool) (x y u : A)
      → (if b || false then (if b then x else u) else y) ≡ (if b then x else y)
  choose true x y u = refl
  choose false x y u = refl

  -- The values of the request under the field codes, the stored values elsewhere.
  pub get-patched :
      (size : Members D.Num → ℕ) (fields : List FieldLike) (source stored : Members D.Num)
      {patch : Members D.Num} (key : Text)
      → sanitize_record_input size fields source ≡ ok patch
      → get (spread D stored patch) key
        ≡ (if kept fields source key then get source key else get stored key)
  unfolding sanitize_record_input has_own get
  get-patched size fields source stored {patch} key h =
      let (clean, collected, rest) = bind_ok (collect_fields fields source end) _ h in
      let (u, small, e) =
        bind_ok (require (leb (size clean) max_record_chars) bad_request) _ rest in
      let (distinct, own) = collect_own fields source end tt collected in
      let (keys, fit) = collect_exact fields source end collected in
      subst
        (λ o.
          get (spread D stored o) key
          ≡ (if kept fields source key then get source key else get stored key))
        (ok_inj e)
        (get-spread stored clean key distinct
          ∙ rw (own key, keys key) (choose (kept fields source key) _ _ _))
