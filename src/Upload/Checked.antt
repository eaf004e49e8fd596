-- ===== src/Upload/Checked.antt =====
-- What holds of an upload that validateUpload takes.
use nocode_app.Base.{
  ℕ, Text, codes, text_eq, text_eq_iff, opt_text_eq, has, Bool, true, false, not, ◌&&◌, ◌||◌,
  Option, none, some, List, [], ◌∷◌, Result, ok, err, ◌>>◌, ok_inj, some_inj, ◌≡◌, ◌⊎◌, inl, inr,
  refl, ap, subst, arith, Bool-cases,
}
use nocode_app.Upload.Signature.{starts, detected_mime, is_executable}
use nocode_app.Upload.{
  UploadKind, ValidatedUpload, Platform, Sniffed, mime_by_extension, dangerous_extensions,
  zip_extensions, text_extensions, mime_of, is_some, sniff, sanitize_upload_name, actual_mime,
  chosen_mime, opt_starts, agrees, refuse, check_content, check_kind, is_image, validate_upload,
}

then_ok :
    {B : Type 0} {out : B} (call : Result (Unit {0})) (next : Result B)
    → (call >> next) ≡ ok out
    → (call ≡ ok tt) × (next ≡ ok out)
then_ok (err e) next h = cc
then_ok (ok v) next h = (refl, h)

not_refused : (b : Bool) → refuse b ≡ ok tt → b ≡ false
not_refused true h = cc
not_refused false h = refl

abbrev pub pdf : Text
pdf = codes "application/pdf"

abbrev pub zip : Text
zip = codes "application/zip"

-- The types that a browser shows as an image or a document of its own.
abbrev pub is_media : Text → Bool
is_media m = starts (codes "image/") m || text_eq m pdf

-- What check_content asks, one by one.
record Content (f : Sniffed) : Type 0 where
  pdf_agrees : (opt_text_eq f.expected pdf && not (agrees f)) ≡ false
  image_agrees : (opt_starts (codes "image/") f.expected && not (agrees f)) ≡ false
  zip_agrees : (has zip_extensions f.extension && not (opt_text_eq f.signature zip)) ≡ false
  text_agrees :
      ((opt_starts (codes "text/") f.expected || has text_extensions f.extension) && not f.text)
      ≡ false

asked_parts : (f : Sniffed) → check_content f ≡ ok tt → Content f
unfolding check_content
asked_parts f h =
    let (r3, h4) =
      then_ok _
        (refuse (
          (opt_starts (codes "text/") f.expected || has text_extensions f.extension) && not f.text))
        h in
    let (r2, h3) =
      then_ok _ (refuse (has zip_extensions f.extension && not (opt_text_eq f.signature zip))) r3 in
    let (h1, h2) =
      then_ok _ (refuse (opt_starts (codes "image/") f.expected && not (agrees f))) r2 in
    record {
      pdf_agrees = not_refused _ h1;
      image_agrees = not_refused _ h2;
      zip_agrees = not_refused _ h3;
      text_agrees = not_refused _ h4;
    }

abbrev file : Text → Option Text → Option Text → Bool → Sniffed
file x e s t = record { extension = x; expected = e; signature = s; text = t }

-- A type that a browser shows is the one that the signature says.
genuine :
    (x : Text) (e s : Option Text) (t : Bool)
    → Content (file x e s t)
    → (t && is_some s) ≡ false
    → (is_media (chosen_mime (file x e s t)) ≡ false) ⊎ (s ≡ some (chosen_mime (file x e s t)))
unfolding opt_text_eq starts text_eq
genuine x e (some v) true c h = cc
genuine x none (some v) false c h = inr refl
genuine x (some m) (some v) false c h = elim (Bool-cases (text_eq v m)) [
  | inl e ↦ inr (ap some ((text_eq_iff v m).0 e))
  | inr e ↦ inl (ground (arith, c.pdf_agrees, c.image_agrees))
]
genuine x none none true c h = inl refl
genuine x (some m) none true c h = inl (ground (arith, c.pdf_agrees, c.image_agrees))
genuine x none none false c h = inl refl
genuine x (some m) none false c h = inl refl

-- Each extension of the table asks for a signature, or for text.
abbrev covered : Text → Text → Bool
covered x m =
    is_media m || has zip_extensions x || starts (codes "text/") m || has text_extensions x

abbrev all_covered : List (Text × Text) → Bool
all_covered [] = true
all_covered (row ∷ rows) = covered (row.0) (row.1) && all_covered rows

covered_row :
    (rows : List (Text × Text)) (x m : Text)
    → all_covered rows ≡ true
    → mime_of rows x ≡ some m
    → covered x m ≡ true
unfolding mime_of
covered_row [] x m h e = cc
covered_row (row ∷ rows) x m h e = elim (Bool-cases (text_eq row.0 x)) [
  | inr other ↦ covered_row rows x m (ground arith) (rw other at e)
  | inl same ↦
      let this : covered row.0 row.1 ≡ true = ground arith in
      subst (λ y. covered y m ≡ true) ((text_eq_iff row.0 x).0 same)
        (subst (λ y. covered row.0 y ≡ true) (some_inj (rw same at e)) this)
]

table_covered : all_covered mime_by_extension ≡ true
unfolding starts text_eq has
table_covered = refl

shows_image :
    (v w : Text)
    → starts (codes "image/") v ≡ true
    → text_eq v w ≡ true
    → starts (codes "image/") w ≡ true
shows_image v w h e = subst (λ y. starts (codes "image/") y ≡ true) ((text_eq_iff v w).0 e) h

no_image : (starts (codes "image/") pdf ≡ false) × (starts (codes "image/") zip ≡ false)
unfolding starts
no_image = (refl, refl)

-- A file taken as an image has the type of an image.
still_image :
    (x : Text) (e s : Option Text) (t : Bool)
    → Content (file x e s t)
    → (t && is_some s) ≡ false
    → ((m : Text) → e ≡ some m → covered x m ≡ true)
    → starts (codes "image/") (actual_mime (file x e s t)) ≡ true
    → starts (codes "image/") (chosen_mime (file x e s t)) ≡ true
unfolding opt_text_eq
still_image x e (some v) true c h k i = cc
still_image x none (some v) false c h k i = i
still_image x none none t c h k i = i
still_image x (some m) none true c h k i = i
still_image x (some m) none false c h k i = i
still_image x (some m) (some v) false c h k i = ground (
  arith,
  c.pdf_agrees,
  c.zip_agrees,
  c.text_agrees,
  k m refl,
  shows_image v pdf i,
  shows_image v zip i,
  no_image,
  text_eq_iff m pdf,
  shows_image v m i,
)

-- What holds of a file that is taken: of its bytes, the extension of its new name, and its type.
pub record Checked (p : Platform) (buffer : List ℕ) (name : Text) (kind : UploadKind)
    (v : ValidatedUpload) : Type 0 where
  pub named : v.original_name ≡ sanitize_upload_name p name
  pub no_program : is_executable buffer ≡ false
  pub harmless : has dangerous_extensions (p.lower (p.extname v.original_name)) ≡ false
  pub proved_type : (is_media v.mime_type ≡ false) ⊎ (detected_mime buffer ≡ some v.mime_type)
  pub shown : (is_image kind ≡ false) ⊎ (starts (codes "image/") v.mime_type ≡ true)

module _ (p : Platform) (name : Text) (claimed : Option Text) (kind : UploadKind) where
  sniff-apart :
      (buffer : List ℕ) (safe : Text)
      → let f = sniff p buffer safe in (f.text && is_some f.signature) ≡ false
  unfolding sniff
  sniff-apart buffer safe = elim (Bool-cases (is_some (detected_mime buffer))) [
    | inl e ↦ rw e refl
    | inr e ↦ rw e (ground arith)
  ]

  image_kind :
      (f : Sniffed)
      → check_kind f kind ≡ ok tt
      → (is_image kind && not (starts (codes "image/") (actual_mime f))) ≡ false
  unfolding check_kind
  image_kind f h = let (r, h3) = then_ok _ _ h in let (h1, h2) = then_ok _ _ r in not_refused _ h1

  -- A file that validateUpload takes has the sanitized name, is no program by its first bytes or its
  -- extension, has the type of an image or of PDF only where its first bytes say that very type, and, where it
  -- was asked for as an image, has the type of an image.
  pub validate_upload-Checked :
      (buffer : List ℕ) (v : ValidatedUpload)
      → validate_upload p buffer name claimed kind ≡ ok v
      → Checked p buffer name kind v
  unfolding validate_upload sniff
  validate_upload-Checked [] v h = cc
  validate_upload-Checked (b ∷ bs) v h =
      let f = sniff p (b ∷ bs) (sanitize_upload_name p name) in
      let (r4, done) = then_ok _ _ h in
      let (r3, claim) = then_ok _ _ r4 in
      let (r2, kinds) = then_ok _ _ r3 in
      let (safe, content) = then_ok _ _ r2 in
      let c = asked_parts f content in
      let same = ok_inj done in
      let apart = sniff-apart (b ∷ bs) (sanitize_upload_name p name) in
      let image_asked = image_kind f kinds in
      let clean =
        not_refused (has dangerous_extensions f.extension || is_executable (b ∷ bs)) safe in
      subst (Checked p (b ∷ bs) name kind) same (record {
        named = refl;
        no_program = ground arith;
        harmless = ground arith;
        proved_type = genuine f.extension f.expected f.signature f.text c apart;
        shown = elim (Bool-cases (is_image kind)) [
          | inr e ↦ inl e
          | inl e ↦ inr (
              still_image f.extension f.expected f.signature f.text c apart
                (λ m known. covered_row mime_by_extension f.extension m table_covered known)
                (ground arith))
        ];
      })
