-- ===== src/Upload.antt =====
-- backend/src/common/file-validation.util.ts: which uploaded files are taken, and under which name and type.
-- The names of node's `path`, `toLowerCase`, `trim` and the UTF-8 decoder are parameters.
pub mod Signature
pub mod Checked
use nocode_app.Base.{
  ℕ, Text, codes, text_eq, opt_text_eq, has, Bool, true, false, not, ◌&&◌, ◌||◌, Option, none, some,
  List, [], ◌∷◌, map, take, if◌then◌else◌, leb, ◌==◌, drop_while, Result, ok, err, bad_request,
  ◌>>◌, require,
}
use nocode_app.Upload.Signature.{starts, detected_mime, is_executable, looks_like_text}

pub data UploadKind : Type 0 where
  attachment image document : UploadKind

pub record ValidatedUpload : Type 0 where
  pub original_name : Text
  pub mime_type : Text

pub record Platform : Type 0 where
  pub basename : Text → Text
  pub extname : Text → Text
  pub lower : Text → Text
  pub trim : Text → Text
  pub is_utf8 : List ℕ → Bool

abbrev pub docx_type : Text
docx_type = codes "application/vnd.openxmlformats-officedocument.wordprocessingml.document"

abbrev pub xlsx_type : Text
xlsx_type = codes "application/vnd.openxmlformats-officedocument.spreadsheetml.sheet"

abbrev pub pptx_type : Text
pptx_type = codes "application/vnd.openxmlformats-officedocument.presentationml.presentation"

-- MIME_BY_EXTENSION
abbrev pub mime_by_extension : List (Text × Text)
mime_by_extension =
    (codes ".pdf", codes "application/pdf")
    ∷ (codes ".png", codes "image/png")
    ∷ (codes ".jpg", codes "image/jpeg")
    ∷ (codes ".jpeg", codes "image/jpeg")
    ∷ (codes ".gif", codes "image/gif")
    ∷ (codes ".webp", codes "image/webp")
    ∷ (codes ".docx", docx_type)
    ∷ (codes ".xlsx", xlsx_type)
    ∷ (codes ".pptx", pptx_type)
    ∷ (codes ".zip", codes "application/zip")
    ∷ (codes ".txt", codes "text/plain")
    ∷ (codes ".md", codes "text/markdown")
    ∷ (codes ".markdown", codes "text/markdown")
    ∷ (codes ".csv", codes "text/csv")
    ∷ (codes ".tsv", codes "text/tab-separated-values")
    ∷ (codes ".json", codes "application/json")
    ∷ (codes ".log", codes "text/plain")
    ∷ (codes ".html", codes "text/html")
    ∷ (codes ".htm", codes "text/html")
    ∷ (codes ".xml", codes "application/xml")
    ∷ (codes ".yaml", codes "application/yaml")
    ∷ (codes ".yml", codes "application/yaml")
    ∷ []

abbrev pub dangerous_extensions : List Text
dangerous_extensions =
    codes ".exe"
    ∷ codes ".dll"
    ∷ codes ".com"
    ∷ codes ".scr"
    ∷ codes ".msi"
    ∷ codes ".bat"
    ∷ codes ".cmd"
    ∷ codes ".ps1"
    ∷ codes ".sh"
    ∷ codes ".jar"
    ∷ codes ".apk"
    ∷ []

abbrev pub zip_extensions : List Text
zip_extensions = codes ".docx" ∷ codes ".xlsx" ∷ codes ".pptx" ∷ codes ".zip" ∷ []

abbrev pub text_extensions : List Text
text_extensions = codes ".json" ∷ codes ".xml" ∷ codes ".yaml" ∷ codes ".yml" ∷ []

unfoldable pub mime_of : List (Text × Text) → Text → Option Text
mime_of [] extension = none
mime_of (row ∷ rows) extension =
    let rest = mime_of rows extension in if text_eq row.0 extension then some row.1 else rest

-- The characters that sanitizeUploadName replaces: [\u0000-\u001f\u007f<>:"/\\|?*]
abbrev pub is_reserved : ℕ → Bool
is_reserved c =
    leb c 31
    || c == 127
    || c == 60
    || c == 62
    || c == 58
    || c == 34
    || c == 47
    || c == 92
    || c == 124
    || c == 63
    || c == 42

abbrev pub reverse_onto : Text → Text → Text
reverse_onto done [] = done
reverse_onto done (c ∷ cs) = reverse_onto (c ∷ done) cs

-- `s.replace(/[. ]+$/g, '')`
abbrev pub strip_end : Text → Text
strip_end s = reverse_onto [] (drop_while (λ c. c == 46 || c == 32) (reverse_onto [] s))

-- `s || 'file'`
abbrev pub or_file : Text → Text
or_file [] = codes "file"
or_file (c ∷ cs) = c ∷ cs

unfoldable pub sanitize_upload_name : Platform → Text → Text
sanitize_upload_name p name =
    let replaced =
      map (λ c. if is_reserved c then 95 else c) (take 300 (p.basename (or_file name))) in
    take 200 (or_file (p.trim (strip_end replaced)))

-- What is known of a file before the checks: `extension`, `expectedMime`, `signatureMime` and `text`.
pub record Sniffed : Type 0 where
  pub extension : Text
  pub expected : Option Text
  pub signature : Option Text
  pub text : Bool

abbrev pub is_some : Option Text → Bool
is_some none = false
is_some (some t) = true

unfoldable pub sniff : Platform → List ℕ → Text → Sniffed
sniff p buffer safe_name =
    let extension = p.lower (p.extname safe_name) in
    let signature = detected_mime buffer in
    record {
      extension = extension;
      expected = mime_of mime_by_extension extension;
      signature = signature;
      text = not (is_some signature) && looks_like_text p.is_utf8 buffer;
    }

abbrev pub or_type : Option Text → Text → Text
or_type none other = other
or_type (some t) other = t

-- `signatureMime || (text ? expectedMime || 'text/plain' : 'application/octet-stream')`
abbrev pub actual_mime : Sniffed → Text
actual_mime f =
    or_type f.signature
      (if f.text then or_type f.expected (codes "text/plain") else codes "application/octet-stream")

-- `expectedMime && (text || signatureMime) ? expectedMime : actualMime`
abbrev pub chosen_mime : Sniffed → Text
chosen_mime f =
    if is_some f.expected && (f.text || is_some f.signature)
    then or_type f.expected (actual_mime f)
    else actual_mime f

abbrev pub opt_starts : Text → Option Text → Bool
opt_starts prefix none = false
opt_starts prefix (some t) = starts prefix t

-- `signatureMime === expectedMime`
abbrev pub agrees : Sniffed → Bool
agrees f = opt_text_eq f.signature (or_type f.expected []) && is_some f.expected

abbrev pub is_image : UploadKind → Bool
is_image image = true
is_image kind = false

abbrev pub is_document : UploadKind → Bool
is_document document = true
is_document kind = false

abbrev pub refuse : Bool → Result (Unit {0})
refuse b = require (not b) bad_request

unfoldable pub check_content : Sniffed → Result (Unit {0})
check_content f =
    refuse (opt_text_eq f.expected (codes "application/pdf") && not (agrees f))
    >> refuse (opt_starts (codes "image/") f.expected && not (agrees f))
    >> refuse
        (has zip_extensions f.extension && not (opt_text_eq f.signature (codes "application/zip")))
    >> refuse
        ((opt_starts (codes "text/") f.expected || has text_extensions f.extension) && not f.text)

unfoldable pub check_kind : Sniffed → UploadKind → Result (Unit {0})
check_kind f kind =
    refuse (is_image kind && not (starts (codes "image/") (actual_mime f)))
    >> refuse (is_document kind && not (is_some f.expected))
    >> refuse (
        is_document kind
        && not (
            f.text
            || text_eq (actual_mime f) (codes "application/pdf")
            || text_eq f.extension (codes ".docx")))

-- validateUpload
unfoldable pub validate_upload :
    Platform → List ℕ → Text → Option Text → UploadKind → Result ValidatedUpload
validate_upload p [] name claimed kind = err bad_request
validate_upload p (b ∷ bs) name claimed kind =
    let safe_name = sanitize_upload_name p name in
    let f = sniff p (b ∷ bs) safe_name in
    refuse (has dangerous_extensions f.extension || is_executable (b ∷ bs))
    >> check_content f
    >> check_kind f kind
    >> refuse (opt_starts (codes "image/") claimed && not (starts (codes "image/") (chosen_mime f)))
    >> ok (record { original_name = safe_name; mime_type = chosen_mime f })
