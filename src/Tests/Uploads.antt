-- ===== src/Tests/Uploads.antt =====
-- An image that is uploaded.
use nocode_app.Base.{
  ℕ, codes, text_eq, opt_text_eq, has, true, not, some, List, [], ◌∷◌, ◌==◌, drop_while, ok, ◌≡◌,
  refl,
}
use nocode_app.Upload.{
  Platform, ValidatedUpload, image, validate_upload, sanitize_upload_name, sniff, mime_of,
  check_content, check_kind,
}
use nocode_app.Upload.Signature.{starts, detected_mime, is_executable, looks_like_text}
use nocode_app.Upload.Checked.{Checked, validate_upload-Checked}

abbrev plain_names : Platform
plain_names = record {
  basename = λ name. name;
  extname = drop_while (λ c. not (c == 46));
  lower = λ t. t;
  trim = λ t. t;
  is_utf8 = λ bytes. true;
}

abbrev png : List ℕ
png = 137 ∷ 80 ∷ 78 ∷ 71 ∷ 13 ∷ 10 ∷ 26 ∷ 10 ∷ 0 ∷ []

abbrev taken : ValidatedUpload
taken = record { original_name = codes "logo_.png"; mime_type = codes "image/png" }

accepted_run :
    validate_upload plain_names png (codes "logo?.png") (some (codes "image/png")) image ≡ ok taken
unfolding validate_upload sanitize_upload_name sniff mime_of check_content check_kind starts
    detected_mime is_executable looks_like_text text_eq opt_text_eq has
accepted_run = refl

validate_upload-Checked_example : Checked plain_names png (codes "logo?.png") image taken
validate_upload-Checked_example =
    validate_upload-Checked plain_names (codes "logo?.png") (some (codes "image/png")) image png
      taken accepted_run
