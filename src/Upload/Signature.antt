-- ===== src/Upload/Signature.antt =====
-- What the bytes of a file say of file-validation.util.ts: signatures, executables, and text.
use nocode_app.Base.{
  ℕ, ◌/◌, ◌%◌, max, Text, codes, text_eq, Bool, true, false, not, ◌&&◌, ◌||◌, Option, none, some,
  List, [], ◌∷◌, map, filter, any, length, take, if◌then◌else◌, ltb, leb, ◌==◌, drop,
}

-- `s.startsWith(prefix)` and startsWith on bytes
unfoldable pub starts : Text → Text → Bool
starts [] s = true
starts (c ∷ cs) [] = false
starts (c ∷ cs) (d ∷ ds) = d == c && starts cs ds

-- `buffer.subarray(a, b).toString('ascii')`, which clears the highest bit of a byte
abbrev pub ascii : List ℕ → Text
ascii bytes = map (λ b. b % 128) bytes

-- detectedMime
unfoldable pub detected_mime : List ℕ → Option Text
detected_mime buffer =
    if starts (37 ∷ 80 ∷ 68 ∷ 70 ∷ 45 ∷ []) buffer
    then some (codes "application/pdf")
    else if starts (137 ∷ 80 ∷ 78 ∷ 71 ∷ 13 ∷ 10 ∷ 26 ∷ 10 ∷ []) buffer
    then some (codes "image/png")
    else if starts (255 ∷ 216 ∷ 255 ∷ []) buffer
    then some (codes "image/jpeg")
    else if text_eq (ascii (take 6 buffer)) (codes "GIF87a")
        || text_eq (ascii (take 6 buffer)) (codes "GIF89a")
    then some (codes "image/gif")
    else if text_eq (ascii (take 4 buffer)) (codes "RIFF")
        && text_eq (ascii (take 4 (drop 8 buffer))) (codes "WEBP")
    then some (codes "image/webp")
    else if starts (80 ∷ 75 ∷ 3 ∷ 4 ∷ []) buffer || starts (80 ∷ 75 ∷ 5 ∷ 6 ∷ []) buffer
    then some (codes "application/zip")
    else none

-- isExecutable
unfoldable pub is_executable : List ℕ → Bool
is_executable buffer =
    starts (77 ∷ 90 ∷ []) buffer
    || starts (127 ∷ 69 ∷ 76 ∷ 70 ∷ []) buffer
    || starts (202 ∷ 254 ∷ 186 ∷ 190 ∷ []) buffer
    || starts (254 ∷ 237 ∷ 250 ∷ 206 ∷ []) buffer
    || starts (207 ∷ 250 ∷ 237 ∷ 254 ∷ []) buffer

abbrev pub is_control : ℕ → Bool
is_control byte = ltb byte 9 || (ltb 13 byte && ltb byte 32)

-- looksLikeText; `is_utf8` says that the decoder does not throw
unfoldable pub looks_like_text : (is_utf8 : List ℕ → Bool) → List ℕ → Bool
looks_like_text is_utf8 buffer =
    not (any (λ b. b == 0) buffer)
    && is_utf8 buffer
    && leb (length (filter is_control buffer)) (max 1 (length buffer / 100))
