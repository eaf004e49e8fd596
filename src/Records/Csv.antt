-- ===== src/Records/Csv.antt =====
-- The cells of the CSV export of records.service.ts, and how the import reads them back. JSON.stringify and
-- String are the language's, in the parameter `show`.
pub mod Reader
pub mod Lines
pub mod RoundTrip
pub mod Safe
use nocode_app.Base.{
  ℕ, Text, Bool, true, false, ◌&&◌, ◌||◌, [], ◌∷◌, ◌++◌, if◌then◌else◌, ◌==◌, any, ◌≡◌, ◌↔◌, refl,
  arith, Bool-cases, inl, inr, length, ap, ◌≢◌,
}
use nocode_app.Json.{Json, undefined, null, string}

-- CSV_FORMULA_LEAD: = + - @ tab and carriage return
unfoldable pub is_lead : ℕ → Bool
is_lead c = c == 61 || c == 43 || c == 45 || c == 64 || c == 9 || c == 13

unfoldable pub leads_formula : Text → Bool
leads_formula [] = false
leads_formula (c ∷ cs) = is_lead c

-- `CSV_FORMULA_LEAD.test(raw) ? "'" + raw : raw`
unfoldable pub guard_formula : Text → Text
guard_formula raw = if leads_formula raw then 39 ∷ raw else raw

-- `s.replace(/"/g, '""')`
unfoldable pub double_quotes : Text → Text
double_quotes [] = []
double_quotes (c ∷ cs) = if c == 34 then 34 ∷ 34 ∷ double_quotes cs else c ∷ double_quotes cs

-- /[",\r\n]/
unfoldable pub is_special : ℕ → Bool
is_special c = c == 34 || c == 44 || c == 13 || c == 10

unfoldable pub quote_cell : Text → Text
quote_cell s = if any is_special s then 34 ∷ double_quotes s ++ 34 ∷ [] else s

module _ {N : Type 0} (show : Json N → Text) where
  unfoldable pub raw_text : Json N → Text
  raw_text undefined = []
  raw_text null = []
  raw_text v = show v

  unfoldable pub csv_cell : Json N → Text
  csv_cell v = quote_cell (guard_formula (raw_text v))

-- `v.startsWith("'") && CSV_FORMULA_LEAD.test(v.slice(1)) ? v.slice(1) : v`
unfoldable pub decode_text : Text → Text
decode_text [] = []
decode_text (c ∷ cs) = if c == 39 && leads_formula cs then cs else c ∷ cs

unfoldable pub decode_csv_cell : {N : Type 0} → Json N → Json N
decode_csv_cell (string s) = string (decode_text s)
decode_csv_cell v = v

-- Text that the export leaves as it is and the import shortens: an apostrophe before what would start a formula.
abbrev pub looks_guarded : Text → Bool
looks_guarded [] = false
looks_guarded (c ∷ cs) = c == 39 && leads_formula cs

lead_not_quote : (c : ℕ) → is_lead c ≡ true → (c == 39) ≡ false
unfolding is_lead
lead_not_quote c h = ground arith

guard_lead : (c : ℕ) (cs : Text) → is_lead c ≡ true → decode_text (guard_formula (c ∷ cs)) ≡ c ∷ cs
unfolding decode_text guard_formula leads_formula
guard_lead c cs h = rw (h, h)

shorter : (c : ℕ) (cs : Text) → cs ≢ c ∷ cs
shorter c cs e = absurd (omega (arith, ap length e))

-- A text cell that is exported and read back, after the quotes of CSV are taken off, is the same text exactly where it is not an apostrophe before a
-- character that starts a formula.
pub decode-guard : (s : Text) → (decode_text (guard_formula s) ≡ s) ↔ (looks_guarded s ≡ false)
unfolding decode_text guard_formula leads_formula
decode-guard [] = (λ h. refl, λ h. refl)
decode-guard (c ∷ cs) = elim (Bool-cases (is_lead c)) [
  | inl lead ↦ (λ h. rw (lead_not_quote c lead), λ h. guard_lead c cs lead)
  | inr plain ↦ elim (Bool-cases (looks_guarded (c ∷ cs))) [
    | inl guarded ↦ (λ h. absurd (shorter c cs (rw (plain, guarded) at h)), λ h. cc)
    | inr bare ↦ (λ h. bare, λ h. rw (plain, bare))
  ]
]
