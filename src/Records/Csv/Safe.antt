-- ===== src/Records/Csv/Safe.antt =====
-- What a spreadsheet finds in an exported cell.
use mathlib.Core.List
use nocode_app.Base.{
  Text, false, [], ◌∷◌, ◌≡◌, ◌≢◌, ◌⊎◌, refl, sym, ap, ◌∙◌, arith, Bool-cases, inl, inr,
}
use nocode_app.Json.{Json}
use nocode_app.Records.Csv.{is_lead, leads_formula, guard_formula, quote_cell, raw_text, csv_cell}
use nocode_app.Records.Csv.Reader.{Scan, scan, begin}
use nocode_app.Records.Csv.Lines.{cell_run, scan_nil}

-- Text that starts with none of the characters = + - @, tab and carriage return.
abbrev pub Harmless : Text → Type 0
Harmless [] = Unit {0}
Harmless (c ∷ cs) = (c ≢ 61) × (c ≢ 43) × (c ≢ 45) × (c ≢ 64) × (c ≢ 9) × (c ≢ 13)

plain-Harmless : (s : Text) → leads_formula s ≡ false → Harmless s
unfolding leads_formula is_lead
plain-Harmless [] h = tt
plain-Harmless (c ∷ cs) h =
    (ground arith, ground arith, ground arith, ground arith, ground arith, ground arith)

-- The guarded text: harmless, and the text itself or an apostrophe before it.
guard-Harmless :
    (s : Text) → Harmless (guard_formula s) × ((guard_formula s ≡ s) ⊎ (guard_formula s ≡ 39 ∷ s))
unfolding guard_formula
guard-Harmless s = elim (Bool-cases (leads_formula s)) [
  | inl lead ↦
      rw lead
        ((omega arith, omega arith, omega arith, omega arith, omega arith, omega arith), inr refl)
  | inr plain ↦ rw plain (plain-Harmless s plain, inl refl)
]

cell_read : (t : Text) → (scan begin (quote_cell t)).cell ≡ t
cell_read t =
    ap (λ (s : Scan). s.cell)
      (ap (scan begin) (sym (List.append-nil (quote_cell t)))
        ∙ cell_run [] [] t [] refl
        ∙ scan_nil _)

-- What a reader of CSV finds in an exported cell, after the quotation marks are taken off, starts with none of
-- = + - @, tab and carriage return, whatever the value is: it is the text of the value, or an apostrophe before it.
pub csv_cell_safe :
    {N : Type 0} (show : Json N → Text) (v : Json N)
    → let seen = (scan begin (csv_cell show v)).cell in
      Harmless seen × ((seen ≡ raw_text show v) ⊎ (seen ≡ 39 ∷ raw_text show v))
unfolding csv_cell
csv_cell_safe show v =
    let s = raw_text show v in rw (cell_read (guard_formula s)) (guard-Harmless s)
