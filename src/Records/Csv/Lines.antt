-- ===== src/Records/Csv/Lines.antt =====
-- parseCsv on lines of cells that were put in quotation marks where needed.
use mathlib.Core.List
use mathlib.Core.List.Memᴰ
use nocode_app.Base.{
  ℕ, Text, true, false, ◌||◌, Option, List, [], ◌∷◌, ◌++◌, map, filter, any, ◌==◌, ==_iff, ◌≡◌,
  refl, sym, ap, ◌∙◌, arith, Bool-cases, inl, inr,
}
use nocode_app.Records.Csv.{is_special, double_quotes, quote_cell}
use nocode_app.Records.Csv.Reader.{
  Scan, is_quote, next_of, step, scan, has_any, finish_rows, join_with,
}

abbrev plain_at : List (List Text) → List Text → Text → Scan
plain_at rows row cell = record {
  rows = rows;
  row = row;
  cell = cell;
  in_quotes = false;
  skips = false;
}

abbrev quoted_at : List (List Text) → List Text → Text → Scan
quoted_at rows row cell = record {
  rows = rows;
  row = row;
  cell = cell;
  in_quotes = true;
  skips = false;
}

module _ (rows : List (List Text)) (row : List Text) where
  plain_char :
      (x : Text) (c : ℕ) (next : Option ℕ)
      → is_special c ≡ false
      → step (plain_at rows row x) c next ≡ plain_at rows row (x ++ c ∷ [])
  unfolding step is_special
  plain_char x c next h = ground arith

  plain_run :
      (t rest x : Text)
      → any is_special t ≡ false
      → scan (plain_at rows row x) (t ++ rest) ≡ scan (plain_at rows row (x ++ t)) rest
  unfolding scan any
  plain_run [] rest x h = rw (List.append-nil x) refl
  plain_run (c ∷ cs) rest x h =
      ap (λ s. scan s (cs ++ rest)) (plain_char x c (next_of (cs ++ rest)) (ground arith))
      ∙ plain_run cs rest (x ++ c ∷ []) (ground arith)
      ∙ ap (λ t. scan (plain_at rows row t) rest) (List.append_assoc x (c ∷ []) cs)

  quoted_char :
      (x : Text) (c : ℕ) (next : Option ℕ)
      → (c == 34) ≡ false
      → step (quoted_at rows row x) c next ≡ quoted_at rows row (x ++ c ∷ [])
  unfolding step
  quoted_char x c next h = rw h refl

  quoted_run :
      (t rest x : Text)
      → is_quote (next_of rest) ≡ false
      → scan (quoted_at rows row x) (double_quotes t ++ (34 ∷ rest))
        ≡ scan (plain_at rows row (x ++ t)) rest
  unfolding scan double_quotes step
  quoted_run [] rest x h = rw (h, List.append-nil x) refl
  quoted_run (c ∷ cs) rest x h = elim (Bool-cases (c == 34)) [
    | inl e ↦
        let same : c ≡ 34 = (==_iff c 34).0 e in
        rw e (
          quoted_run cs rest (x ++ 34 ∷ []) h
          ∙ ap (λ t. scan (plain_at rows row t) rest)
              (List.append_assoc x (34 ∷ []) cs ∙ ap (λ d. x ++ d ∷ cs) (sym same)))
    | inr e ↦
        let behind = double_quotes cs ++ (34 ∷ rest) in
        rw e (
          ap (λ s. scan s behind) (quoted_char x c (next_of behind) e)
          ∙ quoted_run cs rest (x ++ c ∷ []) h
          ∙ ap (λ t. scan (plain_at rows row t) rest) (List.append_assoc x (c ∷ []) cs))
  ]

  pub cell_run :
      (t rest : Text)
      → is_quote (next_of rest) ≡ false
      → scan (plain_at rows row []) (quote_cell t ++ rest) ≡ scan (plain_at rows row t) rest
  unfolding quote_cell scan step
  cell_run t rest h = elim (Bool-cases (any is_special t)) [
    | inl e ↦ rw e (
        ap (λ text. scan (quoted_at rows row []) text)
          (List.append_assoc (double_quotes t) (34 ∷ []) rest)
        ∙ quoted_run t rest [] h)
    | inr e ↦ rw e (plain_run t rest [] e)
  ]

-- The scan behind the last cell of a line.
abbrev ended : List (List Text) → List Text → Text → List Text → Scan
ended rows row c [] = plain_at rows row c
ended rows row c (d ∷ ds) = ended rows (row ++ c ∷ []) d ds

abbrev pub texts_line : List Text → Text
texts_line ts = join_with (44 ∷ []) (map quote_cell ts)

comma_run :
    (rows : List (List Text)) (row : List Text) (c rest : Text)
    → scan (plain_at rows row c) (44 ∷ rest) ≡ scan (plain_at rows (row ++ c ∷ []) []) rest
unfolding scan step
comma_run rows row c rest = refl

pub scan_nil : (s : Scan) → scan s [] ≡ s
unfolding scan
scan_nil s = refl

line_run :
    (rows : List (List Text)) (row : List Text) (c : Text) (cs : List Text) (rest : Text)
    → is_quote (next_of rest) ≡ false
    → scan (plain_at rows row []) (texts_line (c ∷ cs) ++ rest) ≡ scan (ended rows row c cs) rest
unfolding join_with
line_run rows row c [] rest h = cell_run rows row c rest h
line_run rows row c (d ∷ ds) rest h =
    ap (λ t. scan (plain_at rows row []) t)
      (List.append_assoc (quote_cell c ++ 44 ∷ []) (texts_line (d ∷ ds)) rest
        ∙ List.append_assoc (quote_cell c) (44 ∷ []) (texts_line (d ∷ ds) ++ rest))
    ∙ cell_run rows row c (44 ∷ (texts_line (d ∷ ds) ++ rest)) refl
    ∙ comma_run rows row c (texts_line (d ∷ ds) ++ rest)
    ∙ line_run rows (row ++ c ∷ []) d ds rest h

break_run :
    (rows : List (List Text)) (row : List Text) (c : Text) (cs : List Text) (rest : Text)
    → scan (ended rows row c cs) (13 ∷ 10 ∷ rest)
      ≡ scan (plain_at (rows ++ (row ++ c ∷ cs) ∷ []) [] []) rest
unfolding scan step
break_run rows row c [] rest = refl
break_run rows row c (d ∷ ds) rest =
    break_run rows (row ++ c ∷ []) d ds rest
    ∙ ap (λ r. scan (plain_at (rows ++ r ∷ []) [] []) rest)
        (List.append_assoc row (c ∷ []) (d ∷ ds))

has_any-concat : (row : List Text) (c : Text) → has_any (row ++ c ∷ []) ≡ true
has_any-concat [] c = refl
has_any-concat (t ∷ ts) c = refl

finish_rows-ended :
    (rows : List (List Text)) (row : List Text) (c : Text) (cs : List Text)
    → (has_any c || has_any row) ≡ true
    → finish_rows (ended rows row c cs) ≡ rows ++ (row ++ c ∷ cs) ∷ []
unfolding finish_rows
finish_rows-ended rows row c [] h = rw h refl
finish_rows-ended rows row c (d ∷ ds) h =
    finish_rows-ended rows (row ++ c ∷ []) d ds (ground (arith, has_any-concat row c))
    ∙ ap (λ r. rows ++ r ∷ []) (List.append_assoc row (c ∷ []) (d ∷ ds))

-- Rows of cells whose first cell is not empty.
abbrev pub Firsts : List (Text × List Text) → Type 0
Firsts [] = Unit {0}
Firsts (p ∷ ps) = (has_any p.0 ≡ true) × Firsts ps

abbrev pub cells_row : Text × List Text → List Text
cells_row p = p.0 ∷ p.1

abbrev pub printed : List (Text × List Text) → Text
printed ps = join_with (13 ∷ 10 ∷ []) (map (λ p. texts_line (cells_row p)) ps)

pub lines_run :
    (rows : List (List Text)) (p : Text × List Text) (ps : List (Text × List Text))
    → Firsts (p ∷ ps)
    → finish_rows (scan (plain_at rows [] []) (printed (p ∷ ps))) ≡ rows ++ map cells_row (p ∷ ps)
unfolding join_with
lines_run rows p [] h =
    ap (λ t. finish_rows (scan (plain_at rows [] []) t))
      (sym (List.append-nil (texts_line (cells_row p))))
    ∙ ap finish_rows (line_run rows [] (p.0) (p.1) [] refl)
    ∙ ap finish_rows (scan_nil (ended rows [] p.0 p.1))
    ∙ finish_rows-ended rows [] p.0 p.1 (ground (arith, h.0))
lines_run rows p (q ∷ qs) h =
    ap (λ t. finish_rows (scan (plain_at rows [] []) t))
      (List.append_assoc (texts_line (cells_row p)) (13 ∷ 10 ∷ []) (printed (q ∷ qs)))
    ∙ ap finish_rows (line_run rows [] (p.0) (p.1) (13 ∷ 10 ∷ printed (q ∷ qs)) refl)
    ∙ ap finish_rows (break_run rows [] (p.0) (p.1) (printed (q ∷ qs)))
    ∙ lines_run (rows ++ cells_row p ∷ []) q qs (h.1)
    ∙ List.append_assoc rows (cells_row p ∷ []) (map cells_row (q ∷ qs))

pub keeps_rows :
    (ps : List (Text × List Text))
    → Firsts ps
    → filter (any has_any) (map cells_row ps) ≡ map cells_row ps
unfolding filter any
keeps_rows [] h = refl
keeps_rows (p ∷ ps) h = rw (h.0) (ap (λ r. cells_row p ∷ r) (keeps_rows ps h.1))
