-- ===== src/Tests/Exports.antt =====
-- An export with a comma and a quotation mark in a cell, read back.
use mathlib.Core.List.Memᴰ
use nocode_app.Base.{ℕ, ◌∙◌, codes, [], ◌∷◌, ◌≡◌, ◌≢◌, map, refl, sym, ap, Memᴰ}
use nocode_app.Json.{string, member, end}
use nocode_app.Records.Csv.Reader.{ExportField, ExportRow, heading, cells_of, export_csv, parse_csv}
use nocode_app.Records.Csv.RoundTrip.{shown, parse-export}
use nocode_app.Tests.Definitions.{text_of_json}

abbrev remark : ExportField
remark = record { field_code = codes "remark"; label = codes "Remark" }

abbrev sold : ExportRow ℕ
sold = record {
  id = codes "r1";
  data_json = member (codes "remark") (string (codes "a,\"b\"")) end;
}

has_id : (r : ExportRow ℕ) → Memᴰ r (sold ∷ []) → r.id ≢ []
has_id r m e =
    let same : r ≡ sold = Memᴰ.eq_of_singleton m in
    let empty : codes "r1" ≡ [] = sym (ap (λ x. x.id) same) ∙ e in cc

parse-export_example :
    parse_csv (export_csv text_of_json (remark ∷ []) (sold ∷ []))
    ≡ map
        (map (shown text_of_json))
        (heading text_of_json (remark ∷ []) ∷ map (cells_of text_of_json (remark ∷ [])) (sold ∷ []))
parse-export_example = parse-export text_of_json (remark ∷ []) (sold ∷ []) (λ s. refl) has_id
