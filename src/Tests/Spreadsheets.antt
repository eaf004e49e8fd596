-- ===== src/Tests/Spreadsheets.antt =====
-- Departments from a file: a new one below the laboratory, and headquarters asked to go below the team.
use nocode_app.Base.{
  ℕ, ◌<◌, Text, codes, text_eq, text_eq_iff, has, true, false, Option, none, List, [], ◌∷◌, ◌++◌,
  length, length-append, ◌≡◌, ap, arith, Bool-cases, inl, inr,
}
use nocode_app.Base.Int.{ℤ}
use nocode_app.Json.{Json, string, object, member, end}
use nocode_app.Schema.{Group}
use nocode_app.Groups.Ops.Forest.{IsForest, group_ids}
use nocode_app.Groups.Import.{import_groups}
use nocode_app.Groups.Import.Forest.{import_groups-IsForest}
use nocode_app.Tests.Organisation.{company}
use nocode_app.Tests.Departments.{company-IsForest}

-- A key that is longer than all keys.
abbrev long_key : List Group → Text
long_key [] = 49 ∷ []
long_key (g ∷ gs) = 49 ∷ (g.id ++ long_key gs)

longer :
    (gs : List Group) (x : Text) → has (group_ids gs) x ≡ true → length x < length (long_key gs)
unfolding has
longer [] x h = cc
longer (g ∷ gs) x h = elim (Bool-cases (text_eq g.id x)) [
  | inl e ↦ omega (arith, ap length ((text_eq_iff g.id x).0 e), length-append g.id (long_key gs))
  | inr e ↦ omega (arith, longer gs x (rw e at h), length-append g.id (long_key gs))
]

long_key_new : (gs : List Group) → has (group_ids gs) (long_key gs) ≡ false
long_key_new gs = elim (Bool-cases (has (group_ids gs) (long_key gs))) [
  | inr e ↦ e
  | inl e ↦ absurd (omega (arith, longer gs (long_key gs) e))
]

abbrev cell_text : Json ℕ → Text
cell_text (string s) = s
cell_text v = []

abbrev no_number : Text → Option ℤ
no_number t = none

abbrev placed_row : Text → Text → Json ℕ
placed_row name parent =
    object (member (codes "name") (string name) (member (codes "parent") (string parent) end))

abbrev file_rows : List (Json ℕ)
file_rows =
    placed_row (codes "Chips") (codes "Lab")
    ∷ placed_row (codes "HQ") (codes "Team")
    ∷ placed_row (codes "Lab") (codes "Lab")
    ∷ []

import_groups-IsForest_example :
    IsForest (import_groups cell_text no_number long_key file_rows company).groups
import_groups-IsForest_example =
    import_groups-IsForest cell_text no_number long_key long_key_new file_rows company
      company-IsForest
