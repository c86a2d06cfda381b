-- ===== src/Csv/Validate/Tests.antt =====
-- A table with one row that is too short.
use file_forge.Base.{◌≡◌, true, some, List, [], ◌∷◌, arith}
use file_forge.Base.Text.{Text, codes}
use file_forge.Csv.Validate.{Inspection, validate}
use file_forge.Csv.Validate.Headed.{Reports, validate-Reports}

abbrev header : List Text
header = codes "name" ∷ codes " city " ∷ []

abbrev rows : List (List Text)
rows = (codes "Ada" ∷ codes "London" ∷ []) ∷ (codes "Bob" ∷ []) ∷ []

validate-Reports_example :
    (s : Inspection) × (validate true (header ∷ rows) ≡ some s) × Reports header rows s.report
validate-Reports_example = validate-Reports header rows (λ e. cc) (omega arith)
