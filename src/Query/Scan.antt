-- ===== src/Query/Scan.antt =====
-- `buildScanPlan` of scope.go: which field a column of a result is scanned into.
pub mod Plan
use gorm.Model.{Field}
use gorm.Prelude.{
  ℕ, zero, suc, String, Bool, Option, none, some, List, [], ◌∷◌, ◌==◌, drop, if◌then◌else◌,
}

-- The loop over the fields from `index` on: the last field of the column, up to the first that is
-- normal.
unfoldable pub pick : String → ℕ → Option ℕ → List Field → Option ℕ
pick column index found [] = found
pick column index found (f ∷ fields) =
    let rest = pick column (suc index) found fields in
    let more = pick column (suc index) (some index) fields in
    if f.db_name == column then (if f.is_normal then some index else more) else rest

-- selectedColumnsMap
unfoldable pub selected : List (String × ℕ) → String → Option ℕ
selected [] column = none
selected ((c, index) ∷ entries) column = if c == column then some index else selected entries column

abbrev pub offset_of : Option ℕ → ℕ
offset_of none = zero
offset_of (some index) = suc index

-- The field of one column, where -1 is `none`.
unfoldable pub field_for : List (String × ℕ) → String → List Field → Option ℕ
unfolding pick selected
field_for entries column fields =
    let offset = offset_of (selected entries column) in pick column offset none (drop offset fields)

abbrev pub remember : String → Option ℕ → List (String × ℕ) → List (String × ℕ)
remember column none entries = entries
remember column (some index) entries = (column, index) ∷ entries

-- The loop over the columns.
unfoldable pub plan_from : List (String × ℕ) → List String → List Field → List (Option ℕ)
plan_from entries [] fields = []
plan_from entries (column ∷ columns) fields =
    let found = field_for entries column fields in
    found ∷ plan_from (remember column found entries) columns fields

-- buildScanPlan
unfoldable pub build_scan_plan : List String → List Field → List (Option ℕ)
unfolding plan_from
build_scan_plan columns fields = plan_from [] columns fields
