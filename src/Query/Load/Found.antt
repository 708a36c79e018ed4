-- ===== src/Query/Load/Found.antt =====
-- What queryCallback of callback_query.go finds.
use gorm.Batch.Rows.{Statement}
use gorm.Errors.{Error, null, err_record_not_found}
use gorm.Query.Builder.{Builder}
use gorm.Query.Load.{Destination, unsupported, Rows, Loader, Loading, is_slice, hinted}
use gorm.Query.Load.Counted.{Counts, Counted}
use gorm.Prelude.{ℕ, String, ◌≡◌, ◌&&◌, not, List, [], ◌∷◌, ◌++◌, ◌≢◌, nat_eq, if◌then◌else◌}

-- The error that a query without errors of the database reports.
abbrev pub found_error : Destination → ℕ → Error
found_error d n = if nat_eq n 0 && not (is_slice d) then err_record_not_found else null

-- What a query leaves that the database answers with so many rows: their count, the statement behind
-- those before, so many elements for a slice, and the error.
abbrev pub Found : Destination → ℕ → List Statement → Loading → Type 0
Found d n sent s =
    (s.rows_affected ≡ n) × (s.sent ≡ sent) × Counts d n s × (s.builder.error ≡ found_error d n)

-- The statement, behind those that were sent before.
abbrev pub sent_with : Loader → String → Builder → Loading → List Statement
sent_with l sql b s = s.sent ++ record { sql = hinted l.query_hint sql; vars = b.vars } ∷ []

-- A destination that is supported.
abbrev pub IsSupported : Destination → Type 0
IsSupported d = d ≢ unsupported
