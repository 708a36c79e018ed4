-- ===== src/Batch/Groups.antt =====
-- The second loop of `createBatch` in batch_create.go, which splits the prepared rows of a batch into
-- statements. `exec` runs one statement (`executeBatchCreateRows`) and gives the rows that it affected
-- and its error; its `none` is a panic.
use gorm.Errors.{Error, null}
use gorm.Model.{Dialect}
use gorm.Batch.Limits.{
  max_create_batch_rows, max_bind_vars, same_batch_columns, same_batch_columns_iff,
}
use gorm.Batch.Rows.{Row, Txn, Env}
use gorm.Prelude.Int.{ℤ, ◌+ℤ◌}
use gorm.Prelude.{
  ℕ, zero, suc, ◌-◌, ◌*◌, ◌≤◌, ◌<◌, String, ◌≡◌, refl, ap, sym, ◌⊎◌, inl, inr, ◌&&◌, Option, none,
  some, List, [], ◌∷◌, ◌++◌, length, ltb, arith, if◌then◌else◌, Bool-cases,
}

-- What one statement or batch leaves: the state, the rows affected, and the error.
abbrev pub Ran : Type 0
Ran = Option (Txn × ℤ × Error)

-- The first lines of the loop body: how many of the rows that are left one statement may hold, for a
-- row with so many columns.
unfoldable pub group_limit : Dialect → ℕ → ℕ → ℕ
group_limit dialect column_count left =
    let max_rows = max_create_batch_rows dialect.name column_count left in
    elim dialect.batch_create_max_rows [
      | none ↦ max_rows
      | some limit ↦ if ltb 0 limit && ltb limit max_rows then limit else max_rows
    ]

-- The inner loop: the rows behind the first one that join its group, at most `budget` of them, and
-- the rows that are left.
unfoldable pub extend_group : ℕ → List String → List Row → List Row × List Row
extend_group budget columns [] = ([], [])
extend_group zero columns (row ∷ rows) = ([], row ∷ rows)
extend_group (suc budget) columns (row ∷ rows) =
    let (more, rest) = extend_group budget columns rows in
    if same_batch_columns columns row.columns then (row ∷ more, rest) else ([], row ∷ rows)

-- The group of the first row, without that row, and the rows behind it.
unfoldable pub next_group : Env → Row → List Row → List Row × List Row
unfolding group_limit extend_group
next_group env first rows =
    extend_group
      (group_limit (env.scope first.address).dialect (length first.columns) (suc (length rows)) - 1)
      first.columns rows

-- `totalRowsAffected += rowsAffected` and the next round, or the return with the error.
abbrev pub and_continue : ℤ → Ran → (ℤ → Txn → Ran) → Ran
and_continue total none rest = none
and_continue total (some (t, affected, null)) rest = rest (total +ℤ affected) t
and_continue total (some (t, affected, e)) rest = some (t, total, e)

-- The loop.
unfoldable pub run_groups : Env → (List Row → Txn → Ran) → ℕ → List Row → ℤ → Txn → Ran
run_groups env exec fuel [] total t = some (t, total, null)
run_groups env exec zero (first ∷ rows) total t = none
run_groups env exec (suc fuel) (first ∷ rows) total t =
    let (more, rest) = next_group env first rows in
    and_continue total (exec (first ∷ more) t) (run_groups env exec fuel rest)

-- The statements of some groups, one after the other, up to the first error.
unfoldable pub run_each : (List Row → Txn → Ran) → List (List Row) → ℤ → Txn → Ran
run_each exec [] total t = some (t, total, null)
run_each exec (group ∷ groups) total t = and_continue total (exec group t) (run_each exec groups)

abbrev pub AllHave : List String → List Row → Type 0
AllHave columns [] = Unit
AllHave columns (row ∷ rows) = (row.columns ≡ columns) × AllHave columns rows

-- So many rows of so many columns fit into one statement: they keep the bind variables within the
-- limit, if there is one, or they are one row; and they keep to the limit that the dialect sets.
abbrev pub Fits : Dialect → ℕ → ℕ → Type 0
Fits dialect rows columns =
    ((rows * columns ≤ max_bind_vars dialect.name) ⊎ (rows ≡ 1) ⊎ (max_bind_vars dialect.name ≡ 0))
    × ((limit : ℕ) → dialect.batch_create_max_rows ≡ some limit → 0 < limit → rows ≤ limit)

-- A statement: at least one row, all with the columns of the first, and no more than fit.
abbrev pub IsGroup : Env → List Row → Type 0
IsGroup env [] = ⊥
IsGroup env (first ∷ more) =
    AllHave first.columns more
    × Fits (env.scope first.address).dialect (suc (length more)) (length first.columns)

abbrev pub AllGroups : Env → List (List Row) → Type 0
AllGroups env [] = Unit
AllGroups env (group ∷ groups) = IsGroup env group × AllGroups env groups

abbrev pub rows_of : List (List Row) → List Row
rows_of [] = []
rows_of (group ∷ groups) = group ++ rows_of groups

pub extend_group-append :
    (budget : ℕ) (columns : List String) (rows : List Row)
    → (extend_group budget columns rows).0 ++ (extend_group budget columns rows).1 ≡ rows
unfolding extend_group
extend_group-append budget columns [] = refl
extend_group-append zero columns (row ∷ rows) = refl
extend_group-append (suc budget) columns (row ∷ rows) =
    elim (Bool-cases (same_batch_columns columns row.columns)) [
      | inl equal ↦ rw equal (ap (λ l. row ∷ l) (extend_group-append budget columns rows))
      | inr differs ↦ rw differs refl
    ]

pub extend_group-AllHave :
    (budget : ℕ) (columns : List String) (rows : List Row)
    → AllHave columns (extend_group budget columns rows).0
unfolding extend_group
extend_group-AllHave budget columns [] = tt
extend_group-AllHave zero columns (row ∷ rows) = tt
extend_group-AllHave (suc budget) columns (row ∷ rows) =
    elim (Bool-cases (same_batch_columns columns row.columns)) [
      | inl equal ↦ rw equal (
        sym ((same_batch_columns_iff columns row.columns).0 equal),
        extend_group-AllHave budget columns rows,
      )
      | inr differs ↦ rw differs tt
    ]

pub extend_group-length :
    (budget : ℕ) (columns : List String) (rows : List Row)
    → (length (extend_group budget columns rows).0 ≤ budget)
      × (length (extend_group budget columns rows).1 ≤ length rows)
unfolding extend_group
extend_group-length budget columns [] = (omega arith, omega arith)
extend_group-length zero columns (row ∷ rows) = (omega arith, omega arith)
extend_group-length (suc budget) columns (row ∷ rows) =
    let (fit, fewer) = extend_group-length budget columns rows in
    elim (Bool-cases (same_batch_columns columns row.columns)) [
      | inl equal ↦ rw equal (omega arith, omega arith)
      | inr differs ↦ rw differs (omega arith, omega arith)
    ]
