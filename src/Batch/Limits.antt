-- ===== src/Batch/Limits.antt =====
-- How many rows one statement may hold: `maxCreateBatchRows` and `sameBatchColumns` of batch_create.go.
use gorm.Prelude.{
  ℕ, ◌*◌, ◌/◌, ◌≤◌, ◌<◌, String, ◌≡◌, refl, ◌⊎◌, inl, inr, Bool, true, false, ◌&&◌, List, [], ◌∷◌,
  ◌==◌, eq_iff, arith, ltb, nat_eq, if◌then◌else◌, ◌↔◌, Bool-cases,
}

abbrev pub sqlite_max_batch_bind_vars : ℕ
sqlite_max_batch_bind_vars = 32766

abbrev pub mysql_max_batch_bind_vars : ℕ
mysql_max_batch_bind_vars = 65535

abbrev pub postgres_max_batch_bind_vars : ℕ
postgres_max_batch_bind_vars = 65535

abbrev pub mssql_max_batch_bind_vars : ℕ
mssql_max_batch_bind_vars = 2100

-- The `switch dialect` of `maxCreateBatchRows`; 0 means that no limit is known.
unfoldable pub max_bind_vars : String → ℕ
max_bind_vars dialect =
    if dialect == "sqlite3"
    then sqlite_max_batch_bind_vars
    else if dialect == "mysql"
    then mysql_max_batch_bind_vars
    else if dialect == "postgres"
    then postgres_max_batch_bind_vars
    else if dialect == "mssql"
    then mssql_max_batch_bind_vars
    else 0

-- The rest of `maxCreateBatchRows`, for a limit, at least one row and at least one column.
bound_rows : ℕ → ℕ → ℕ → ℕ
bound_rows limit column_count requested =
    if nat_eq limit 0
    then requested
    else if ltb (limit / column_count) requested
    then (if ltb (limit / column_count) 1 then 1 else limit / column_count)
    else requested

-- maxCreateBatchRows
unfoldable pub max_create_batch_rows : String → ℕ → ℕ → ℕ
unfolding bound_rows
max_create_batch_rows dialect column_count requested =
    if ltb column_count 1
    then 1
    else bound_rows (max_bind_vars dialect) column_count (if ltb requested 1 then 1 else requested)

-- sameBatchColumns: equal lengths, and equal at every index.
unfoldable pub same_batch_columns : List String → List String → Bool
same_batch_columns [] [] = true
same_batch_columns (a ∷ left) (b ∷ right) = a == b && same_batch_columns left right
same_batch_columns _ _ = false

div_times : (m c : ℕ) → m / c * c ≤ m
div_times m c = grind arith

ltb-eq_false : (n : ℕ) → 0 < n → ltb n 1 ≡ false
ltb-eq_false n h = ground arith

times_mono : (a b c : ℕ) → a ≤ b → a * c ≤ b * c
times_mono a b c h = grind arith

bound_rows_ge : (limit c r : ℕ) → 0 < r → 1 ≤ bound_rows limit c r
unfolding bound_rows
bound_rows_ge limit c r h = ground arith

bound_rows_le : (limit c r : ℕ) → 0 < r → bound_rows limit c r ≤ r
unfolding bound_rows
bound_rows_le limit c r h = ground arith

bound_rows_fit :
    (limit c r : ℕ) → (bound_rows limit c r * c ≤ limit) ⊎ (bound_rows limit c r ≡ 1) ⊎ (limit ≡ 0)
unfolding bound_rows
bound_rows_fit limit c r = elim (Bool-cases (nat_eq limit 0)) [
  | inl none_known ↦ inr (inr (ground arith))
  | inr known ↦ elim (Bool-cases (ltb (limit / c) r)) [
    | inl less ↦ elim (Bool-cases (ltb (limit / c) 1)) [
      | inl tiny ↦ inr (inl (rw (known, less, tiny)))
      | inr some ↦ inl (rw (known, less, some) (div_times limit c))
    ]
    | inr more ↦ inl (
        rw (known, more)
          (omega (arith, div_times limit c, times_mono r (limit / c) c (ground arith))))
  ]
]

-- For at least one column and at least one row left, a statement gets at least one row and no more
-- than are left, and its bind variables stay within the limit of the dialect, unless a single row
-- passes it or the dialect has no known limit.
pub max_create_batch_rows_bounds :
    (dialect : String) (columns requested : ℕ)
    → 0 < columns
    → 0 < requested
    → (1 ≤ max_create_batch_rows dialect columns requested)
      × (max_create_batch_rows dialect columns requested ≤ requested)
      × ((max_create_batch_rows dialect columns requested * columns ≤ max_bind_vars dialect)
          ⊎ (max_create_batch_rows dialect columns requested ≡ 1)
          ⊎ (max_bind_vars dialect ≡ 0))
unfolding max_create_batch_rows
max_create_batch_rows_bounds dialect columns requested c r =
    rw (ltb-eq_false columns c, ltb-eq_false requested r)
      (
        bound_rows_ge (max_bind_vars dialect) columns requested r,
        bound_rows_le (max_bind_vars dialect) columns requested r,
        bound_rows_fit (max_bind_vars dialect) columns requested,
      )

-- sameBatchColumns decides equality of the column lists.
pub same_batch_columns_iff :
    (left right : List String) → (same_batch_columns left right ≡ true) ↔ (left ≡ right)
unfolding same_batch_columns
same_batch_columns_iff [] [] = (λ _. refl, λ _. refl)
same_batch_columns_iff [] (b ∷ right) = (λ h. cc, λ h. cc)
same_batch_columns_iff (a ∷ left) [] = (λ h. cc, λ h. cc)
same_batch_columns_iff (a ∷ left) (b ∷ right) = (
  λ h. ground (arith, eq_iff a b, (same_batch_columns_iff left right).0),
  λ h. ground (arith, eq_iff a b, (same_batch_columns_iff left right).1),
)
