-- ===== src/Batch/Split.antt =====
-- How `createBatch` of batch_create.go splits its rows: every group fits into one statement.
use gorm.Model.{Dialect}
use gorm.Batch.Limits.{max_create_batch_rows, max_bind_vars, max_create_batch_rows_bounds}
use gorm.Batch.Rows.{Row, Txn, Env}
use gorm.Batch.Groups.{
  Ran, group_limit, extend_group, next_group, and_continue, run_groups, run_each, Fits, IsGroup,
  AllGroups, rows_of, extend_group-append, extend_group-AllHave, extend_group-length,
}
use gorm.Prelude.Int.{ℤ}
use gorm.Prelude.{
  ℕ, zero, suc, ◌-◌, ◌*◌, ◌≤◌, ◌<◌, String, ◌≡◌, refl, ap, ◌∙◌, ◌⊎◌, inl, inr, ◌&&◌, some, List, [],
  ◌∷◌, ◌++◌, length, ltb, arith, Bool-cases, Option-cases,
}

no_columns : (dialect : String) (left : ℕ) → max_create_batch_rows dialect 0 left ≡ 1
unfolding max_create_batch_rows
no_columns dialect left = refl

fewer_fit : (n m c l : ℕ) → n ≤ m → m * c ≤ l → n * c ≤ l
fewer_fit n m c l h k = grind arith

max_positive : (dialect : String) (c left : ℕ) → 0 < left → 1 ≤ max_create_batch_rows dialect c left
max_positive dialect zero left h = rw (no_columns dialect left) (omega arith)
max_positive dialect (suc c) left h =
    (max_create_batch_rows_bounds dialect (suc c) left (omega arith) h).0

max_fits :
    (dialect : String) (c left n : ℕ)
    → 0 < left
    → 1 ≤ n
    → n ≤ max_create_batch_rows dialect c left
    → (n * c ≤ max_bind_vars dialect) ⊎ (n ≡ 1) ⊎ (max_bind_vars dialect ≡ 0)
max_fits dialect zero left n h one le = inr (inl (ground (arith, no_columns dialect left)))
max_fits dialect (suc c) left n h one le =
    let (low, high, fit) = max_create_batch_rows_bounds dialect (suc c) left (omega arith) h in
    elim fit [
      | inl small ↦ inl (fewer_fit n _ (suc c) _ le small)
      | inr (inl single) ↦ inr (inl (omega arith))
      | inr (inr unlimited) ↦ inr (inr unlimited)
    ]

group_limit_bounds :
    (dialect : Dialect) (c left : ℕ)
    → 0 < left
    → (1 ≤ group_limit dialect c left)
      × (group_limit dialect c left ≤ max_create_batch_rows dialect.name c left)
unfolding group_limit
group_limit_bounds dialect c left h =
    let positive = max_positive dialect.name c left h in
    elim (Option-cases dialect.batch_create_max_rows) [
      | inl free ↦ rw free (positive, omega arith)
      | inr (limit, bound) ↦
          elim (Bool-cases (ltb 0 limit && ltb limit (max_create_batch_rows dialect.name c left))) [
            | inl less ↦ rw (bound, less) (ground arith, ground arith)
            | inr more ↦ rw (bound, more) (positive, omega arith)
          ]
    ]

group_limit_dialect :
    (dialect : Dialect) (c left limit : ℕ)
    → dialect.batch_create_max_rows ≡ some limit
    → 0 < limit
    → group_limit dialect c left ≤ limit
unfolding group_limit
group_limit_dialect dialect c left limit bound positive = ground (arith, bound)

group_Fits :
    (dialect : Dialect) (c left n : ℕ)
    → 0 < left
    → 1 ≤ n
    → n ≤ group_limit dialect c left
    → Fits dialect n c
group_Fits dialect c left n h one le =
    let (low, high) = group_limit_bounds dialect c left h in
    (
      max_fits dialect.name c left n h one (omega (arith, le, high)),
      λ limit bound positive.
          omega (arith, le, group_limit_dialect dialect c left limit bound positive),
    )

-- The first row with the rows that join it is a group, and fewer rows are left.
next_group-IsGroup :
    (env : Env) (first : Row) (rows : List Row)
    → IsGroup env (first ∷ (next_group env first rows).0)
      × ((next_group env first rows).0 ++ (next_group env first rows).1 ≡ rows)
      × (length (next_group env first rows).1 ≤ length rows)
unfolding next_group
next_group-IsGroup env first rows =
    let dialect = (env.scope first.address).dialect in
    let limit = group_limit dialect (length first.columns) (suc (length rows)) in
    let (low, high) =
      group_limit_bounds dialect (length first.columns) (suc (length rows)) (omega arith) in
    let (fit, fewer) = extend_group-length (limit - 1) first.columns rows in
    let n = suc (length (extend_group (limit - 1) first.columns rows).0) in
    (
      (
        extend_group-AllHave (limit - 1) first.columns rows,
        group_Fits dialect (length first.columns) (suc (length rows)) n (omega arith) (omega arith)
            (omega (arith, low, fit)),
      ),
      extend_group-append (limit - 1) first.columns rows,
      fewer,
    )

and_continue-ap :
    (total : ℤ) (ran : Ran) (f g : ℤ → Txn → Ran)
    → ((n : ℤ) (t : Txn) → f n t ≡ g n t)
    → and_continue total ran f ≡ and_continue total ran g
and_continue-ap total ran f g same =
    let both : f ≡ g = λ i. λ n t. same n t i in ap (and_continue total ran) both

-- With as much fuel as there are rows, createBatch's loop ends, and the rows split, in their
-- order, into groups that each have the same columns throughout and fit into one statement (within
-- the limit of bind variables, if there is one, or a single row, and within the dialect's own
-- limit), such that the loop runs the statements of these groups one after the other, up to the
-- first error.
pub run_groups-splits :
    (env : Env) (exec : List Row → Txn → Ran) (fuel : ℕ) (rows : List Row)
    → length rows ≤ fuel
    → (groups : List (List Row)) × (rows_of groups ≡ rows)
      × AllGroups env groups
      × ((total : ℤ) (t : Txn)
          → run_groups env exec fuel rows total t ≡ run_each exec groups total t)
unfolding run_groups run_each
run_groups-splits env exec fuel [] enough = ([], refl, tt, λ total t. refl)
run_groups-splits env exec zero (first ∷ rows) enough = absurd (omega (arith, enough))
run_groups-splits env exec (suc fuel) (first ∷ rows) enough =
    let more = (next_group env first rows).0 in
    let rest = (next_group env first rows).1 in
    let (group, split, fewer) = next_group-IsGroup env first rows in
    let (groups, whole, all, same) =
      run_groups-splits env exec fuel rest (omega (arith, enough, fewer)) in
    (
      (first ∷ more) ∷ groups,
      ap (λ l. first ∷ l) (ap (λ l. more ++ l) whole ∙ split),
      (group, all),
      λ total t.
          and_continue-ap total (exec (first ∷ more) t) (run_groups env exec fuel rest)
            (run_each exec groups) same,
    )
