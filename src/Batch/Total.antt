-- ===== src/Batch/Total.antt =====
-- `createBatch` and the loop of `createInBatches` in batch_create.go end: if no hook panics, without a
-- panic.
use gorm.Errors.{null, plain, many, same}
use gorm.Model.{Scope, Result, ok, err, Result-cases}
use gorm.Batch.Conflict.{insert_option-returns}
use gorm.Batch.Create.{
  prepare_rows, run_prepared, create_batch, Ending, returned, panicked, ending_of, batch_or_panic,
  and_next_batch, run_batches,
}
use gorm.Batch.Execute.{execute_batch_create_rows}
use gorm.Batch.Groups.{Ran, and_continue, run_each}
use gorm.Batch.Rows.{Row, Txn, Env, Elem}
use gorm.Batch.Split.{run_groups-splits}
use gorm.Batch.Statement.{extra_option, is_empty, build_statement}
use gorm.Prelude.Int.{ℤ, pos, ◌+ℤ◌}
use gorm.Prelude.{
  ℕ, zero, suc, ◌≤◌, String, ◌≡◌, refl, inl, inr, Option, none, some, List, [], ◌∷◌, length, take,
  drop, arith, Bool-cases, Option-cases,
}

-- It returns, without a panic and before its fuel is used up.
abbrev pub Returns {ℓ} : {A : Type ℓ} → Option A → Type ℓ
Returns {A = A} o = (a : A) × (o ≡ some a)

extra_option-Returns :
    (env : Env) (scope : Scope) (save : Option (List String)) (columns : List String)
    → Returns (extra_option env scope save columns)
unfolding extra_option
extra_option-Returns env scope none columns = (_, refl)
extra_option-Returns env scope (some conflict) columns =
    let (r, text, _) = insert_option-returns scope conflict columns in
    elim (Option-cases scope.dialect.batch_save_sql) [
      | inr (sql, found) ↦ rw found (_, refl)
      | inl missing ↦ elim (Bool-cases (is_empty columns)) [
        | inl none_given ↦ rw (missing, none_given) (_, refl)
        | inr given ↦ (r, ground (arith, missing, given, text))
      ]
    ]

build_statement-Returns :
    (env : Env) (save : Option (List String)) (first : Row) (more : List Row) (t : Txn)
    → Returns (build_statement env save first more t)
unfolding build_statement
build_statement-Returns env save first more t =
    let scope : Scope = record (env.scope first.address) { fields = t.object first.address } in
    let (r, extra) = extra_option-Returns env scope save first.columns in
    elim (Result-cases r) [
      | inl (text, done) ↦ rw (build_statement, extra, done) (_, refl)
      | inr (e, failed) ↦ rw (build_statement, extra, failed) (_, refl)
    ]

execute-Returns :
    (env : Env) (save : Option (List String)) (rows : List Row) (t : Txn)
    → Returns (execute_batch_create_rows env save rows t)
unfolding execute_batch_create_rows
execute-Returns env save [] t = (_, refl)
execute-Returns env save (first ∷ more) t =
    let (r, built) = build_statement-Returns env save first more t in
    elim (Result-cases r) [
      | inl (statement, done) ↦ rw (execute_batch_create_rows, built, done) (_, refl)
      | inr (e, failed) ↦ rw (execute_batch_create_rows, built, failed) (_, refl)
    ]

and_continue-Returns :
    (total : ℤ) (ran : Ran) (rest : ℤ → Txn → Ran)
    → Returns ran
    → ((n : ℤ) (t : Txn) → Returns (rest n t))
    → Returns (and_continue total ran rest)
and_continue-Returns total none rest (_, h) next = absurd cc
and_continue-Returns total (some (t, affected, null)) rest h next = next (total +ℤ affected) t
and_continue-Returns total (some (t, affected, plain a m)) rest h next = (_, refl)
and_continue-Returns total (some (t, affected, many es)) rest h next = (_, refl)

run_each-Returns :
    (exec : List Row → Txn → Ran) (groups : List (List Row))
    → ((rows : List Row) (t : Txn) → Returns (exec rows t))
    → (total : ℤ) (t : Txn) → Returns (run_each exec groups total t)
unfolding run_each
run_each-Returns exec [] h total t = (_, refl)
run_each-Returns exec (group ∷ groups) h total t =
    and_continue-Returns total (exec group t) (run_each exec groups) (h group t)
      (run_each-Returns exec groups h)

run_prepared-Returns :
    (env : Env) (save : Option (List String)) (prepared : Txn × Result (List Row))
    → Returns (run_prepared env save prepared)
run_prepared-Returns env save (t, err e) = (_, refl)
run_prepared-Returns env save (t, ok rows) =
    let (groups, whole, all, same) =
      run_groups-splits env (execute_batch_create_rows env save) (length rows) rows (omega arith) in
    rw (same (pos 0) t) (
      run_each-Returns (execute_batch_create_rows env save) groups (execute-Returns env save)
        (pos 0) t)

-- If the hooks return, createBatch returns for every slice: its statements are built without a
-- panic, and its loop ends.
pub create_batch-Returns :
    (env : Env) (save : Option (List String)) (elems : List Elem) (t : Txn)
    → Returns (create_batch env save elems t)
unfolding create_batch
create_batch-Returns env save elems t =
    run_prepared-Returns env save (prepare_rows env save elems [] t)

pub length-drop {ℓ} :
    {A : Type ℓ} (size : ℕ) (elems : List A) → length (drop size elems) ≤ length elems
length-drop zero elems = omega arith
length-drop (suc size) [] = omega arith
length-drop (suc size) (elem ∷ elems) = omega (arith, length-drop size elems)

ending_of-Returns : (ran : Ran) → Returns ran → Returns (ending_of ran)
ending_of-Returns none (_, h) = absurd cc
ending_of-Returns (some (t, affected, e)) h = (_, refl)

pub batch_or_panic-Returns :
    (env : Env) (save : Option (List String)) (elems : List Elem) (t : Txn)
    → Returns (batch_or_panic env save elems t)
unfolding batch_or_panic
batch_or_panic-Returns env save elems t = elim (Option-cases (env.method_panic elems t)) [
  | inl calm ↦
      rw (batch_or_panic, calm)
        (ending_of-Returns (create_batch env save elems t) (create_batch-Returns env save elems t))
  | inr (left, found) ↦ (panicked left, rw (batch_or_panic, found) refl)
]

and_next_batch-Returns :
    (total : ℤ) (ended : Option Ending) (rest : ℤ → Txn → Option Ending)
    → Returns ended
    → ((n : ℤ) (t : Txn) → Returns (rest n t))
    → Returns (and_next_batch total ended rest)
and_next_batch-Returns total none rest (_, h) next = absurd cc
and_next_batch-Returns total (some (returned t affected null)) rest h next =
    next (total +ℤ affected) t
and_next_batch-Returns total (some (returned t affected (plain a m))) rest h next = (_, refl)
and_next_batch-Returns total (some (returned t affected (many es))) rest h next = (_, refl)
and_next_batch-Returns total (some (panicked t)) rest h next = (_, refl)

pub run_batches-Returns :
    (batch : List Elem → Txn → Option Ending) (size fuel : ℕ) (elems : List Elem)
    → length elems ≤ fuel
    → ((part : List Elem) (t : Txn) → Returns (batch part t))
    → (total : ℤ) (t : Txn) → Returns (run_batches batch (suc size) fuel elems total t)
unfolding run_batches
run_batches-Returns batch size fuel [] enough h total t = (_, refl)
run_batches-Returns batch size zero (elem ∷ elems) enough h total t = absurd (omega (arith, enough))
run_batches-Returns batch size (suc fuel) (elem ∷ elems) enough h total t =
    and_next_batch-Returns total (batch (elem ∷ take size elems) t)
      (run_batches batch (suc size) fuel (drop size elems)) (h (elem ∷ take size elems) t)
      (run_batches-Returns batch size fuel (drop size elems)
        (omega (arith, enough, length-drop size elems)) h)
