-- ===== src/Batch/Execute.antt =====
-- `executeBatchCreateRows` of batch_create.go: one statement, and what follows it.
use gorm.Errors.{Error, null}
use gorm.Model.{Result, ok, err}
use gorm.Batch.Groups.{Ran}
use gorm.Batch.Keys.{assign_single_batch_primary_key, assign_batch_primary_keys}
use gorm.Batch.Rows.{
  Row, Statement, failed, answered, Txn, Env, has_error, call_unless_error, is_save,
}
use gorm.Batch.Statement.{build_statement}
use gorm.Prelude.Int.{ℤ, pos}
use gorm.Prelude.{String, Option, none, some, List, [], ◌∷◌, ◌++◌, nat_eq, if◌then◌else◌}

-- Which of the two functions sets the keys.
unfoldable pub assign_keys_of : Env → Row → List Row → ℤ → Result ℤ → Txn → Txn × Error
unfolding assign_single_batch_primary_key assign_batch_primary_keys
assign_keys_of env first more affected last t =
    let dialect = (env.scope first.address).dialect in
    elim dialect.batch_create_max_rows [
      | none ↦ assign_batch_primary_keys env dialect.name (first ∷ more) affected last t
      | some limit ↦
          if nat_eq limit 1
          then assign_single_batch_primary_key env (first ∷ more) affected last t
          else assign_batch_primary_keys env dialect.name (first ∷ more) affected last t
    ]

-- The loop that calls `AfterCreate` and `AfterSave`.
unfoldable pub after_hooks : Env → List Row → Txn → Txn × Error
after_hooks env [] t = (t, null)
after_hooks env (row ∷ rows) t =
    let t1 = call_unless_error env "AfterCreate" row.address t in
    let t2 = call_unless_error env "AfterSave" row.address t1 in
    if has_error t2 then (t2, t2.error) else after_hooks env rows t2

abbrev or_zero : Result ℤ → ℤ
or_zero (ok n) = n
or_zero (err _) = pos 0

-- The part behind `Exec`.
unfoldable pub after_exec :
    Env → Option (List String) → Row → List Row → ℤ → Result ℤ → Txn → Txn × ℤ × Error
unfolding assign_keys_of after_hooks
after_exec env save first more affected last t =
    let (t1, e) =
      (if is_save save then (t, null) else assign_keys_of env first more affected last t) in
    elim e [
      | null ↦ let (t2, e2) = after_hooks env (first ∷ more) t1 in (t2, affected, e2)
      | e' ↦ (t1, affected, e')
    ]

-- Exec, and what follows it.
unfoldable pub send :
    Env → Option (List String) → Row → List Row → Statement → Txn → Txn × ℤ × Error
unfolding after_exec
send env save first more statement t =
    let sent = t.sent ++ statement ∷ [] in
    let t1 = record t { sent = sent } in
    elim (env.database sent) [
      | failed e ↦ (t1, pos 0, e)
      | answered affected last ↦ after_exec env save first more (or_zero affected) last t1
    ]

-- executeBatchCreateRows
unfoldable pub execute_batch_create_rows : Env → Option (List String) → List Row → Txn → Ran
unfolding build_statement send
execute_batch_create_rows env save [] t = some (t, pos 0, null)
execute_batch_create_rows env save (first ∷ more) t = elim (build_statement env save first more t) [
  | none ↦ none
  | some (err e) ↦ some (t, pos 0, e)
  | some (ok statement) ↦ some (send env save first more statement t)
]
