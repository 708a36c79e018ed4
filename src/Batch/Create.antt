-- ===== src/Batch/Create.antt =====
-- `createBatch` and `createInBatches` of batch_create.go, for a value that is a slice or an array.
use gorm.Errors.{Error, null, plain, same}
use gorm.Errors.Field.{add_error}
use gorm.Model.{Result, ok, err}
use gorm.Batch.Execute.{execute_batch_create_rows}
use gorm.Batch.Groups.{Ran, run_groups}
use gorm.Batch.Rows.{Elem, Row, Txn, Env, has_error, is_nil_batch_elem, prepare_batch_create_row}
use gorm.Batch.Names.{new_batch_save}
use gorm.Prelude.Int.{ℤ, pos, ◌+ℤ◌, pos_part, is_non_positive}
use gorm.Prelude.{
  ℕ, zero, suc, Bool, true, false, Option, none, some, List, [], ◌∷◌, String, length, take, drop,
  if◌then◌else◌,
}

-- A step that ends the function on an error, and what is done with its result.
abbrev and_with {ℓ κ} :
    {A : Type ℓ} {B : Type κ} → Txn × Result A → (A → Txn → Txn × Result B) → Txn × Result B
and_with (t, ok a) f = f a t
and_with (t, err e) f = (t, err e)

-- The first loop of `createBatch`.
unfoldable pub prepare_rows :
    Env → Option (List String) → List Elem → List String → Txn → Txn × Result (List Row)
unfolding is_nil_batch_elem prepare_batch_create_row
prepare_rows env save [] expected t = (t, ok [])
prepare_rows env save (elem ∷ elems) expected t = elim (is_nil_batch_elem elem) [
  | true ↦ prepare_rows env save elems expected t
  | false ↦ and_with (prepare_batch_create_row env save expected elem t) λ row t1.
      and_with (prepare_rows env save elems row.columns t1) λ rows t2. (t2, ok (row ∷ rows))
]

-- The second loop, for the rows of the first; it gets one unit of fuel for each row.
abbrev pub run_prepared : Env → Option (List String) → Txn × Result (List Row) → Ran
run_prepared env save (t, err e) = some (t, pos 0, e)
run_prepared env save (t, ok rows) =
    run_groups env (execute_batch_create_rows env save) (length rows) rows (pos 0) t

-- createBatch
unfoldable pub create_batch : Env → Option (List String) → List Elem → Txn → Ran
unfolding prepare_rows
create_batch env save elems t = run_prepared env save (prepare_rows env save elems [] t)

-- How a batch, or the loop over the batches, ends: with its rows and its error, or with a panic.
pub data Ending : Type 0 where
  returned : Txn → ℤ → Error → Ending
  panicked : Txn → Ending

abbrev pub ending_of : Ran → Option Ending
ending_of none = none
ending_of (some (t, affected, e)) = some (returned t affected e)

-- createBatch, of which a method of the model may panic.
unfoldable pub batch_or_panic : Env → Option (List String) → List Elem → Txn → Option Ending
unfolding create_batch
batch_or_panic env save elems t = elim (env.method_panic elems t) [
  | some left ↦ some (panicked left)
  | none ↦ ending_of (create_batch env save elems t)
]

abbrev pub and_next_batch : ℤ → Option Ending → (ℤ → Txn → Option Ending) → Option Ending
and_next_batch total none rest = none
and_next_batch total (some (returned t affected null)) rest = rest (total +ℤ affected) t
and_next_batch total (some (returned t affected e)) rest = some (returned t total e)
and_next_batch total (some (panicked t)) rest = some (panicked t)

-- The loop over the batches of `createInBatches`; `none` is the fuel used up.
unfoldable pub run_batches :
    (List Elem → Txn → Option Ending) → ℕ → ℕ → List Elem → ℤ → Txn → Option Ending
run_batches batch size fuel [] total t = some (returned t total null)
run_batches batch size zero (elem ∷ elems) total t = none
run_batches batch size (suc fuel) (elem ∷ elems) total t =
    and_next_batch total (batch (take size (elem ∷ elems)) t)
      (run_batches batch size fuel (drop size (elem ∷ elems)))

-- The calls that `createInBatches` makes on the connection to start and to end a transaction.
pub data Event : Type 0 where
  begin : Event
  commit : Event
  rollback : Event

-- Whether the connection is a `sqlDb`, on which a transaction can be started, and what its calls and
-- those of its transaction return; `tx_done` is `sql.ErrTxDone`.
pub record Connection : Type 0 where
  pub is_db : Bool
  pub begin_error : Error
  pub commit_error : Error
  pub rollback_error : Error
  pub tx_done : Error

pub record Outcome : Type 0 where
  pub txn : Txn
  pub events : List Event
  pub rows_affected : ℤ

-- How the method ends: it returns, or it panics.
pub data Final : Type 0 where
  done : Outcome → Final
  panics : Outcome → Final

-- DB.AddError, on the handle of the transaction.
abbrev pub report : Error → Txn → Txn
report e t = record t { error = add_error t.error e }

-- DB.Commit and DB.Rollback of an open transaction, or nothing where the caller owns it.
unfoldable pub finish_commit : Connection → Bool → ℤ → Txn → Outcome
finish_commit conn true total t = record {
  txn = report conn.commit_error t;
  events = begin ∷ commit ∷ [];
  rows_affected = total;
}
finish_commit conn false total t = record { txn = t; events = []; rows_affected = total }

unfoldable pub finish_rollback : Connection → Bool → Txn → Outcome
unfolding same
finish_rollback conn true t = record {
  txn = if same conn.rollback_error conn.tx_done then t else report conn.rollback_error t;
  events = begin ∷ rollback ∷ [];
  rows_affected = pos 0;
}
finish_rollback conn false t = record { txn = t; events = []; rows_affected = pos 0 }

-- What follows the loop, its return with an error, and the deferred function, which ends the
-- transaction and panics again.
abbrev pub finish : Connection → Ending → Final
finish conn (returned t total null) = done (finish_commit conn conn.is_db total t)
finish conn (returned t total e) = done (finish_rollback conn conn.is_db (report e t))
finish conn (panicked t) = panics (finish_rollback conn conn.is_db t)

-- The part of `createInBatches` behind the start of the transaction.
unfoldable pub run_transaction :
    Connection → Env → ℕ → Option (List String) → List Elem → Txn → Option Final
unfolding batch_or_panic run_batches finish_commit finish_rollback
run_transaction conn env size save elems t =
    elim (run_batches (batch_or_panic env save) size (length elems) elems (pos 0) t) [
      | none ↦ none
      | some ending ↦ some (finish conn ending)
    ]

abbrev pub both_options : Option (List String) → Option String → Bool
both_options (some _) (some _) = true
both_options _ _ = false

abbrev pub both_options_error : Txn → Error
both_options_error t =
    plain t.fresh
      "gorm: SaveInBatches builds its own conflict clause and cannot be combined with gorm:insert_option"

-- createInBatches
unfoldable pub create_in_batches :
    Connection → Env → ℕ → Option (List String) → List Elem → Txn → Option Final
unfolding run_transaction
create_in_batches conn env size save [] t = some (
    done (record {
      txn = if both_options save env.insert_option then report (both_options_error t) t else t;
      events = [];
      rows_affected = pos 0;
    }))
create_in_batches conn env size save (elem ∷ elems) t =
    if both_options save env.insert_option
    then some (
        done (record { txn = report (both_options_error t) t; events = []; rows_affected = pos 0 }))
    else (let t1 = if conn.is_db then report conn.begin_error t else t in
        if has_error t1
        then some (
            done (record {
              txn = t1;
              events = if conn.is_db then begin ∷ [] else [];
              rows_affected = pos 0;
            }))
        else run_transaction conn env size save (elem ∷ elems) t1)

abbrev pub default_create_batch_size : ℕ
default_create_batch_size = 500

unfoldable pub size_or_default : ℤ → ℕ
size_or_default size = if is_non_positive size then default_create_batch_size else pos_part size

-- DB.CreateInBatches, whose size is variadic.
unfoldable pub create_in_batches_of : Connection → Env → List ℤ → List Elem → Txn → Option Final
unfolding size_or_default
create_in_batches_of conn env [] elems t =
    create_in_batches conn env default_create_batch_size none elems t
create_in_batches_of conn env (size ∷ _) elems t =
    create_in_batches conn env (size_or_default size) none elems t

-- DB.SaveInBatches
unfoldable pub save_in_batches : Connection → Env → ℤ → List String → List Elem → Txn → Option Final
unfolding size_or_default
save_in_batches conn env size conflict_columns elems t =
    create_in_batches conn env (size_or_default size) (some (new_batch_save conflict_columns)) elems
      t
