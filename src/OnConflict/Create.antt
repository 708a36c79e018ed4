-- ===== src/OnConflict/Create.antt =====
-- `CreateInBatchesOnConflict` of on_conflict.go, for a value that is a slice or an array.
-- A panic inside it ends the transaction and goes on: the deferred function.
use gorm.Errors.{null, same, err_invalid_transaction}
use gorm.Batch.Create.{
  Connection, Event, begin, commit, rollback, Outcome, report, Ending, returned, panicked, Final,
  done, panics,
}
use gorm.Batch.Rows.{Txn, is_error}
use gorm.OnConflict.Batches.{Item, Upsert, create_batch_with_option}
use gorm.Prelude.Int.{ℤ, pos, ◌+ℤ◌, is_non_positive, pos_part}
use gorm.Prelude.{
  ℕ, zero, suc, Bool, true, false, Option, none, some, List, [], ◌∷◌, length, take, drop,
  if◌then◌else◌,
}

-- The state of the transaction: the caller's, one that is open, or one that `Begin` has failed to open.
pub data Owned : Type 0 where
  borrowed : Owned
  opened : Owned
  unopened : Owned

unfoldable pub owned : Connection → Owned
owned conn =
    if conn.is_db then (if is_error conn.begin_error then unopened else opened) else borrowed

abbrev pub is_open : Owned → Bool
is_open unopened = false
is_open _ = true

-- The calls on the connection so far.
abbrev pub begun : Owned → List Event
begun borrowed = []
begun _ = begin ∷ []

-- if ownTxn { txn.Commit() }
unfoldable pub commit_owned : Connection → Owned → ℤ → Txn → Outcome
commit_owned conn borrowed total t = record { txn = t; events = []; rows_affected = total }
commit_owned conn opened total t = record {
  txn = report conn.commit_error t;
  events = begin ∷ commit ∷ [];
  rows_affected = total;
}
commit_owned conn unopened total t = record {
  txn = report err_invalid_transaction t;
  events = begin ∷ [];
  rows_affected = total;
}

-- if ownTxn { txn.Rollback() }
unfoldable pub rollback_owned : Connection → Owned → Txn → Outcome
unfolding same
rollback_owned conn borrowed t = record { txn = t; events = []; rows_affected = pos 0 }
rollback_owned conn opened t = record {
  txn = if same conn.rollback_error conn.tx_done then t else report conn.rollback_error t;
  events = begin ∷ rollback ∷ [];
  rows_affected = pos 0;
}
rollback_owned conn unopened t = record {
  txn = report err_invalid_transaction t;
  events = begin ∷ [];
  rows_affected = pos 0;
}

-- What follows the loop over the batches, the loop's return with an error, and the deferred function.
unfoldable pub finish_upsert : Connection → Owned → Ending → Final
unfolding commit_owned rollback_owned
finish_upsert conn own (returned t total null) = done (commit_owned conn own total t)
finish_upsert conn own (returned t total e) = done (rollback_owned conn own (report e t))
finish_upsert conn own (panicked t) = panics (rollback_owned conn own t)

abbrev pub and_next : ℤ → Ending → (ℤ → Txn → Option Ending) → Option Ending
and_next total (returned t affected null) rest = rest (total +ℤ affected) t
and_next total (returned t affected e) rest = some (returned t total e)
and_next total (panicked t) rest = some (panicked t)

-- createBatchWithOption, of which a method of the model may panic.
unfoldable pub upsert_or_panic : Upsert → List Item → Txn → Ending
unfolding create_batch_with_option
upsert_or_panic u items t = elim (u.method_panic items t) [
  | some left ↦ panicked left
  | none ↦ create_batch_with_option u items t
]

-- The loop over the batches; `none` is the fuel used up.
unfoldable pub upsert_batches :
    (List Item → Txn → Ending) → ℕ → ℕ → List Item → ℤ → Txn → Option Ending
upsert_batches batch size fuel [] total t = some (returned t total null)
upsert_batches batch size zero (item ∷ items) total t = none
upsert_batches batch size (suc fuel) (item ∷ items) total t =
    and_next total (batch (take size (item ∷ items)) t)
      (upsert_batches batch size fuel (drop size (item ∷ items)))

abbrev pub upsert_size : ℤ → ℕ
upsert_size size = if is_non_positive size then 100 else pos_part size

abbrev pub finish_all : Connection → Owned → Option Ending → Option Final
finish_all conn own none = none
finish_all conn own (some ending) = some (finish_upsert conn own ending)

-- CreateInBatchesOnConflict, for a slice; the loop gets one unit of fuel for each element.
unfoldable pub create_in_batches_on_conflict :
    Connection → Upsert → ℤ → List Item → Txn → Option Final
unfolding owned upsert_or_panic upsert_batches finish_upsert
create_in_batches_on_conflict conn u size [] t =
    some (done (record { txn = t; events = []; rows_affected = pos 0 }))
create_in_batches_on_conflict conn u size (item ∷ items) t =
    let own = owned conn in
    let t1 = if conn.is_db then report conn.begin_error t else t in
    finish_all conn own (
      upsert_batches (upsert_or_panic (record u { is_open = is_open own })) (upsert_size size)
        (length (item ∷ items)) (item ∷ items) (pos 0) t1)
