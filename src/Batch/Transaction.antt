-- ===== src/Batch/Transaction.antt =====
-- How `createInBatches` of batch_create.go leaves its transaction.
use gorm.Batch.Create.{Connection, size_or_default, default_create_batch_size}
use gorm.Batch.Endings.{IsStarted}
use gorm.Batch.Rows.{Txn}
use gorm.Prelude.Int.{ℤ}
use gorm.Prelude.{ℕ, ◌≡◌, Bool, true, false, List, [], ◌∷◌}

-- A batch runs on a connection of the caller, or in a transaction that is started.
abbrev IsReady : Connection → Bool → Txn → Type 0
IsReady conn false t = conn.is_db ≡ false
IsReady conn true t = IsStarted conn t

-- The size of the batches that the variadic argument of CreateInBatches gives.
abbrev pub batch_size : List ℤ → ℕ
batch_size [] = default_create_batch_size
batch_size (size ∷ _) = size_or_default size
