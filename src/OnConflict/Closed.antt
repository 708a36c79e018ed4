-- ===== src/OnConflict/Closed.antt =====
-- How `CreateInBatchesOnConflict` of on_conflict.go leaves its transaction.
use gorm.Errors.{null}
use gorm.Batch.Create.{Connection, begin, commit, rollback, report, Ending, Final, done, panics}
use gorm.Batch.Rows.{Txn}
use gorm.Batch.Endings.{Succeeded, Failed, Panicked}
use gorm.OnConflict.Batches.{Item, Upsert}
use gorm.OnConflict.Create.{
  Owned, borrowed, opened, unopened, is_open, owned, upsert_batches, upsert_size, upsert_or_panic,
}
use gorm.Prelude.Int.{ℤ, pos}
use gorm.Prelude.{◌≡◌, ◌≢◌, ◌⊎◌, true, false, Option, some, List, [], ◌∷◌, length, if◌then◌else◌}

-- What the connection is like in each state of the transaction.
abbrev pub IsOwned : Connection → Owned → Type 0
IsOwned conn borrowed = conn.is_db ≡ false
IsOwned conn opened = (conn.is_db ≡ true) × (conn.begin_error ≡ null)
IsOwned conn unopened = (conn.is_db ≡ true) × (conn.begin_error ≢ null)

-- The loop over the batches.
abbrev pub upserts : Connection → Upsert → ℤ → List Item → Txn → Option Ending
upserts conn u size items t =
    upsert_batches (upsert_or_panic (record u { is_open = is_open (owned conn) }))
      (upsert_size size) (length items) items (pos 0)
      (if conn.is_db then report conn.begin_error t else t)

-- What a call with this loop has done on a connection: nothing on one that is the caller's or for an
-- empty slice; a `Begin` that failed; and in a transaction that is started, a commit if it returns, or
-- a rollback with an error or a panic.
abbrev pub IsEnded : Connection → List Item → Option Ending → Final → Type 0
IsEnded conn items loop (done r) =
    ((r.events ≡ []) × ((conn.is_db ≡ false) ⊎ (items ≡ [])))
    ⊎ ((r.events ≡ begin ∷ []) × (r.txn.error ≢ null) × IsOwned conn unopened)
    ⊎ ((r.events ≡ begin ∷ commit ∷ []) × IsOwned conn opened × Succeeded loop r.rows_affected)
    ⊎ ((r.events ≡ begin ∷ rollback ∷ [])
        × (r.txn.error ≢ null)
        × IsOwned conn opened
        × Failed loop)
IsEnded conn items loop (panics r) =
    Panicked loop
    × (((r.events ≡ []) × (conn.is_db ≡ false))
        ⊎ ((r.events ≡ begin ∷ []) × (r.txn.error ≢ null) × IsOwned conn unopened)
        ⊎ ((r.events ≡ begin ∷ rollback ∷ []) × IsOwned conn opened))

-- The loop over the batches ends before its fuel is used up.
abbrev Ends : Option Ending → Type 0
Ends o = (e : Ending) × (o ≡ some e)
