-- ===== src/Batch/Endings.antt =====
-- How a call of `createInBatches` of batch_create.go may end, and what its errors are.
use gorm.Errors.Field.{add_error, add_error-eq-null}
use gorm.Errors.{Error, null, plain, many}
use gorm.Batch.Create.{
  Connection, Final, done, panics, Ending, returned, panicked, begin, commit, rollback,
  batch_or_panic, both_options, report, run_batches,
}
use gorm.Batch.Rows.{Txn, Env, Elem, is_error}
use gorm.Prelude.Int.{ℤ, pos}
use gorm.Prelude.{
  ℕ, String, ◌≡◌, ◌≢◌, refl, ◌⊎◌, inl, inr, true, false, Option, some, List, [], ◌∷◌, length, arith,
  if◌then◌else◌,
}

-- The `DB` has no error, and the connection has started a transaction for it.
abbrev pub IsStarted : Connection → Txn → Type 0
IsStarted conn t = (conn.is_db ≡ true) × (conn.begin_error ≡ null) × (t.error ≡ null)

-- Nothing is done on a connection that is in a transaction of the caller, for an empty slice, and with
-- two conflict clauses.
abbrev pub IsIdle : Connection → Env → Option (List String) → List Elem → Type 0
IsIdle conn env save elems =
    (conn.is_db ≡ false) ⊎ (elems ≡ []) ⊎ (both_options save env.insert_option ≡ true)

-- The `DB` with which the batches start.
abbrev pub begun : Connection → Txn → Txn
begun conn t = if conn.is_db then report conn.begin_error t else t

-- The loop over the batches.
abbrev pub batches : Connection → Env → ℕ → Option (List String) → List Elem → Txn → Option Ending
batches conn env size save elems t =
    run_batches (batch_or_panic env save) size (length elems) elems (pos 0) (begun conn t)

-- Every batch has returned without an error, and together they have affected so many rows.
abbrev pub Succeeded : Option Ending → ℤ → Type 0
Succeeded loop total = (t : Txn) × (loop ≡ some (returned t total null))

-- A batch has returned an error.
abbrev pub Failed : Option Ending → Type 0
Failed loop =
    (t : Txn) × (total : ℤ) × (e : Error) × (loop ≡ some (returned t total e)) × (e ≢ null)

-- A batch has panicked.
abbrev pub Panicked : Option Ending → Type 0
Panicked loop = (t : Txn) × (loop ≡ some (panicked t))

-- How a call on the `DB` of `t` ends: without a transaction of its own; at `Begin`, which has failed or
-- found an error; and from a transaction that is started, with a commit, or with a rollback and an error
-- or a panic.
abbrev pub IsClosed : Connection → Env → ℕ → Option (List String) → List Elem → Txn → Final → Type 0
IsClosed conn env size save elems t (done r) =
    ((r.events ≡ []) × IsIdle conn env save elems)
    ⊎ ((r.events ≡ begin ∷ [])
        × (r.txn.error ≢ null)
        × (conn.is_db ≡ true)
        × ((t.error ≢ null) ⊎ (conn.begin_error ≢ null)))
    ⊎ ((r.events ≡ begin ∷ commit ∷ [])
        × IsStarted conn t
        × Succeeded (batches conn env size save elems t) r.rows_affected)
    ⊎ ((r.events ≡ begin ∷ rollback ∷ [])
        × (r.txn.error ≢ null)
        × IsStarted conn t
        × Failed (batches conn env size save elems t))
IsClosed conn env size save elems t (panics r) =
    Panicked (batches conn env size save elems t)
    × (((r.events ≡ []) × (conn.is_db ≡ false))
        ⊎ ((r.events ≡ begin ∷ rollback ∷ []) × IsStarted conn t))

pub report-ne-null : (e : Error) (t : Txn) → e ≢ null → (report e t).error ≢ null
report-ne-null e t h k = h (add_error-eq-null t.error e k).1

pub is_error-ne-null : (e : Error) → is_error e ≡ true → e ≢ null
is_error-ne-null e h k = ground (arith, k)

pub add_error-is_error :
    (old e : Error) → is_error (add_error old e) ≡ true → (old ≢ null) ⊎ (e ≢ null)
unfolding add_error
add_error-is_error null null h = absurd cc
add_error-is_error null (plain a m) h = inr (λ k. cc)
add_error-is_error null (many es) h = inr (λ k. cc)
add_error-is_error (plain a m) e h = inl (λ k. cc)
add_error-is_error (many es) e h = inl (λ k. cc)

pub no_error : (e : Error) → is_error e ≡ false → e ≡ null
no_error null h = refl
no_error (plain a m) h = absurd cc
no_error (many es) h = absurd cc
