-- ===== src/Transactions.antt =====
-- The transactions of main.go and of scope.go: `Transaction`, `BeginTx`, `Commit`, `Rollback` and
-- `RollbackUnlessCommitted` of `DB`, `Begin` and `CommitOrRollback` of `Scope`, and `callCallbacks`.
-- The driver is outside: it answers each call from the calls that it got before.
pub mod Ends
pub mod Closed
mod Witnesses
use gorm.Errors.{Error, null, same, err_invalid_transaction, err_cant_start_transaction}
use gorm.Errors.Field.{add_error}
use gorm.Batch.Rows.{is_error}
use gorm.Model.{Result, ok, err}
use gorm.Prelude.{ℕ, Bool, true, false, ◌||◌, List, [], ◌∷◌, ◌++◌, if◌then◌else◌}

-- What stands in the field `db` of a `DB`: a `*sql.DB`, an open `*sql.Tx`, the nil `*sql.Tx` that a
-- failed start leaves, or a connection that is neither.
pub data Sql : Type 0 where
  pool : Sql
  tx : (id : ℕ) → Sql
  nil_tx : Sql
  custom : Sql

-- The calls that reach the driver.
pub data Call : Type 0 where
  begin : Call
  commit : (id : ℕ) → Call
  rollback : (id : ℕ) → Call

-- What the driver returns; `tx_done` is `sql.ErrTxDone`.
pub record Driver : Type 0 where
  pub begin_answer : List Call → Result ℕ
  pub commit_answer : List Call → ℕ → Error
  pub rollback_answer : List Call → ℕ → Error
  pub tx_done : Error

-- A `DB`, as far as transactions read and write it.
pub record Handle : Type 0 where
  pub db : Sql
  pub error : Error

abbrev pub with_error : Error → Handle → Handle
with_error e h = record h { error = add_error h.error e }

module _ (driver : Driver) where
  -- DB.BeginTx, and DB.Begin
  unfoldable pub begin_tx : Handle → List Call → Handle × List Call
  begin_tx h calls = elim h.db [
    | pool ↦ elim (driver.begin_answer calls) [
      | ok id ↦ (record h { db = tx id }, calls ++ begin ∷ [])
      | err e ↦ (with_error e (record h { db = nil_tx }), calls ++ begin ∷ [])
    ]
    | tx id ↦ (with_error err_cant_start_transaction h, calls)
    | nil_tx ↦ (with_error err_cant_start_transaction h, calls)
    | custom ↦ (with_error err_cant_start_transaction h, calls)
  ]

  -- DB.Commit
  unfoldable pub commit_tx : Handle → List Call → Handle × List Call
  commit_tx h calls = elim h.db [
    | tx id ↦ (with_error (driver.commit_answer calls id) h, calls ++ commit id ∷ [])
    | pool ↦ (with_error err_invalid_transaction h, calls)
    | nil_tx ↦ (with_error err_invalid_transaction h, calls)
    | custom ↦ (with_error err_invalid_transaction h, calls)
  ]

  -- DB.Rollback
  unfoldable pub rollback_tx : Handle → List Call → Handle × List Call
  rollback_tx h calls = elim h.db [
    | tx id ↦
        let e = driver.rollback_answer calls id in
        (if same e driver.tx_done then h else with_error e h, calls ++ rollback id ∷ [])
    | pool ↦ (with_error err_invalid_transaction h, calls)
    | nil_tx ↦ (with_error err_invalid_transaction h, calls)
    | custom ↦ (with_error err_invalid_transaction h, calls)
  ]

  -- DB.RollbackUnlessCommitted
  unfoldable pub rollback_unless_committed : Handle → List Call → Handle × List Call
  rollback_unless_committed h calls = elim h.db [
    | tx id ↦
        let e = driver.rollback_answer calls id in
        (if same e driver.tx_done then h else with_error e h, calls ++ rollback id ∷ [])
    | pool ↦ (with_error err_invalid_transaction h, calls)
    | nil_tx ↦ (with_error err_invalid_transaction h, calls)
    | custom ↦ (with_error err_invalid_transaction h, calls)
  ]

-- How a Go function that returns an error ends.
pub data Ended : Type 0 where
  returned : Error → Ended
  panicked : Ended

-- A block that `Transaction` runs, on the `DB` that it gets.
abbrev pub Block : Type 0
Block = Handle → List Call → Ended × Handle × List Call

module _ (driver : Driver) where
  -- The deferred function, where it rolls back.
  abbrev pub roll_back : Ended → Handle → List Call → Ended × List Call
  roll_back ended h calls = let (_, calls') = rollback_tx driver h calls in (ended, calls')

  -- What follows `Commit`, on the error of its `DB`.
  abbrev pub after_commit : Error → Handle → List Call → Ended × List Call
  after_commit null h calls = (returned null, calls)
  after_commit e h calls = roll_back (returned e) h calls

  -- The end of `Transaction`, from what the block ended with.
  unfoldable pub end_transaction : Ended × Handle × List Call → Ended × List Call
  unfolding commit_tx rollback_tx
  end_transaction (panicked, h, calls) = roll_back panicked h calls
  end_transaction (returned null, h, calls) =
      let (h', calls') = commit_tx driver h calls in after_commit h'.error h' calls'
  end_transaction (returned e, h, calls) = roll_back (returned e) h calls

  -- DB.Transaction; the case of a `*sql.Tx` runs the block on the handle itself.
  unfoldable pub transaction : Block → Handle → List Call → Ended × List Call
  unfolding begin_tx end_transaction
  transaction block h calls = elim h.db [
    | tx id ↦ let (ended, _, calls') = block h calls in (ended, calls')
    | nil_tx ↦ let (ended, _, calls') = block h calls in (ended, calls')
    | pool ↦ let (h', calls') = begin_tx driver h calls in end_transaction (block h' calls')
    | custom ↦ let (h', calls') = begin_tx driver h calls in end_transaction (block h' calls')
  ]

-- What the callbacks of one operation share of their `Scope`: its `DB`, the connection of the
-- `DB` that it comes from, the instance setting `gorm:started_transaction`, `skipLeft`, and the
-- calls to the driver.
pub record Session : Type 0 where
  pub handle : Handle
  pub parent : Sql
  pub started : Bool
  pub skip_left : Bool
  pub calls : List Call

pub data Step : Type 0 where
  done : Session → Step
  panics : Session → Step

abbrev pub Callback : Type 0
Callback = Session → Step

module _ (driver : Driver) where
  -- Scope.Begin
  unfoldable pub begin_scope : Session → Session
  begin_scope s = elim s.handle.db [
    | pool ↦ elim (driver.begin_answer s.calls) [
      | ok id ↦ record s {
        handle = record s.handle { db = tx id };
        started = true;
        calls = s.calls ++ begin ∷ [];
      }
      | err e ↦ record s { handle = with_error e s.handle; calls = s.calls ++ begin ∷ [] }
    ]
    | tx id ↦ s
    | nil_tx ↦ s
    | custom ↦ s
  ]

  -- The inner `if` of `CommitOrRollback`, on an open transaction.
  unfoldable pub end_scope : ℕ → Session → Session
  end_scope id s =
      if is_error s.handle.error
      then record s {
        handle = record s.handle { db = s.parent };
        calls = s.calls ++ rollback id ∷ [];
      }
      else record s {
        handle = record (with_error (driver.commit_answer s.calls id) s.handle) { db = s.parent };
        calls = s.calls ++ commit id ∷ [];
      }

  -- Scope.CommitOrRollback, of the setting and the connection; on a nil transaction it panics.
  abbrev pub end_started : Bool → Sql → Session → Step
  end_started false db s = done s
  end_started true (tx id) s = done (end_scope id s)
  end_started true nil_tx s = panics s
  end_started true pool s = done s
  end_started true custom s = done s

  abbrev pub commit_or_rollback : Callback
  commit_or_rollback s = end_started s.started s.handle.db s

  -- The deferred function of `callCallbacks`, on a panic; its rollback on a nil transaction panics.
  unfoldable pub recover : Session → Session
  recover s = elim s.handle.db [
    | tx id ↦ record s { calls = s.calls ++ rollback id ∷ [] }
    | nil_tx ↦ s
    | pool ↦ s
    | custom ↦ s
  ]

  -- Scope.callCallbacks
  unfoldable pub call_callbacks : List Callback → Session → Step
  unfolding recover
  call_callbacks [] s = done s
  call_callbacks (f ∷ fs) s = elim (f s) [
    | panics s' ↦ panics (recover s')
    | done s' ↦ if s'.skip_left then done s' else call_callbacks fs s'
  ]
