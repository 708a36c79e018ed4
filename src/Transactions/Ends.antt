-- ===== src/Transactions/Ends.antt =====
-- How `DB.Transaction` ends its transaction.
use gorm.Errors.{err_invalid_transaction, Error, null, plain, many}
use gorm.Errors.Field.{add_error, add_error-eq-null}
use gorm.Model.{ok, err}
use gorm.Transactions.{
  pool, tx, nil_tx, Call, begin, commit, rollback, Driver, Handle, with_error, begin_tx, commit_tx,
  rollback_tx, Ended, returned, panicked, Block, after_commit, end_transaction, transaction,
}
use gorm.Prelude.{ℕ, ◌≡◌, ◌≢◌, refl, ap, ◌⊎◌, inl, inr, List, [], ◌∷◌, ◌++◌}

-- How a transaction was ended, from the calls that the block left and the handle it left.
abbrev pub Finished : Driver → ℕ → Ended × Handle × List Call → Ended × List Call → Type 0
Finished driver id (ended, h, calls) r =
    ((ended ≡ returned null)
      × (h.error ≡ null)
      × (driver.commit_answer calls id ≡ null)
      × (r ≡ (returned null, calls ++ commit id ∷ [])))
    ⊎ ((r.0 ≢ returned null)
        × ((r.1 ≡ calls ++ rollback id ∷ [])
            ⊎ (r.1 ≡ (calls ++ commit id ∷ []) ++ rollback id ∷ [])))

error_of : Ended → Error
error_of (returned e) = e
error_of panicked = plain 0 ""

is_failure : (e : Error) → e ≢ null → returned e ≢ returned null
unfolding error_of
is_failure e h k = h (ap error_of k)

after_commit-Finished :
    (driver : Driver) (id : ℕ) (e : Error) (h h' : Handle) (calls : List Call)
    → h'.db ≡ tx id
    → (e ≡ null → (h.error ≡ null) × (driver.commit_answer calls id ≡ null))
    → Finished driver id
        (returned null, h, calls)
        (after_commit driver e h' (calls ++ commit id ∷ []))
unfolding rollback_tx
after_commit-Finished driver id null h h' calls is_open both =
    inl (refl, (both refl).0, (both refl).1, refl)
after_commit-Finished driver id (plain a m) h h' calls is_open both =
    rw is_open (inr (is_failure (plain a m) (λ k. cc), inr refl))
after_commit-Finished driver id (many es) h h' calls is_open both =
    rw is_open (inr (is_failure (many es) (λ k. cc), inr refl))

pub end_transaction-Finished :
    (driver : Driver) (id : ℕ) (ended : Ended) (h : Handle) (calls : List Call)
    → h.db ≡ tx id
    → Finished driver id (ended, h, calls) (end_transaction driver (ended, h, calls))
unfolding end_transaction commit_tx rollback_tx
end_transaction-Finished driver id panicked h calls is_open = rw is_open (inr (λ k. cc, inl refl))
end_transaction-Finished driver id (returned null) h calls is_open =
    let e = driver.commit_answer calls id in
    rw (end_transaction, commit_tx, is_open)
      (after_commit-Finished driver id (add_error h.error e) h (with_error e h) calls is_open
        (add_error-eq-null h.error e))
end_transaction-Finished driver id (returned (plain a m)) h calls is_open =
    rw is_open (inr (is_failure (plain a m) (λ k. cc), inl refl))
end_transaction-Finished driver id (returned (many es)) h calls is_open =
    rw is_open (inr (is_failure (many es) (λ k. cc), inl refl))

-- The handle of a `*sql.DB`, and the one that `Begin` makes of it.
abbrev pub idle : Error → Handle
idle e = record { db = pool; error = e }

abbrev pub begun : ℕ → Error → Handle
begun id e = record { db = tx id; error = e }

transaction-begun :
    (driver : Driver) (block : Block) (e : Error) (calls : List Call) (id : ℕ)
    → driver.begin_answer calls ≡ ok id
    → transaction driver block (idle e) calls
      ≡ end_transaction driver (block (begun id e) (calls ++ begin ∷ []))
unfolding transaction begin_tx
transaction-begun driver block e calls id begins = rw (transaction, begin_tx, begins) refl

-- If a handle of a connection starts a transaction, and the block leaves that transaction in its
-- handle, DB.Transaction ends it after the block, also when the block panics: it returns nil and
-- has called only Commit, the block returned nil, the handle had no error and the commit gave
-- none; or it does not return nil, and the last call is Rollback, alone or after a Commit.
pub transaction-Finished :
    (driver : Driver) (block : Block) (e : Error) (calls : List Call) (id : ℕ)
    → driver.begin_answer calls ≡ ok id
    → (block (begun id e) (calls ++ begin ∷ [])).1.db ≡ tx id
    → Finished driver id
        (block (begun id e) (calls ++ begin ∷ []))
        (transaction driver block (idle e) calls)
transaction-Finished driver block e calls id begins keeps =
    let ran = block (begun id e) (calls ++ begin ∷ []) in
    rw (transaction-begun driver block e calls id begins)
      (end_transaction-Finished driver id ran.0 ran.1 ran.2 keeps)

-- Without a transaction no success.
end_transaction-nil :
    (driver : Driver) (ended : Ended) (h : Handle) (calls : List Call)
    → h.db ≡ nil_tx
    → ((end_transaction driver (ended, h, calls)).0 ≢ returned null)
      × ((end_transaction driver (ended, h, calls)).1 ≡ calls)
unfolding end_transaction commit_tx rollback_tx
end_transaction-nil driver panicked h calls none_open = rw none_open (λ k. cc, refl)
end_transaction-nil driver (returned (plain a m)) h calls none_open =
    rw none_open (is_failure (plain a m) (λ k. cc), refl)
end_transaction-nil driver (returned (many es)) h calls none_open =
    rw none_open (is_failure (many es) (λ k. cc), refl)
end_transaction-nil driver (returned null) h calls none_open =
    rw (end_transaction, commit_tx, none_open)
      (go (add_error h.error err_invalid_transaction)
        λ k. cc ((add_error-eq-null h.error err_invalid_transaction k).1))
  where
    go :
        (e : Error)
        → e ≢ null
        → ((after_commit driver e (with_error err_invalid_transaction h) calls).0 ≢ returned null)
          × ((after_commit driver e (with_error err_invalid_transaction h) calls).1 ≡ calls)
    go null k = absurd (k refl)
    go (plain a m) k = rw none_open (is_failure (plain a m) k, refl)
    go (many es) k = rw none_open (is_failure (many es) k, refl)

-- If the connection refuses to start a transaction, DB.Transaction still runs the block, on a
-- handle without a transaction; if the block leaves it so, Transaction does not return nil, and
-- makes no call after those of the block.
pub transaction-nil :
    (driver : Driver) (block : Block) (e refused : Error) (calls : List Call)
    → driver.begin_answer calls ≡ err refused
    → (block (record { db = nil_tx; error = add_error e refused }) (calls ++ begin ∷ [])).1.db
      ≡ nil_tx
    → ((transaction driver block (idle e) calls).0 ≢ returned null)
      × ((transaction driver block (idle e) calls).1
          ≡ (block (record { db = nil_tx; error = add_error e refused }) (calls ++ begin ∷ [])).2)
unfolding transaction begin_tx
transaction-nil driver block e refused calls refuses keeps =
    let ran = block (record { db = nil_tx; error = add_error e refused }) (calls ++ begin ∷ []) in
    rw (transaction, begin_tx, refuses) (end_transaction-nil driver ran.0 ran.1 ran.2 keeps)
