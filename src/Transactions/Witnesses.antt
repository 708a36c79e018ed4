-- ===== src/Transactions/Witnesses.antt =====
-- Tests and examples of transactions.
use gorm.Errors.{null, plain}
use gorm.Errors.Field.{add_error}
use gorm.Model.{ok, err}
use gorm.Prelude.{◌≡◌, ◌≢◌, refl, true, [], ◌∷◌}
use gorm.Transactions.{
  begin, commit, rollback, Driver, Block, returned, panicked, pool, tx, transaction, Callback, done,
  panics, begin_scope, call_callbacks,
}
use gorm.Transactions.Closed.{with_transaction, Closed, fresh_session}
use gorm.Transactions.Ends.{Finished, transaction-Finished, transaction-nil, idle, begun}

abbrev driver : Driver
driver = record {
  begin_answer = λ calls. ok 1;
  commit_answer = λ calls id. null;
  rollback_answer = λ calls id. null;
  tx_done = plain 8 "done";
}

abbrev busy : Driver
busy = record driver { begin_answer = λ calls. err (plain 7 "busy") }

-- Blocks that do nothing, fail and panic.
abbrev nothing_done : Block
nothing_done h calls = (returned null, h, calls)

abbrev failing : Block
failing h calls = (returned (plain 6 "failed"), h, calls)

abbrev panicking : Block
panicking h calls = (panicked, h, calls)

committed : transaction driver nothing_done (idle null) [] ≡ (returned null, begin ∷ commit 1 ∷ [])
unfolding transaction add_error
committed = refl

rolled_back :
    transaction driver failing (idle null) []
    ≡ (returned (plain 6 "failed"), begin ∷ rollback 1 ∷ [])
unfolding transaction add_error
rolled_back = refl

panicked_block : transaction driver panicking (idle null) [] ≡ (panicked, begin ∷ rollback 1 ∷ [])
unfolding transaction add_error
panicked_block = refl

-- On a handle with an error from before, Transaction commits, rolls back, and returns that error.
stale :
    transaction driver nothing_done (idle (plain 6 "old")) []
    ≡ (returned (plain 6 "old"), begin ∷ commit 1 ∷ rollback 1 ∷ [])
unfolding transaction add_error
stale = refl

transaction-Finished_example :
    Finished driver 1
      (panicking (begun 1 null) (begin ∷ []))
      (transaction driver panicking (idle null) [])
transaction-Finished_example = transaction-Finished driver panicking null [] 1 refl refl

transaction-nil_example :
    ((transaction busy nothing_done (idle null) []).0 ≢ returned null)
    × ((transaction busy nothing_done (idle null) []).1 ≡ begin ∷ [])
transaction-nil_example = transaction-nil busy nothing_done null (plain 7 "busy") [] refl refl

-- A callback that reports an error, and one that panics.
abbrev reports : Callback
reports s = done (record s { handle = record s.handle { error = plain 6 "failed" } })

abbrev falls : Callback
falls s = panics s

-- A callback that calls SkipLeft leaves the transaction open.
abbrev skips : Callback
skips s = done (record s { skip_left = true })

left_open :
    call_callbacks driver (with_transaction driver (skips ∷ [])) (fresh_session null pool [])
    ≡ done (record (fresh_session null pool []) {
      handle = record { db = tx 1; error = null };
      started = true;
      skip_left = true;
      calls = begin ∷ [];
    })
unfolding call_callbacks begin_scope
left_open = refl
