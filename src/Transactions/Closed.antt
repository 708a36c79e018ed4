-- ===== src/Transactions/Closed.antt =====
-- How a chain of callbacks ends the transaction that its first callback starts.
use gorm.Errors.{Error, null}
use gorm.Transactions.{
  Sql, pool, tx, Call, commit, rollback, Driver, Session, Step, done, panics, Callback, begin_scope,
  commit_or_rollback,
}
use gorm.Prelude.{ℕ, ◌≡◌, ◌≢◌, ◌∙◌, ◌⊎◌, true, false, List, [], ◌∷◌, ◌++◌}

-- begin_callback, the callbacks between, commit_callback.
abbrev pub with_transaction : Driver → List Callback → List Callback
with_transaction driver fs =
    (λ s. done (begin_scope driver s)) ∷ (fs ++ commit_or_rollback driver ∷ [])

-- What a session keeps of the transaction it has.
pub record Keeps (s s' : Session) : Type 0 where
  pub db : s'.handle.db ≡ s.handle.db
  pub parent : s'.parent ≡ s.parent
  pub started : s'.started ≡ s.started
  pub calls : s'.calls ≡ s.calls
  pub skip_left : s'.skip_left ≡ false

abbrev pub KeepsStep : Session → Step → Type 0
KeepsStep s (done s') = Keeps s s'
KeepsStep s (panics s') = Keeps s s'

-- All callbacks of a list leave the transaction, and do not skip the rest.
abbrev pub AllKeep : List Callback → Type 0
AllKeep [] = Unit
AllKeep (f ∷ fs) = ((s : Session) → s.skip_left ≡ false → KeepsStep s (f s)) × AllKeep fs

-- How the transaction `id` ends that was started from `parent` after `calls`.
abbrev pub Closed : Driver → ℕ → Sql → List Call → Step → Type 0
Closed driver id parent calls (done s) =
    (s.handle.db ≡ parent)
    × ((s.calls ≡ calls ++ commit id ∷ [])
        ⊎ ((s.calls ≡ calls ++ rollback id ∷ []) × (s.handle.error ≢ null)))
Closed driver id parent calls (panics s) = s.calls ≡ calls ++ rollback id ∷ []

Keeps-trans : (a b c : Session) → Keeps a b → Keeps b c → Keeps a c
Keeps-trans a b c first second = record {
  db = second.db ∙ first.db;
  parent = second.parent ∙ first.parent;
  started = second.started ∙ first.started;
  calls = second.calls ∙ first.calls;
  skip_left = second.skip_left;
}

-- The handle of an open transaction, with its fields given.
module _ (driver : Driver) (id : ℕ) (parent : Sql) (calls : List Call) where
  abbrev Ready : Session → Type 0
  Ready s =
      (s.handle.db ≡ tx id)
      × (s.parent ≡ parent)
      × (s.started ≡ true)
      × (s.calls ≡ calls)
      × (s.skip_left ≡ false)

-- The whole chain, on a connection that can start a transaction.
abbrev pub fresh_session : Error → Sql → List Call → Session
fresh_session e parent calls = record {
  handle = record { db = pool; error = e };
  parent = parent;
  started = false;
  skip_left = false;
  calls = calls;
}
