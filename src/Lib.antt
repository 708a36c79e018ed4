-- ===== src/Lib.antt =====
-- A model of the core of gorm: the callback registry, the errors of a database handle, transactions,
-- the query builder, the callbacks that read and write, the batch insert and upsert, names, tags, and
-- the dialect of the Dameng database.
--
-- A `DB` runs an operation by calling the handlers of its `Callback` in order, each with one `Scope`;
-- a handler reports failure with `DB.AddError`. `CreateInBatches` and `SaveInBatches` pass by the
-- callbacks and write many rows in one statement.
--
--   Prelude      names of the libraries, lists over the native numbers, texts, integers
--   Errors       errors.go, and AddError, GetErrors and RecordNotFound of main.go. An error is nil, an
--                identity with a message, or a slice of errors; `==` compares identities
--   Callbacks    callback.go. Objects has the records, Sort has sortProcessors, Registry has
--                Register, Remove, Replace, Get and reorder. A *CallbackProcessor is an address in a
--                heap, because sorting writes `before` through the pointers. The recursion of
--                sortCallbackProcessor runs on fuel, and `none` stands for a call that does not
--                return. Rule is an induction principle over its calls; Growth, Context, Termination,
--                Single, Select, Before, Plain and Outcome prove with it. Samples runs the sort on
--                small registries
--   Model        Value, Field and Relationship (field.go, model_struct.go), the dialect (dialect.go,
--                batch_dialect.go), and the helpers of scope.go and utils.go for names and variables.
--                Conversion by reflection is a parameter (Reflect)
--   Batch        batch_create.go and batch_save.go. Limits has maxCreateBatchRows and
--                sameBatchColumns, Columns the column list of a row, Rows prepareBatchCreateRow,
--                Groups the loop of createBatch that splits rows into statements, Statement and
--                Execute have executeBatchCreateRows, Keys the two functions that assign primary
--                keys, Create has createBatch and createInBatches with its transaction, Names
--                newBatchSave, Save and Suffix the methods of batchSave. The proofs are in Written
--                (rows), Split (groups), Conflict (upserts), Numbering (keys), Total and Transaction, with
--                Endings, which says how a call may end. An
--                object is an address in a store of fields; hooks, the clock and the database are the parameter
--                Env, and the database answers the list of the statements it has got. A hook that
--                panics ends its batch: Env says for which batches one does and what state it leaves,
--                which may be any
--   Query        Search has the record of search.go, Conditions buildCondition of scope.go, Clauses
--                whereSQL and the other clauses up to prepareQuerySQL. A condition has its query and
--                arguments as reflection sees them; a loop that binds variables is a function on a
--                Builder, which has the variables and the error. Shape takes the bound values out of
--                a query, SoftDelete reads the WHERE clause, Scan has buildScanPlan, Load the
--                callbacks of callback_query.go and callback_row_query.go, with the proof in Found, and
--                Count what count and pluck of scope.go make of a search
--   Transactions BeginTx, Commit, Rollback, RollbackUnlessCommitted and Transaction of main.go, Begin,
--                CommitOrRollback and callCallbacks of scope.go. The driver is a parameter that
--                answers each call from the calls before; a block or a callback may panic. The proofs
--                are in Ends (Transaction) and Closed (chains of callbacks)
--   Write        callback_create.go, callback_update.go, callback_delete.go and callback_save.go, with Exec
--                and SetColumn of scope.go and createColumnValue of create_expression.go. A Run is what
--                one operation reads and writes of its scope; what is outside is in Outside. Associations
--                has the check of callback_save.go, and Loops its two callbacks on a store of objects,
--                with Off (switched off) and Order (which objects are saved), Attributes the columns
--                that an update gets from a map or a struct, and Reload the query behind an insert
--   Naming       naming.go, with the initialisms and the safeMap of utils.go; Cache has the accesses of
--                several goroutines to the map as steps
--   Structure    parseTagSetting and getForeignField of model_struct.go; Tags and RoundTrip have the way
--                back from a tag that was written
--   Dialects     key names, limits and offsets of dialect_common.go, dialect_mysql.go and
--                dialects/mssql/mssql.go; Keys has the bound on MySQL's key names
--   Dameng       dialects/dameng/dialect.go: identifiers, the catalogue, limits, the MERGE statement and, in
--                Types, the types of columns
--   OnConflict   the clause of on_conflict.go and the methods that set it as an insert option; Batches
--                has createBatchWithOption and Create the method that calls it. An element is a
--                pointer or a struct, and a panic is a result, since the method rolls back on it; a
--                hook that panics ends its batch as in Batch.
--                The proofs are in Closed (transaction), Rows (statement) and Mixed (keys)
--
-- Bounds. An `int` is a native number where the code keeps it from being negative; lengths and
-- counts are far below 2^63, so that no sum wraps. The fuel of the sort counts nested calls:
-- the theorems say which amount is enough. The loops over groups and batches get one unit for each
-- row, since every round takes at least one row off.
--
-- Not modelled: logging, the network, reflection and with it the reading of a model's type by
-- GetModelStruct, `database/sql`, and the vendored driver in dm/. `strings.ToUpper`, `strings.ToLower`
-- and `strings.EqualFold` are modelled for texts in ASCII, and so are the names that `defaultNamer`
-- gets. A value that is no slice goes from the batch functions to `DB.Create`. The callbacks that
-- preload, association.go, join tables and migrations are outside; so are, of the dialects other than
-- Dameng's, the types of columns and the catalogue queries.
pub mod Batch
pub mod Callbacks
pub mod Dameng
pub mod Dialects
pub mod Errors
pub mod Model
pub mod Naming
pub mod OnConflict
pub mod Prelude
pub mod Query
pub mod Structure
pub mod Transactions
pub mod Write
