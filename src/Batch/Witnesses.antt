-- ===== src/Batch/Witnesses.antt =====
-- The theorems on the batch engine, applied to a small model.
use gorm.Errors.{null}
use gorm.Errors.Field.{add_error}
use gorm.Batch.Keys.{assign_batch_primary_keys, first_id}
use gorm.Batch.Numbering.{IsReady, AreNumbered, assign_batch_primary_keys-AreNumbered}
use gorm.Model.{set, number, Result, ok, quote, field_by_name, primary_fields}
use gorm.Prelude.{
  ℕ, map, ◌*◌, ◌≤◌, String, ◌≡◌, refl, ◌⊎◌, true, ◌&&◌, not, none, some, List, [], ◌∷◌, contains,
  arith,
}
use gorm.Batch.Create.{done, panics, begin, rollback, create_batch, create_in_batches}
use gorm.Batch.Execute.{execute_batch_create_rows}
use gorm.Batch.Groups.{rows_of, AllGroups, run_groups, run_each}
use gorm.Batch.Rows.{pointer, Txn, Row, make_row, prepare_batch_create_row}
use gorm.Batch.Split.{run_groups-splits}
use gorm.Batch.Total.{Returns, create_batch-Returns}
use gorm.Batch.Written.{written, make_row-written, prepare_batch_create_row-eq}
use gorm.Prelude.Int.{ℤ, pos}
use gorm.Batch.Conflict.{
  identifies, statement_columns-updates, is_ok, supported, insert_option-returns,
}
use gorm.Batch.Limits.{max_create_batch_rows, max_bind_vars, max_create_batch_rows_bounds}
use gorm.Batch.Save.{target, conflict_columns, conflict_column, statement_columns}
use gorm.Batch.Suffix.{insert_option}
use gorm.Batch.Samples.{
  field, user, by_name, resolved, columns, reflect, env, txn, elems, connection, three_rows,
  failed_before, user_row,
}

max_create_batch_rows_bounds_example :
    (1 ≤ max_create_batch_rows "sqlite3" 20 5000)
    × (max_create_batch_rows "sqlite3" 20 5000 ≤ 5000)
    × ((max_create_batch_rows "sqlite3" 20 5000 * 20 ≤ max_bind_vars "sqlite3")
        ⊎ (max_create_batch_rows "sqlite3" 20 5000 ≡ 1)
        ⊎ (max_bind_vars "sqlite3" ≡ 0))
max_create_batch_rows_bounds_example =
    max_create_batch_rows_bounds "sqlite3" 20 5000 (omega arith) (omega arith)

by_name-target : target user by_name ≡ ok resolved
unfolding target conflict_columns conflict_column field_by_name
by_name-target = refl

by_name-updates : statement_columns user by_name columns ≡ ok ("`name`" ∷ [], "`age`" ∷ [])
unfolding statement_columns quote conflict_columns conflict_column field_by_name primary_fields
by_name-updates = refl

statement_columns-updates_example :
    contains ("`age`" ∷ []) "`created_at`"
    ≡ (contains columns "`created_at`" && not (identifies user ("`name`" ∷ []) "`created_at`"))
statement_columns-updates_example =
    statement_columns-updates user by_name columns ("`name`" ∷ []) ("`age`" ∷ []) by_name-updates
      "`created_at`"

insert_option-returns_example :
    (r : Result String) × (insert_option user by_name columns ≡ some r)
    × (is_ok r ≡ (is_ok (target user by_name) && supported "sqlite3"))
insert_option-returns_example = insert_option-returns user by_name columns

prepare_batch_create_row-eq_example :
    prepare_batch_create_row env none columns (pointer 1) txn
    ≡ prepare_batch_create_row env none [] (pointer 1) txn
prepare_batch_create_row-eq_example = prepare_batch_create_row-eq env none columns (pointer 1) txn

make_row-written_example :
    ((make_row user none columns 1 user.fields).columns
      ≡ map (λ e. e.0) (written user none user.fields))
    × ((make_row user none columns 1 user.fields).values
        ≡ map (λ e. e.1) (written user none user.fields))
make_row-written_example = make_row-written user none columns 1 user.fields

run_groups-splits_example :
    (groups : List (List Row)) × (rows_of groups ≡ three_rows)
    × AllGroups env groups
    × ((total : ℤ) (t : Txn)
        → run_groups env (execute_batch_create_rows env none) 3 three_rows total t
          ≡ run_each (execute_batch_create_rows env none) groups total t)
run_groups-splits_example =
    run_groups-splits env (execute_batch_create_rows env none) 3 three_rows (omega arith)

create_batch-Returns_example : Returns (create_batch env none elems txn)
create_batch-Returns_example = create_batch-Returns env none elems txn

-- A method that panics: the transaction is rolled back, and the panic goes on.
panicking :
    create_in_batches connection (record env { method_panic = λ batch t. some t }) 2 none elems txn
    ≡ some (panics (record { txn = txn; events = begin ∷ rollback ∷ []; rows_affected = pos 0 }))
unfolding create_in_batches add_error
panicking = refl

-- A handle with an error from before: the transaction stays open.
left_open :
    create_in_batches connection env 2 none (pointer 1 ∷ []) failed_before
    ≡ some (done (record { txn = failed_before; events = begin ∷ []; rows_affected = pos 0 }))
unfolding create_in_batches add_error
left_open = refl

set_id : (id : ℤ) → (set reflect 9 (number id) (field "ID" "id" true)).1 ≡ null
unfolding set
set_id id = refl

first_of_mysql : first_id "mysql" (pos 2) (pos 5) ≡ some (pos 5)
unfolding first_id
first_of_mysql = refl

user_row-IsReady : (address : ℕ) → IsReady env 9 txn (user_row address)
user_row-IsReady address = ((0, field "ID" "id" true), field "ID" "id" true, refl, refl, set_id)

assign_batch_primary_keys-AreNumbered_example :
    ((assign_batch_primary_keys env "mysql"
        (user_row 1 ∷ user_row 2 ∷ [])
        (pos 2)
        (ok (pos 5))
        txn).1
      ≡ null)
    × AreNumbered env 9
        (assign_batch_primary_keys env "mysql"
          (user_row 1 ∷ user_row 2 ∷ [])
          (pos 2)
          (ok (pos 5))
          txn).0
        (pos 5)
        0
        (user_row 1 ∷ user_row 2 ∷ [])
assign_batch_primary_keys-AreNumbered_example =
    assign_batch_primary_keys-AreNumbered env "mysql" (user_row 1) (user_row 2 ∷ []) (pos 5) (pos 5)
      txn first_of_mysql refl (user_row-IsReady 1, (user_row-IsReady 2, tt)) ((refl, tt), (tt, tt))
