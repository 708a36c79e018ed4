-- ===== src/Write/Guards.antt =====
-- The guard against a change of a whole table, and what follows a deletion.
use gorm.Errors.{Error, null, plain, many}
use gorm.Errors.Field.{add_error-eq-null}
use gorm.Query.Builder.{report, report_new}
use gorm.Write.{Run, Outside, has_error, report_message, call_unless_error, has_conditions}
use gorm.Write.Delete.{before_delete_callback, delete_callback}
use gorm.Write.Update.{before_update_callback, update_callback}
use gorm.Prelude.{◌≡◌, ◌≢◌, refl, Bool, true, false, String, ◌&&◌, not, if◌then◌else◌}

is_error_true : (run : Run) → run.builder.error ≢ null → has_error run ≡ true
is_error_true run h = go run.builder.error h
  where
    go : (e : Error) → e ≢ null → gorm.Batch.Rows.is_error e ≡ true
    go null k = absurd (k refl)
    go (plain a m) k = refl
    go (many es) k = refl

report_message-has_error : (m : String) (run : Run) → has_error (report_message m run) ≡ true
unfolding report_new report
report_message-has_error m run =
    is_error_true (report_message m run)
      λ k. cc ((add_error-eq-null run.builder.error (plain run.builder.fresh m) k).1)

guard-holds :
    {A : Type 0} (on bare : Bool) (x y : A)
    → on ≡ true
    → bare ≡ false
    → (if on && not bare then x else y) ≡ x
guard-holds true false x y h k = refl
guard-holds true true x y h k = absurd (cc k)
guard-holds false bare x y h k = absurd (cc h)

delete_callback-error :
    (out : Outside) (run : Run) → has_error run ≡ true → delete_callback out run ≡ run
unfolding delete_callback
delete_callback-error out run h = rw (delete_callback, h) refl

update_callback-error :
    (out : Outside) (run : Run) → has_error run ≡ true → update_callback out run ≡ run
unfolding update_callback
update_callback-error out run h = rw (update_callback, h) refl

-- What an operation that is refused leaves.
abbrev pub Refused : Run → Run → Type 0
Refused run after =
    (has_error after ≡ true) × (after.sent ≡ run.sent) × (after.rows_affected ≡ run.rows_affected)

Refused-report : (m : String) (run : Run) → Refused run (report_message m run)
Refused-report m run = (report_message-has_error m run, refl, refl)

delete-Refused :
    (out : Outside) (run : Run)
    → out.block_global_update ≡ true
    → has_conditions run.query ≡ false
    → Refused run (delete_callback out (before_delete_callback out run))
unfolding before_delete_callback
delete-Refused out run on bare =
    let m : String = "missing WHERE clause while deleting" in
    rw
      (
        guard-holds out.block_global_update (has_conditions run.query) (report_message m run)
            (call_unless_error out "BeforeDelete" run) on bare,
        delete_callback-error out (report_message m run) (report_message-has_error m run),
      )
      (Refused-report m run)

update-Refused :
    (out : Outside) (run : Run)
    → out.block_global_update ≡ true
    → has_conditions run.query ≡ false
    → Refused run (update_callback out (before_update_callback out run))
unfolding before_update_callback
update-Refused out run on bare =
    let m : String = "missing WHERE clause while updating" in
    rw
      (
        guard-holds out.block_global_update (has_conditions run.query) (report_message m run)
            (if out.update_column
              then run
              else call_unless_error out "BeforeUpdate" (call_unless_error out "BeforeSave" run))
            on bare,
        update_callback-error out (report_message m run) (report_message-has_error m run),
      )
      (Refused-report m run)

-- With the block on global updates set, and neither a condition nor a primary key given, deleting
-- and updating are refused: the callbacks before and at the deletion, and those before and at the
-- update, report an error, send no statement and leave the count of affected rows.
pub guarded-Refused :
    (out : Outside) (run : Run)
    → out.block_global_update ≡ true
    → has_conditions run.query ≡ false
    → Refused run (delete_callback out (before_delete_callback out run))
      × Refused run (update_callback out (before_update_callback out run))
guarded-Refused out run on bare = (delete-Refused out run on bare, update-Refused out run on bare)
