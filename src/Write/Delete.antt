-- ===== src/Write/Delete.antt =====
-- callback_delete.go.
use gorm.Model.{Field, quote, field_named, add_extra_space_if_exist}
use gorm.Query.Builder.{Builder, QueryScope, bind, quoted_table_name}
use gorm.Query.Clauses.{combined_condition_sql}
use gorm.Write.{
  Run, Outside, has_error, report_message, call_unless_error, raw, exec, has_conditions,
}
use gorm.Prelude.{String, ◌&&◌, not, Option, none, some, [], ◌∷◌, concat, if◌then◌else◌}

abbrev pub option_text : Option String → String
option_text none = ""
option_text (some s) = s

-- beforeDeleteCallback
unfoldable pub before_delete_callback : Outside → Run → Run
unfolding has_conditions
before_delete_callback out run =
    if out.block_global_update && not (has_conditions run.query)
    then report_message "missing WHERE clause while deleting" run
    else call_unless_error out "BeforeDelete" run

-- The field that a soft delete sets.
unfoldable pub soft_delete_field : QueryScope → Option Field
soft_delete_field qs = if qs.search.unscoped then none else field_named qs.scope "DeletedAt"

-- The text of the statement, with the variables that it binds.
unfoldable pub delete_text : Outside → Run → String × Builder
unfolding soft_delete_field
delete_text out run = elim (soft_delete_field run.query) [
  | some f ↦
      let (mark, b1) = bind run.query out.now run.builder in
      let (combined, b2) = combined_condition_sql run.query b1 in
      (
        concat (
            "UPDATE "
            ∷ quoted_table_name run.query
            ∷ " SET "
            ∷ quote run.query.scope f.db_name
            ∷ "="
            ∷ mark
            ∷ add_extra_space_if_exist combined
            ∷ add_extra_space_if_exist (option_text out.delete_option)
            ∷ []),
        b2,
      )
  | none ↦
      let (combined, b1) = combined_condition_sql run.query run.builder in
      (
        concat (
            "DELETE FROM "
            ∷ quoted_table_name run.query
            ∷ add_extra_space_if_exist combined
            ∷ add_extra_space_if_exist (option_text out.delete_option)
            ∷ []),
        b1,
      )
]

-- deleteCallback
unfoldable pub delete_callback : Outside → Run → Run
unfolding delete_text exec
delete_callback out run =
    if has_error run
    then run
    else (let (s, b) = delete_text out run in exec out (raw s (record run { builder = b })))

-- afterDeleteCallback
abbrev pub after_delete_callback : Outside → Run → Run
after_delete_callback out run = call_unless_error out "AfterDelete" run
