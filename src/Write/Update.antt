-- ===== src/Write/Update.antt =====
-- callback_update.go.
use Prim.Native.String.{compare}
use text.Mathlib.Text.{is_lt}
use gorm.Model.{Value, Field, quote, field_named, add_extra_space_if_exist}
use gorm.Query.Builder.{Builder, QueryScope, Build, ◌>>=◌, pure, bind, quoted_table_name}
use gorm.Query.Clauses.{combined_condition_sql}
use gorm.Write.{
  Run, Outside, has_error, report_message, call_unless_error, raw, exec, has_conditions,
  is_changeable, set_column, fields_of,
}
use gorm.Write.Delete.{option_text}
use gorm.Prelude.{
  String, Bool, ◌&&◌, ◌||◌, not, none, some, List, [], ◌∷◌, ◌++◌, ◌==◌, concat, join, if◌then◌else◌,
}

-- beforeUpdateCallback
unfoldable pub before_update_callback : Outside → Run → Run
unfolding has_conditions
before_update_callback out run =
    if out.block_global_update && not (has_conditions run.query)
    then report_message "missing WHERE clause while updating" run
    else if out.update_column
    then run
    else call_unless_error out "BeforeUpdate" (call_unless_error out "BeforeSave" run)

-- updateTimeStampForUpdateCallback; the error of `SetColumn` is dropped.
unfoldable pub update_time_stamp_for_update_callback : Outside → Run → Run
unfolding set_column
update_time_stamp_for_update_callback out run =
    if out.update_column
    then run
    else (let (run', _) = set_column out run.query.scope.to_column_name "UpdatedAt" out.now run in
        run')

abbrev pub assignment : QueryScope → String → String → String
assignment qs name mark = concat (quote qs.scope name ∷ " = " ∷ mark ∷ [])

-- sort.Strings, on the keys of `update_attrs`; the bytes of two texts stand in the order of their
-- characters.
unfoldable pub insert_attr : String × Value → List (String × Value) → List (String × Value)
insert_attr attr [] = attr ∷ []
insert_attr (name, v) ((key, w) ∷ attrs) =
    let rest = insert_attr (name, v) attrs in
    if is_lt (compare key name) then (key, w) ∷ rest else (name, v) ∷ (key, w) ∷ attrs

unfoldable pub sort_attrs : List (String × Value) → List (String × Value)
unfolding insert_attr
sort_attrs [] = []
sort_attrs (attr ∷ attrs) = insert_attr attr (sort_attrs attrs)

-- The loop over the sorted columns of `update_attrs`.
unfoldable pub attr_assignments : QueryScope → List (String × Value) → Build (List String)
attr_assignments qs [] = pure []
attr_assignments qs ((name, v) ∷ attrs) = do
  mark ← bind qs v
  rest ← attr_assignments qs attrs
  pure (assignment qs name mark ∷ rest)

-- The loop over the foreign keys of a `belongs_to`.
unfoldable pub foreign_assignments : Outside → QueryScope → List String → Build (List String)
unfolding is_changeable
foreign_assignments out qs [] = pure []
foreign_assignments out qs (key ∷ keys) = elim (field_named qs.scope key) [
  | none ↦ foreign_assignments out qs keys
  | some f ↦ if is_changeable out qs f then foreign_assignments out qs keys else (do
    mark ← bind qs f.value
    rest ← foreign_assignments out qs keys
    pure (assignment qs f.db_name mark ∷ rest))
]

abbrev pub is_updated : Field → Bool
is_updated f =
    not f.is_primary_key && f.is_normal && (not (f.name == "CreatedAt") || not f.is_blank)

abbrev pub is_written : Field → Bool
is_written f = not f.is_foreign_key || not f.is_blank || not f.has_default_value

-- The body of the loop over the fields.
unfoldable pub field_assignments : Outside → QueryScope → Field → Build (List String)
unfolding foreign_assignments
field_assignments out qs f =
    if not (is_changeable out qs f)
    then pure []
    else if is_updated f
    then (if is_written f
        then (do mark ← bind qs f.value; pure (assignment qs f.db_name mark ∷ []))
        else pure [])
    else (elim f.relationship [
      | none ↦ pure []
      | some r ↦
          if r.kind == "belongs_to" then foreign_assignments out qs r.foreign_db_names else pure []
    ])

unfoldable pub fields_assignments : Outside → QueryScope → List Field → Build (List String)
unfolding field_assignments
fields_assignments out qs [] = pure []
fields_assignments out qs (f ∷ fields) = do
  some_sqls ← field_assignments out qs f
  rest ← fields_assignments out qs fields
  pure (some_sqls ++ rest)

-- sqls
unfoldable pub update_sqls : Outside → Run → Build (List String)
unfolding sort_attrs attr_assignments fields_assignments
update_sqls out run = elim run.update_attrs [
  | some attrs ↦ attr_assignments run.query (sort_attrs attrs)
  | none ↦ fields_assignments out run.query (fields_of run)
]

-- The last `if` of `updateCallback`.
unfoldable pub send_update : Outside → Run → List String → Builder → Run
unfolding exec
send_update out run [] b = record run { builder = b }
send_update out run (s ∷ sqls) b =
    let (combined, b') = combined_condition_sql run.query b in
    exec out (
      raw
        (concat (
          "UPDATE "
          ∷ quoted_table_name run.query
          ∷ " SET "
          ∷ join ", " (s ∷ sqls)
          ∷ add_extra_space_if_exist combined
          ∷ add_extra_space_if_exist (option_text out.update_option)
          ∷ []))
        (record run { builder = b' }))

-- updateCallback
unfoldable pub update_callback : Outside → Run → Run
unfolding update_sqls send_update
update_callback out run =
    if has_error run
    then run
    else (let (sqls, b) = update_sqls out run run.builder in send_update out run sqls b)

-- afterUpdateCallback
abbrev pub after_update_callback : Outside → Run → Run
after_update_callback out run =
    if out.update_column
    then run
    else call_unless_error out "AfterSave" (call_unless_error out "AfterUpdate" run)
