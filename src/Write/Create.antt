-- ===== src/Write/Create.antt =====
-- callback_create.go, and `createColumnValue` of create_expression.go.
use gorm.Errors.{err_unaddressable}
use gorm.Batch.Rows.{failed, answered, set_at}
use gorm.Batch.Statement.{modifier_of}
use gorm.Model.{
  Value, Field, find_index, quote, field_named, Scope, Result, ok, err, add_extra_space_if_exist,
}
use gorm.Query.Builder.{QueryScope, Build, ◌>>=◌, pure, bind, quoted_table_name}
use gorm.Write.{
  Run, Outside, has_error, report_run, call_unless_error, raw, send, is_changeable, fields_of,
  with_fields, primary_index, set_field,
}
use gorm.Write.Delete.{option_text}
use gorm.Prelude.Int.{ℤ, pos}
use gorm.Prelude.{
  ℕ, String, false, ◌&&◌, ◌||◌, not, Option, none, some, List, [], ◌∷◌, ◌++◌, ◌==◌, get_elem?,
  concat, join, if◌then◌else◌,
}

-- beforeCreateCallback
abbrev pub before_create_callback : Outside → Run → Run
before_create_callback out run =
    call_unless_error out "BeforeCreate" (call_unless_error out "BeforeSave" run)

-- The time stamp of one field that is blank; the error of `Set` is dropped.
unfoldable pub stamp_blank : Outside → String → Run → Run
unfolding find_index set_field
stamp_blank out name run =
    elim (find_index name (run.query.scope.to_column_name name) 0 none (fields_of run)) [
      | none ↦ run
      | some index ↦ elim (get_elem? (fields_of run) index) [
        | none ↦ run
        | some f ↦
            if f.is_blank then (let (run', _) = set_field out index out.now run in run') else run
      ]
    ]

-- updateTimeStampForCreateCallback
unfoldable pub update_time_stamp_for_create_callback : Outside → Run → Run
unfolding stamp_blank
update_time_stamp_for_create_callback out run =
    if has_error run then run else stamp_blank out "UpdatedAt" (stamp_blank out "CreatedAt" run)

-- createColumnValue
abbrev pub create_column_value : Outside → Field → Value
create_column_value out f = elim (out.column_expression f.db_name) [ none ↦ f.value | some e ↦ e ]

-- columns, placeholders and blankColumnsWithDefaultValue
pub record Collected : Type 0 where
  pub columns : List String
  pub placeholders : List String
  pub blank_columns : List String

abbrev pub nothing_collected : Collected
nothing_collected = record { columns = []; placeholders = []; blank_columns = [] }

-- The two appends.
unfoldable pub add_column : Outside → QueryScope → Field → Collected → Build Collected
unfolding bind
add_column out qs f st = do
  mark ← bind qs (create_column_value out f)
  pure (record st {
    columns = st.columns ++ quote qs.scope f.db_name ∷ [];
    placeholders = st.placeholders ++ mark ∷ [];
  })

-- The loop over the foreign keys of a `belongs_to`.
unfoldable pub add_foreign : Outside → QueryScope → List String → Collected → Build Collected
unfolding add_column is_changeable
add_foreign out qs [] st = pure st
add_foreign out qs (key ∷ keys) st = elim (field_named qs.scope key) [
  | none ↦ add_foreign out qs keys st
  | some f ↦
      if is_changeable out qs f
      then add_foreign out qs keys st
      else add_column out qs f st >>= add_foreign out qs keys
]

-- The body of the loop over the fields.
unfoldable pub add_field : Outside → QueryScope → Field → Collected → Build Collected
unfolding add_foreign
add_field out qs f st =
    if not (is_changeable out qs f)
    then pure st
    else if f.is_normal && not f.is_ignored
    then (if f.is_blank && f.has_default_value
        then pure (record st { blank_columns = st.blank_columns ++ quote qs.scope f.db_name ∷ [] })
        else if not f.is_primary_key || not f.is_blank
        then add_column out qs f st
        else pure st)
    else (elim f.relationship [
      | none ↦ pure st
      | some r ↦
          if r.kind == "belongs_to" then add_foreign out qs r.foreign_db_names st else pure st
    ])

unfoldable pub add_fields : Outside → QueryScope → List Field → Collected → Build Collected
add_fields out qs [] st = pure st
add_fields out qs (f ∷ fields) st = add_field out qs f st >>= add_fields out qs fields

-- returningColumn
unfoldable pub returning_column : Scope → String
unfolding primary_index
returning_column scope = elim (primary_index scope) [
  | none ↦ "*"
  | some index ↦ elim (get_elem? scope.fields index) [ none ↦ "*" | some f ↦ quote scope f.db_name ]
]

abbrev pub output_interstitial : QueryScope → List String → String
output_interstitial qs columns =
    qs.scope.dialect.last_insert_id_output_interstitial (quoted_table_name qs)
      (returning_column qs.scope) columns

abbrev pub returning_suffix : QueryScope → List String → String
returning_suffix qs columns =
    if output_interstitial qs columns == ""
    then qs.scope.dialect.last_insert_id_returning_suffix (quoted_table_name qs)
        (returning_column qs.scope)
    else ""

-- The text of the statement.
unfoldable pub insert_text : Outside → QueryScope → Collected → String
unfolding modifier_of
insert_text out qs st = elim st.columns [
  | [] ↦ concat (
      "INSERT"
      ∷ add_extra_space_if_exist (modifier_of out.insert_modifier)
      ∷ " INTO "
      ∷ quoted_table_name qs
      ∷ " "
      ∷ qs.scope.dialect.default_value_str
      ∷ add_extra_space_if_exist (option_text out.insert_option)
      ∷ add_extra_space_if_exist (returning_suffix qs st.columns)
      ∷ [])
  | _ ∷ _ ↦ concat (
      "INSERT"
      ∷ add_extra_space_if_exist (modifier_of out.insert_modifier)
      ∷ " INTO "
      ∷ quoted_table_name qs
      ∷ " ("
      ∷ join "," st.columns
      ∷ ")"
      ∷ add_extra_space_if_exist (output_interstitial qs st.columns)
      ∷ " VALUES ("
      ∷ join "," st.placeholders
      ∷ ")"
      ∷ add_extra_space_if_exist (option_text out.insert_option)
      ∷ add_extra_space_if_exist (returning_suffix qs st.columns)
      ∷ [])
]

-- The count of an answer, whose error is dropped.
abbrev or_zero : Result ℤ → ℤ
or_zero (ok n) = n
or_zero (err _) = pos 0

-- The key that the database made, for a primary field that is blank.
unfoldable pub set_last_id : Outside → Option ℕ → Result ℤ → Run → Run
unfolding set_field
set_last_id out none last run = run
set_last_id out (some index) (err e) run = elim (get_elem? (fields_of run) index) [
  | none ↦ run
  | some f ↦ if f.is_blank then report_run e run else run
]
set_last_id out (some index) (ok n) run = elim (get_elem? (fields_of run) index) [
  | none ↦ run
  | some f ↦
      if f.is_blank
      then (let (run', e) = set_field out index (Value.number n) run in report_run e run')
      else run
]

-- The execution by `Exec`, for the first two of the three ways.
unfoldable pub exec_insert : Outside → Option ℕ → Run → Run
unfolding set_last_id
exec_insert out primary run =
    let sent = send run in
    elim (out.database sent.sent) [
      | failed e ↦ report_run e sent
      | answered affected last ↦
          set_last_id out primary last (record sent { rows_affected = or_zero affected })
    ]

-- The execution by `QueryRow`, for dialects that return the key.
unfoldable pub query_insert : Outside → ℕ → Run → Run
query_insert out index run = elim (get_elem? (fields_of run) index) [
  | none ↦ run
  | some f ↦
      if f.can_addr
      then (let sent = send run in
          elim (out.query_row sent.sent) [
            | err e ↦ report_run e sent
            | ok v ↦
                record (with_fields
                  (set_at index (record f { value = v; is_blank = false }) (fields_of sent)) sent) {
                    rows_affected = pos 1;
                  }
          ])
      else report_run err_unaddressable run
]

abbrev kept_columns : List String → Option (List String) → Option (List String)
kept_columns [] old = old
kept_columns (c ∷ columns) old = some (c ∷ columns)

-- The part of `createCallback` behind its loop.
unfoldable pub execute_insert : Outside → Collected → Run → Run
unfolding exec_insert query_insert insert_text
execute_insert out st run =
    let run1 = raw (insert_text out run.query st) run in
    elim (primary_index run.query.scope) [
      | none ↦ exec_insert out none run1
      | some index ↦
          if returning_suffix run.query st.columns == ""
            && output_interstitial run.query st.columns == ""
          then exec_insert out (some index) run1
          else query_insert out index run1
    ]

-- createCallback
unfoldable pub create_callback : Outside → Run → Run
unfolding add_fields execute_insert
create_callback out run =
    if has_error run
    then run
    else (let (st, b) = add_fields out run.query (fields_of run) nothing_collected run.builder in
        execute_insert out st (record run {
          builder = b;
          blank_columns = kept_columns st.blank_columns run.blank_columns;
        }))

-- afterCreateCallback
abbrev pub after_create_callback : Outside → Run → Run
after_create_callback out run =
    call_unless_error out "AfterSave" (call_unless_error out "AfterCreate" run)
