-- ===== src/Write.antt =====
-- The callbacks that create, update and delete one value: callback_create.go, callback_update.go and
-- callback_delete.go, with `Exec` and `SetColumn` of scope.go.
pub mod Create
pub mod Update
pub mod Delete
pub mod Guards
pub mod Columns
pub mod Associations
pub mod Attributes
pub mod Reload
pub mod Samples
mod Witnesses
use gorm.Errors.{Error, null, plain}
use gorm.Batch.Rows.{Statement, Answer, failed, answered, is_error, set_at}
use gorm.Batch.Statement.{replace_dollars}
use gorm.Model.{
  Value, text, Field, Reflect, set, find_index, changeable_field, Scope, quote, field_named,
  primary_fields, Result, ok, err,
}
use gorm.Query.Builder.{Builder, QueryScope, Build, bind, report, report_new, primary_key_zero}
use gorm.Query.Search.{Arg, Condition, Selection, column, columns, printed, unknown}
use gorm.Prelude.Int.{ℤ, pos}
use gorm.Prelude.{
  ℕ, zero, suc, String, Bool, true, false, ◌&&◌, ◌||◌, not, Option, none, some, List, [], ◌∷◌, ◌++◌,
  map, ◌==◌, get_elem?, if◌then◌else◌,
}

-- What one operation reads and writes of its scope. `update_attrs` is the instance setting
-- `gorm:update_attrs`, a map by columns, and `blank_columns` the setting
-- `gorm:blank_columns_with_default_value`.
pub record Run : Type 0 where
  pub query : QueryScope
  pub builder : Builder
  pub sql : String
  pub sent : List Statement
  pub rows_affected : ℤ
  pub update_attrs : Option (List (String × Value))
  pub blank_columns : Option (List String)

-- What stands outside: reflection, the time of `nowFunc`, the methods of the model, the expressions
-- of `CreateWithColumnExpressions` that are not nil, the verb %v on an argument of `Select`, the
-- settings of the `DB` as they are printed, and the database. `query_row` answers a statement that
-- gives back the new key.
pub record Outside : Type 0 where
  pub reflect : Reflect
  pub now : Value
  pub call_method : String → Run → Run
  pub column_expression : String → Option Value
  pub show_arg : Arg → String
  pub block_global_update : Bool
  pub update_column : Bool
  pub insert_option : Option String
  pub insert_modifier : Option String
  pub update_option : Option String
  pub delete_option : Option String
  pub database : List Statement → Answer
  pub query_row : List Statement → Result Value

-- Scope.HasError
abbrev pub has_error : Run → Bool
has_error run = is_error run.builder.error

-- Scope.Err
abbrev pub report_run : Error → Run → Run
report_run e run = record run { builder = report e run.builder }

abbrev pub report_message : String → Run → Run
report_message m run = record run { builder = report_new m run.builder }

abbrev pub fields_of : Run → List Field
fields_of run = run.query.scope.fields

abbrev pub with_fields : List Field → Run → Run
with_fields fields run = record run {
  query = record run.query { scope = record run.query.scope { fields = fields } };
}

-- if !scope.HasError() { scope.CallMethod(name) }
abbrev pub call_unless_error : Outside → String → Run → Run
call_unless_error out name run = if has_error run then run else out.call_method name run

-- Scope.Raw
abbrev pub raw : String → Run → Run
raw s run = record run { sql = replace_dollars 0 s }

-- The statement that the driver gets.
abbrev pub send : Run → Run
send run = record run { sent = run.sent ++ record { sql = run.sql; vars = run.builder.vars } ∷ [] }

-- The count of an answer, where it is no error.
abbrev pub count_rows : Result ℤ → Run → Run
count_rows (ok n) run = record run { rows_affected = n }
count_rows (err e) run = report_run e run

-- Scope.Exec
unfoldable pub exec : Outside → Run → Run
unfolding report
exec out run =
    if has_error run
    then run
    else (let sent = send run in
        elim (out.database sent.sent) [
          | failed e ↦ report_run e sent
          | answered affected last ↦ count_rows affected sent
        ])

abbrev pub selected_texts : Selection → List String
selected_texts (column s) = s ∷ []
selected_texts (columns names) = names
selected_texts (printed names) = names
selected_texts unknown = []

-- Scope.SelectAttrs, with the texts of the arguments behind.
unfoldable pub select_attrs : Outside → QueryScope → List String
select_attrs out qs = elim qs.search.selects [
  | none ↦ []
  | some (selection, args) ↦ selected_texts selection ++ map out.show_arg args
]

-- Scope.changeableField
unfoldable pub is_changeable : Outside → QueryScope → Field → Bool
unfolding select_attrs changeable_field
is_changeable out qs f = changeable_field (select_attrs out qs) qs.search.omits f

-- Scope.hasConditions
unfoldable pub has_conditions : QueryScope → Bool
unfolding primary_key_zero
has_conditions qs =
    not (primary_key_zero qs.scope)
    || not (no_conditions qs.search.where_conditions)
    || not (no_conditions qs.search.or_conditions)
    || not (no_conditions qs.search.not_conditions)
  where
    no_conditions : List Condition → Bool
    no_conditions [] = true
    no_conditions (_ ∷ _) = false

-- The index of the first primary field.
unfoldable pub first_primary : ℕ → List Field → Option ℕ
first_primary index [] = none
first_primary index (f ∷ fields) =
    let rest = first_primary (suc index) fields in if f.is_primary_key then some index else rest

abbrev pub is_composite : List Field → Bool
is_composite (_ ∷ _ ∷ _) = true
is_composite _ = false

-- Scope.PrimaryField, as an index into the fields.
unfoldable pub primary_index : Scope → Option ℕ
unfolding first_primary find_index
primary_index scope =
    let first = first_primary 0 scope.fields in
    if is_composite (primary_fields scope.fields)
    then (elim (find_index "id" (scope.to_column_name "id") 0 none scope.fields) [
      | none ↦ first
      | some index ↦ some index
    ])
    else first

-- Field.Set of a field of the scope, by its index.
unfoldable pub set_field : Outside → ℕ → Value → Run → Run × Error
unfolding set
set_field out index v run = elim (get_elem? (fields_of run) index) [
  | none ↦ (run, null)
  | some f ↦
      let (new, e) = set out.reflect run.builder.fresh v f in
      (with_fields (set_at index new (fields_of run)) run, e)
]

-- A key of a map, with its new value.
unfoldable pub put : String → Value → List (String × Value) → List (String × Value)
put key v [] = (key, v) ∷ []
put key v ((k, w) ∷ pairs) =
    let rest = put key v pairs in if k == key then (key, v) ∷ pairs else (k, w) ∷ rest

abbrev put_attr : String → Value → Option (List (String × Value)) → Option (List (String × Value))
put_attr key v none = none
put_attr key v (some pairs) = some (put key v pairs)

-- field.DBName == value, on an `interface{}`.
abbrev is_text : String → Value → Bool
is_text s (text t) = s == t
is_text s _ = false

abbrev is_none : Option ℕ → Bool
is_none none = true
is_none (some _) = false

-- The loop of `SetColumn`, for the index of the field that it sets: it compares the column with the
-- value, not with the name, to end early.
unfoldable pub column_index : String → String → Value → ℕ → Option ℕ → List Field → Option ℕ
column_index name db_name v index found [] = found
column_index name db_name v index found (f ∷ fields) =
    let first = is_none found && f.name == name in
    let kept = if not f.is_ignored && (f.db_name == db_name || first) then some index else found in
    let rest = column_index name db_name v (suc index) kept fields in
    if is_text f.db_name v then some index else rest

-- Scope.SetColumn, for a name and the naming strategy of `ToDBName`.
unfoldable pub set_column : Outside → (String → String) → String → Value → Run → Run × Error
unfolding column_index set_field put
set_column out to_db_name name v run =
    elim (column_index name (to_db_name name) v 0 none (fields_of run)) [
      | none ↦ (run, plain run.builder.fresh "could not convert column to field")
      | some index ↦ elim (get_elem? (fields_of run) index) [
        | none ↦ (run, null)
        | some f ↦
            set_field out index v
              (record run { update_attrs = put_attr f.db_name v run.update_attrs })
      ]
    ]
