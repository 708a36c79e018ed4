-- ===== src/Batch/Rows.antt =====
-- One row of a batch: `isNilBatchElem` and `prepareBatchCreateRow` of batch_create.go.
-- An object, which a pointer of the slice leads to, is known by its address; the store has its fields
-- as `Scope.Fields` of a new scope gives them. The search of the row's scope is empty, so that
-- `SelectAttrs` and `OmitAttrs` are.
use gorm.Errors.{Error, null, err_unaddressable, plain}
use gorm.Model.{
  Value, Field, Reflect, set, find_index, changeable_field, Scope, quote, field_named, Result, ok,
  err,
}
use gorm.Batch.Columns.{Collector, append_column, start_collector, finish_columns}
use gorm.Batch.Save.{keeps_primary_key}
use gorm.Prelude.Int.{ℤ}
use gorm.Prelude.{
  ℕ, zero, suc, String, Bool, true, false, ◌&&◌, ◌||◌, not, Option, none, some, List, [], ◌∷◌, ◌==◌,
  get_elem?, nat_eq, if◌then◌else◌,
}

-- An element of the slice; a struct can be addressed or not.
pub data Elem : Type 0 where
  nil_interface : Elem
  interface : Elem → Elem
  nil_pointer : Elem
  pointer : (address : ℕ) → Elem
  struct : (can_addr : Bool) (address : ℕ) → Elem

pub record Statement : Type 0 where
  pub sql : String
  pub vars : List Value

-- What `Exec` gives back: an error, or a `sql.Result` with its two methods.
pub data Answer : Type 0 where
  failed : Error → Answer
  answered : (rows_affected last_insert_id : Result ℤ) → Answer

-- What the batch engine reads and writes of the transaction's `DB`: its error, the objects, and the
-- statements it has sent. `fresh` is the identity of an error that is made now.
pub record Txn : Type 0 where
  pub sent : List Statement
  pub error : Error
  pub object : ℕ → List Field
  pub fresh : ℕ

-- What stands outside: the scope that an object's value gives (but for its fields), reflection, the
-- time that `nowFunc` returns, the methods of the model, which `CallMethod` calls by their names and
-- which return; the panic of one of them, if one panics while `createBatch` runs for these elements on
-- this state, with the state that it leaves; the table of a value, the settings of the `DB` as
-- `fmt.Sprint` prints them, and the database, which answers the last of the statements that it got.
pub record Env : Type 0 where
  pub scope : ℕ → Scope
  pub reflect : Reflect
  pub now : Value
  pub call_method : String → ℕ → Txn → Txn
  pub method_panic : List Elem → Txn → Option Txn
  pub table_name : ℕ → String
  pub insert_option : Option String
  pub insert_modifier : Option String
  pub database : List Statement → Answer

pub record Row : Type 0 where
  pub address : ℕ
  pub fields : List Field
  pub primary_field : Option ℕ
  pub columns : List String
  pub values : List Value

-- isNilBatchElem
unfoldable pub is_nil_batch_elem : Elem → Bool
is_nil_batch_elem nil_interface = true
is_nil_batch_elem (interface elem) = is_nil_batch_elem elem
is_nil_batch_elem nil_pointer = true
is_nil_batch_elem _ = false

-- The address of `value`, or the error, for the identity of an error that is made now.
unfoldable pub elem_address : ℕ → Elem → Result ℕ
elem_address fresh nil_interface = err (plain fresh "gorm: nil interface in CreateInBatches")
elem_address fresh (interface elem) = elem_address fresh elem
elem_address fresh nil_pointer = err (plain fresh "gorm: nil pointer in CreateInBatches")
elem_address fresh (pointer address) = ok address
elem_address fresh (struct can_addr address) =
    if can_addr then ok address else err err_unaddressable

abbrev pub is_error : Error → Bool
is_error null = false
is_error _ = true

-- Scope.HasError
abbrev pub has_error : Txn → Bool
has_error t = is_error t.error

-- if !scope.HasError() { scope.CallMethod(name) }
abbrev pub call_unless_error : Env → String → ℕ → Txn → Txn
call_unless_error env name address t = if has_error t then t else env.call_method name address t

abbrev pub set_at : ℕ → Field → List Field → List Field
set_at index f [] = []
set_at zero f (g ∷ fields) = f ∷ fields
set_at (suc index) f (g ∷ fields) = g ∷ set_at index f fields

-- The time stamp of one column: `always` or only where it is blank.
unfoldable pub stamp : Env → Scope → ℕ → Bool → String → List Field → List Field × Error
unfolding find_index set
stamp env scope fresh always name fields =
    elim (find_index name (scope.to_column_name name) 0 none fields) [
      | none ↦ (fields, null)
      | some index ↦ elim (get_elem? fields index) [
        | none ↦ (fields, null)
        | some field ↦
            if always || field.is_blank
            then (let (new, e) = set env.reflect fresh env.now field in
                (set_at index new fields, e))
            else (fields, null)
      ]
    ]

-- The loop over the foreign keys of a `belongs_to`, and its body.
unfoldable pub foreign_column : Scope → List String → String → Collector → Collector
foreign_column scope expected key st = elim (field_named scope key) [
  | none ↦ st
  | some f ↦
      if not (changeable_field [] [] f)
      then append_column expected (quote scope f.db_name, f.value) st
      else st
]

unfoldable pub write_foreign : Scope → List String → List String → Collector → Collector
write_foreign scope expected [] st = st
write_foreign scope expected (key ∷ keys) st =
    write_foreign scope expected keys (foreign_column scope expected key st)

-- save != nil && field.IsPrimaryKey && !save.keepsPrimaryKey(field)
abbrev pub drops_key : Scope → Option (List String) → Field → Bool
drops_key scope none field = false
drops_key scope (some conflict) field =
    field.is_primary_key && not (keeps_primary_key scope conflict field)

-- The body of the loop over the fields.
unfoldable pub write_field :
    Scope → Option (List String) → List String → Field → Collector → Collector
write_field scope save expected field st =
    if not (changeable_field [] [] field)
    then st
    else if field.is_normal && not field.is_ignored
    then (if field.is_blank && field.has_default_value
        then st
        else if drops_key scope save field
        then st
        else if not field.is_primary_key || not field.is_blank
        then append_column expected (quote scope field.db_name, field.value) st
        else st)
    else elim field.relationship [
      | none ↦ st
      | some r ↦
          if r.kind == "belongs_to" then write_foreign scope expected r.foreign_db_names st else st
    ]

unfoldable pub write_fields :
    Scope → Option (List String) → List String → List Field → Collector → Collector
write_fields scope save expected [] st = st
write_fields scope save expected (field ∷ fields) st =
    write_fields scope save expected fields (write_field scope save expected field st)

-- The index of `row.primaryField`, the last primary field.
unfoldable pub last_primary : ℕ → Option ℕ → List Field → Option ℕ
last_primary index found [] = found
last_primary index found (f ∷ fields) =
    last_primary (suc index) (if f.is_primary_key then some index else found) fields

-- The part of `prepareBatchCreateRow` behind the time stamps.
unfoldable pub make_row : Scope → Option (List String) → List String → ℕ → List Field → Row
unfolding write_fields last_primary
make_row scope save expected address fields =
    let st = write_fields scope save expected fields (start_collector expected) in
    record {
      address = address;
      fields = fields;
      primary_field = last_primary 0 none fields;
      columns = finish_columns expected st;
      values = st.values;
    }

abbrev pub is_save : Option (List String) → Bool
is_save none = false
is_save (some _) = true

-- The object's fields, as they are now.
abbrev pub write_object : ℕ → List Field → Txn → Txn
write_object address fields t = record t {
  object = λ a. if nat_eq a address then fields else t.object a;
}

-- A row of an object, once its hooks have run; `make` builds it from the stamped fields.
unfoldable pub stamp_row :
    Env → Option (List String) → ℕ → (Scope → List Field → Row) → Txn → Txn × Result Row
unfolding stamp
stamp_row env save address make t =
    let scope = record (env.scope address) { fields = t.object address } in
    let (fields1, e1) = stamp env scope t.fresh false "CreatedAt" (t.object address) in
    elim e1 [
      | null ↦
          let (fields2, e2) = stamp env scope t.fresh (is_save save) "UpdatedAt" fields1 in
          elim e2 [
            | null ↦ (
              write_object address fields2 t,
              ok (make (record scope { fields = fields2 }) fields2),
            )
            | e ↦ (write_object address fields2 t, err e)
          ]
      | e ↦ (write_object address fields1 t, err e)
    ]

-- prepareBatchCreateRow
unfoldable pub prepare_batch_create_row :
    Env → Option (List String) → List String → Elem → Txn → Txn × Result Row
unfolding elem_address stamp_row make_row
prepare_batch_create_row env save expected elem t = elim (elem_address t.fresh elem) [
  | err e ↦ (t, err e)
  | ok address ↦
      let t1 = call_unless_error env "BeforeSave" address t in
      let t2 = call_unless_error env "BeforeCreate" address t1 in
      if has_error t2
      then (t2, err t2.error)
      else stamp_row env save address (λ scope fields. make_row scope save expected address fields)
          t2
]
