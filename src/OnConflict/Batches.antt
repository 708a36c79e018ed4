-- ===== src/OnConflict/Batches.antt =====
-- `createBatchWithOption` of on_conflict.go: one INSERT for a batch, with an option behind it.
-- The slice holds pointers or structs. Each element gets a scope of a clone of the transaction's `DB`:
-- what its methods report stays with the clone, but they share the connection and the objects.
use gorm.Errors.{Error, null}
use gorm.Model.{
  Value, Field, Relationship, Scope, quote, field_named, changeable_field, Result, ok, err,
}
use gorm.Batch.Create.{Ending, returned, panicked}
use gorm.Batch.Rows.{
  Statement, failed, answered, Txn, Env, has_error, call_unless_error, stamp, write_object,
}
use gorm.Batch.Statement.{replace_dollars, bind_values, values_text}
use gorm.Prelude.Int.{ℤ, pos, ◌+ℤ◌}
use gorm.Prelude.{
  ℕ, String, Bool, true, false, ◌&&◌, ◌||◌, not, Option, none, some, List, [], ◌∷◌, ◌++◌, map, ◌==◌,
  concat, join, if◌then◌else◌,
}

-- An element of the slice: a pointer, or a struct that can be addressed or not.
pub data Item : Type 0 where
  nil_item : Item
  pointer_item : (address : ℕ) → Item
  struct_item : (can_addr : Bool) (address : ℕ) → Item

-- What the function gets besides the slice: what stands outside, where `now` is the time of `NowFunc`;
-- the attributes that the search of the `DB` selects and omits; the address that stands for a nil
-- pointer, whose object has blank fields; `Create` of one value with the option, for the rows that it
-- affects and its error; whether the transaction is open; the option; and the panic of a method of the
-- model, if one panics while `createBatchWithOption` runs for these elements on this state, with the
-- state that it leaves.
pub record Upsert : Type 0 where
  pub env : Env
  pub selects : List String
  pub omits : List String
  pub nil_address : ℕ
  pub create : ℕ → Txn → Txn × ℤ × Error
  pub is_open : Bool
  pub insert_option : String
  pub method_panic : List Item → Txn → Option Txn

-- The address of the value that a scope gets; `none` is the panic of `Addr`.
abbrev pub value_address : Upsert → Item → Option ℕ
value_address u nil_item = some u.nil_address
value_address u (pointer_item address) = some address
value_address u (struct_item true address) = some address
value_address u (struct_item false address) = none

-- The scope of an object, as it is now.
abbrev pub scope_of : Upsert → ℕ → Txn → Scope
scope_of u address t = record (u.env.scope address) { fields = t.object address }

-- The loop over the foreign keys of a `belongs_to`.
unfoldable pub foreign_fields : Upsert → Scope → List String → List Field
foreign_fields u scope [] = []
foreign_fields u scope (key ∷ keys) = elim (field_named scope key) [
  | none ↦ foreign_fields u scope keys
  | some f ↦
      let rest = foreign_fields u scope keys in
      if not (changeable_field u.selects u.omits f) then f ∷ rest else rest
]

-- The case of a field that is no column.
unfoldable pub bound_relation : Upsert → Scope → Option Relationship → List Field
unfolding foreign_fields
bound_relation u scope none = []
bound_relation u scope (some r) =
    if r.kind == "belongs_to" then foreign_fields u scope r.foreign_db_names else []

-- The body of the loop over the fields: the fields that it writes.
unfoldable pub bound_field : Upsert → Scope → Field → List Field
unfolding bound_relation
bound_field u scope field =
    if changeable_field u.selects u.omits field
    then (if field.is_normal && not field.is_ignored
        then (if not field.is_primary_key || not field.is_blank then field ∷ [] else [])
        else bound_relation u scope field.relationship)
    else []

-- The loop over the fields, which the columns and each row go through.
unfoldable pub bound_fields : Upsert → Scope → List Field → List Field
bound_fields u scope [] = []
bound_fields u scope (field ∷ fields) = bound_field u scope field ++ bound_fields u scope fields

-- The columns, from the first element.
unfoldable pub columns_of : Upsert → Scope → List String
unfolding bound_fields
columns_of u scope = map (λ f. quote scope f.db_name) (bound_fields u scope scope.fields)

-- What a clone of the `DB` leaves behind for the `DB` itself, which keeps its error.
abbrev pub leave : Txn → Txn → Txn
leave t clone = record clone { error = t.error }

-- The fields of an element behind its hooks, with the time stamps that were blank; the errors of `Set`
-- are dropped.
unfoldable pub stamped : Upsert → ℕ → Txn → List Field
unfolding stamp
stamped u address t =
    let scope = scope_of u address t in
    let fields = (stamp u.env scope t.fresh false "CreatedAt" (t.object address)).0 in
    (stamp u.env scope t.fresh false "UpdatedAt" fields).0

abbrev pub values_of : Upsert → Scope → List Value
values_of u scope = map (λ f. f.value) (bound_fields u scope scope.fields)

-- The end of the loop's body: the row of placeholders of an object with these fields, and the
-- variables of the first element's scope.
abbrev pub bind_object :
    Upsert
    → (ℕ → String)
    → ℕ
    → List Value
    → Txn
    → List Field
    → Txn × Result (List String × List Value)
bind_object u bind_var address vars t fields = (
  write_object address fields t,
  ok (bind_values bind_var (values_of u (record (u.env.scope address) { fields = fields })) vars),
)

-- The part of the loop's body behind the methods, which have left the clone `t2`.
unfoldable pub bind_stamped :
    Upsert → (ℕ → String) → ℕ → List Value → Txn → Txn → Txn × Result (List String × List Value)
unfolding stamped bound_fields bind_values
bind_stamped u bind_var address vars t t2 =
    if has_error t2
    then (leave t t2, err t2.error)
    else bind_object u bind_var address vars (leave t t2) (stamped u address t2)

-- The body of the loop over the elements, for the object at an address.
unfoldable pub prepare_item :
    Upsert → (ℕ → String) → ℕ → List Value → Txn → Txn × Result (List String × List Value)
unfolding bind_stamped
prepare_item u bind_var address vars t =
    let t1 = call_unless_error u.env "BeforeSave" address t in
    let t2 = call_unless_error u.env "BeforeCreate" address t1 in
    bind_stamped u bind_var address vars t t2

-- What the loop over the elements leaves: the rows of placeholders and the variables, an error, or a
-- panic.
pub data Prepared : Type 0 where
  prepared : Txn → List (List String) → List Value → Prepared
  refused : Txn → Error → Prepared
  broken : Txn → Prepared

abbrev pub add_row : List String → Prepared → Prepared
add_row row (prepared t rows vars) = prepared t (row ∷ rows) vars
add_row row p = p

abbrev pub and_prepare :
    Txn × Result (List String × List Value) → (List Value → Txn → Prepared) → Prepared
and_prepare (t, err e) rest = refused t e
and_prepare (t, ok (row, vars)) rest = add_row row (rest vars t)

-- The loop over the elements; a nil pointer is skipped.
unfoldable pub prepare_items : Upsert → (ℕ → String) → List Item → List Value → Txn → Prepared
unfolding prepare_item
prepare_items u bind_var [] vars t = prepared t [] vars
prepare_items u bind_var (nil_item ∷ items) vars t = prepare_items u bind_var items vars t
prepare_items u bind_var (pointer_item address ∷ items) vars t =
    and_prepare (prepare_item u bind_var address vars t) (prepare_items u bind_var items)
prepare_items u bind_var (struct_item true address ∷ items) vars t =
    and_prepare (prepare_item u bind_var address vars t) (prepare_items u bind_var items)
prepare_items u bind_var (struct_item false address ∷ items) vars t = broken t

-- The loop that calls `AfterCreate` and `AfterSave`, each time on a new clone.
unfoldable pub after_item : Upsert → ℕ → Txn → Txn × Error
after_item u address t =
    let t1 = call_unless_error u.env "AfterCreate" address t in
    let t2 = call_unless_error u.env "AfterSave" address t1 in
    (leave t t2, if has_error t2 then t2.error else null)

abbrev pub and_after : ℤ → Txn × Error → (Txn → Ending) → Ending
and_after affected (t, null) rest = rest t
and_after affected (t, e) rest = returned t affected e

unfoldable pub after_items : Upsert → ℤ → List Item → Txn → Ending
unfolding after_item
after_items u affected [] t = returned t affected null
after_items u affected (nil_item ∷ items) t = after_items u affected items t
after_items u affected (pointer_item address ∷ items) t =
    and_after affected (after_item u address t) (after_items u affected items)
after_items u affected (struct_item true address ∷ items) t =
    and_after affected (after_item u address t) (after_items u affected items)
after_items u affected (struct_item false address ∷ items) t = panicked t

-- optionStr
unfoldable pub option_space : String → String
option_space option = if option == "" then "" else concat (" " ∷ option ∷ [])

-- The text given to `Raw`.
unfoldable pub upsert_text : String → List String → List (List String) → String → String
unfolding values_text option_space
upsert_text table columns rows option = concat (
    "INSERT INTO "
    ∷ table
    ∷ " ("
    ∷ join "," columns
    ∷ ") VALUES "
    ∷ values_text rows
    ∷ option_space option
    ∷ [])

abbrev or_zero : Result ℤ → ℤ
or_zero (ok n) = n
or_zero (err _) = pos 0

-- Exec on the connection of the transaction, and what follows it. A transaction that was not opened
-- is a nil pointer, on which `Exec` panics.
unfoldable pub exec_upsert : Upsert → List Item → Statement → Txn → Ending
unfolding after_items
exec_upsert u items statement t =
    if not u.is_open
    then panicked t
    else (let sent = t.sent ++ statement ∷ [] in
        let t1 = record t { sent = sent } in
        elim (u.env.database sent) [
          | failed e ↦ returned t1 (pos 0) e
          | answered affected last ↦ after_items u (or_zero affected) items t1
        ])

abbrev pub and_exec : Upsert → List Item → (List (List String) → String) → Prepared → Ending
and_exec u items make (prepared t rows vars) =
    exec_upsert u items (record { sql = replace_dollars 0 (make rows); vars = vars }) t
and_exec u items make (refused t e) = returned t (pos 0) e
and_exec u items make (broken t) = panicked t

abbrev pub and_create : ℤ → Txn × ℤ × Error → (ℤ → Txn → Ending) → Ending
and_create total (t, affected, null) rest = rest (total +ℤ affected) t
and_create total (t, affected, e) rest = returned t total e

-- The loop that creates the values one by one, for a first element without columns.
unfoldable pub create_each : Upsert → List Item → ℤ → Txn → Ending
create_each u [] total t = returned t total null
create_each u (item ∷ items) total t = elim (value_address u item) [
  | none ↦ panicked t
  | some address ↦ and_create total (u.create address t) (create_each u items)
]

-- The two ways of the function, on `len(columns) == 0`.
unfoldable pub write_items : Upsert → ℕ → List String → List Item → Txn → Ending
unfolding create_each prepare_items upsert_text exec_upsert replace_dollars quote
write_items u first [] items t = create_each u items (pos 0) t
write_items u first (column ∷ columns) items t =
    let scope = u.env.scope first in
    and_exec u items
      (λ rows.
        upsert_text (quote scope (u.env.table_name first)) (column ∷ columns) rows u.insert_option)
      (prepare_items u scope.dialect.bind_var items [] t)

-- createBatchWithOption, for a batch that is not empty.
unfoldable pub create_batch_with_option : Upsert → List Item → Txn → Ending
unfolding columns_of write_items
create_batch_with_option u [] t = panicked t
create_batch_with_option u (item ∷ items) t = elim (value_address u item) [
  | none ↦ panicked t
  | some first ↦ write_items u first (columns_of u (scope_of u first t)) (item ∷ items) t
]
