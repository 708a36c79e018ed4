-- ===== src/Batch/Written.antt =====
-- What `prepareBatchCreateRow` of batch_create.go writes, without its way of collecting columns.
use gorm.Model.{Value, Field, Scope, quote, field_named, changeable_field, Result-cases}
use gorm.Batch.Columns.{
  Collector, append_column, append_columns, start_collector, finish_columns-eq,
}
use gorm.Batch.Rows.{
  Elem, Txn, elem_address, call_unless_error, Env, Row, drops_key, foreign_column, write_foreign,
  write_field, write_fields, make_row, stamp_row, prepare_batch_create_row,
}
use gorm.Prelude.{
  ℕ, String, ◌≡◌, refl, ap, Bool, true, ◌&&◌, not, Option, List, [], ◌∷◌, map, arith, if◌then◌else◌,
  Option-cases, inl, inr, Bool-cases,
}

-- A field goes into the INSERT if it is a column, not blank with a default of the database, not a
-- blank primary key, and not a primary key that a save on other columns leaves to the database.
abbrev pub is_written : Scope → Option (List String) → Field → Bool
is_written scope save f =
    f.is_normal
    && not f.is_ignored
    && not (f.is_blank && f.has_default_value)
    && not (drops_key scope save f)
    && not (f.is_primary_key && f.is_blank)

unfoldable pub written : Scope → Option (List String) → List Field → List (String × Value)
written scope save [] = []
written scope save (f ∷ fields) =
    let rest = written scope save fields in
    if is_written scope save f then (quote scope f.db_name, f.value) ∷ rest else rest

changeable : (f : Field) → changeable_field [] [] f ≡ true
unfolding changeable_field
changeable f = refl

foreign_column-none :
    (scope : Scope) (expected : List String) (key : String) (st : Collector)
    → foreign_column scope expected key st ≡ st
unfolding foreign_column
foreign_column-none scope expected key st = elim (Option-cases (field_named scope key)) [
  | inl missing ↦ rw (foreign_column, missing) refl
  | inr (f, found) ↦ rw (foreign_column, found, changeable f) refl
]

write_foreign-none :
    (scope : Scope) (expected keys : List String) (st : Collector)
    → write_foreign scope expected keys st ≡ st
unfolding write_foreign
write_foreign-none scope expected [] st = refl
write_foreign-none scope expected (key ∷ keys) st =
    rw (foreign_column-none scope expected key st) (write_foreign-none scope expected keys st)

write_field-eq :
    (scope : Scope) (save : Option (List String)) (expected : List String) (f : Field)
    (st : Collector)
    → write_field scope save expected f st ≡ (
        if is_written scope save f
        then append_column expected (quote scope f.db_name, f.value) st
        else st)
unfolding write_field
write_field-eq scope save expected f st = elim (Option-cases f.relationship) [
  | inl alone ↦ ground (arith, alone, changeable f)
  | inr (r, linked) ↦
      ground (arith, linked, changeable f, write_foreign-none scope expected r.foreign_db_names st)
]

write_fields-eq :
    (scope : Scope) (save : Option (List String)) (expected : List String) (fields : List Field)
    (st : Collector)
    → write_fields scope save expected fields st
      ≡ append_columns expected (written scope save fields) st
unfolding write_fields written append_columns
write_fields-eq scope save expected [] st = refl
write_fields-eq scope save expected (f ∷ fields) st = elim (Bool-cases (is_written scope save f)) [
  | inl is ↦
      rw (write_field-eq scope save expected f st, is)
        (write_fields-eq scope save expected fields
          (append_column expected (quote scope f.db_name, f.value) st))
  | inr not_so ↦
      rw (write_field-eq scope save expected f st, not_so)
        (write_fields-eq scope save expected fields st)
]

-- Whatever row came before it, a row has the columns and values of the fields that are written, in
-- the order of the fields: the columns that are not blank with a database default, not a blank
-- primary key and not a primary key left to the database by a save; a foreign key of a belongs_to
-- adds none.
pub make_row-written :
    (scope : Scope) (save : Option (List String)) (expected : List String) (address : ℕ)
    (fields : List Field)
    → ((make_row scope save expected address fields).columns
        ≡ map (λ e. e.0) (written scope save fields))
      × ((make_row scope save expected address fields).values
          ≡ map (λ e. e.1) (written scope save fields))
unfolding make_row
make_row-written scope save expected address fields =
    rw (write_fields-eq scope save expected fields (start_collector expected))
      (finish_columns-eq expected (written scope save fields))

make_row-eq :
    (scope : Scope) (save : Option (List String)) (expected : List String) (address : ℕ)
    (fields : List Field)
    → make_row scope save expected address fields ≡ make_row scope save [] address fields
make_row-eq scope save expected address fields =
    let (columns, values) = make_row-written scope save expected address fields in
    let (columns', values') = make_row-written scope save [] address fields in
    unfold make_row in cc (columns, values, columns', values')

stamp_row-eq :
    (env : Env) (save : Option (List String)) (address : ℕ) (make make' : Scope → List Field → Row)
    → ((scope : Scope) (fields : List Field) → make scope fields ≡ make' scope fields)
    → (t : Txn) → stamp_row env save address make t ≡ stamp_row env save address make' t
stamp_row-eq env save address make make' same t =
    let both : make ≡ make' = λ i. λ scope fields. same scope fields i in
    ap (λ m. stamp_row env save address m t) both

-- The columns that the row before had do not change what prepareBatchCreateRow does: the row, the
-- error and the state are those of a row that comes first.
pub prepare_batch_create_row-eq :
    (env : Env) (save : Option (List String)) (expected : List String) (elem : Elem) (t : Txn)
    → prepare_batch_create_row env save expected elem t
      ≡ prepare_batch_create_row env save [] elem t
unfolding prepare_batch_create_row
prepare_batch_create_row-eq env save expected elem t =
    elim (Result-cases (elem_address t.fresh elem)) [
      | inr (e, failed) ↦ rw (prepare_batch_create_row, failed) refl
      | inl (address, found) ↦
          let t2 =
            call_unless_error env "BeforeCreate" address
              (call_unless_error env "BeforeSave" address t) in
          ground (
            arith,
            found,
            stamp_row-eq env save address
                (λ scope fields. make_row scope save expected address fields)
                (λ scope fields. make_row scope save [] address fields)
                (λ scope fields. make_row-eq scope save expected address fields) t2,
          )
    ]
