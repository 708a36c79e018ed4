-- ===== src/OnConflict/Rows.antt =====
-- What the statement of `createBatchWithOption` of on_conflict.go binds for each element.
use gorm.Model.{Value, Field, quote, ok, add_to_vars}
use gorm.Batch.Rows.{Txn, has_error, write_object, call_unless_error}
use gorm.Batch.Statement.{bind_values, replace_dollars}
use gorm.OnConflict.Batches.{
  Item, nil_item, pointer_item, struct_item, Upsert, scope_of, bound_fields, columns_of, stamped,
  values_of, prepare_item, bind_object, bind_stamped, prepared, add_row, and_prepare, prepare_items,
  and_exec, value_address, exec_upsert, write_items, create_batch_with_option, upsert_text,
}
use gorm.Prelude.{
  ℕ, suc, String, ◌≡◌, refl, ap, sym, ◌∙◌, true, false, some, List, [], ◌∷◌, map, length, nat_eq,
  arith, Bool-cases, inl, inr, if◌then◌else◌,
}

-- The objects of the elements that are not nil.
abbrev pub objects : List Item → List ℕ
objects [] = []
objects (nil_item ∷ items) = objects items
objects (pointer_item address ∷ items) = address ∷ objects items
objects (struct_item _ address ∷ items) = address ∷ objects items

abbrev pub AllAddressable : List Item → Type 0
AllAddressable [] = Unit
AllAddressable (struct_item can_addr _ ∷ items) = (can_addr ≡ true) × AllAddressable items
AllAddressable (_ ∷ items) = AllAddressable items

-- A model without methods and without blank time stamps, and a `DB` without an error.
pub record IsPlain (u : Upsert) (t : Txn) : Type 0 where
  pub no_methods : (name : String) (address : ℕ) → u.env.call_method name address t ≡ t
  pub no_stamps : (address : ℕ) → stamped u address t ≡ t.object address
  pub no_error : has_error t ≡ false

-- How many values an object's row binds.
abbrev pub bound_count : Upsert → Txn → ℕ → ℕ
bound_count u t address = length (bound_fields u (scope_of u address t) (t.object address))

-- The rows of some objects, as they are.
abbrev object_rows :
    Upsert → (ℕ → String) → Txn → List ℕ → List Value → List (List String) × List Value
object_rows u bind_var t [] vars = ([], vars)
object_rows u bind_var t (address ∷ addresses) vars =
    let (row, vars') = bind_values bind_var (values_of u (scope_of u address t)) vars in
    let (rows, vars'') = object_rows u bind_var t addresses vars' in (row ∷ rows, vars'')

length-map_value : (fields : List Field) → length (map (λ f. f.value) fields) ≡ length fields
length-map_value [] = refl
length-map_value (f ∷ fields) = ap suc (length-map_value fields)

length-bind_values :
    (bind_var : ℕ → String) (values vars : List Value)
    → length (bind_values bind_var values vars).0 ≡ length values
unfolding bind_values
length-bind_values bind_var [] vars = refl
length-bind_values bind_var (v ∷ values) vars =
    ap suc (length-bind_values bind_var values (add_to_vars false bind_var v vars).1)

object_rows-counts :
    (u : Upsert) (bind_var : ℕ → String) (t : Txn) (addresses : List ℕ) (vars : List Value)
    → map length (object_rows u bind_var t addresses vars).0 ≡ map (bound_count u t) addresses
object_rows-counts u bind_var t [] vars = refl
object_rows-counts u bind_var t (address ∷ addresses) vars =
    let values = values_of u (scope_of u address t) in
    let vars' = (bind_values bind_var values vars).1 in
    cc (
      length-bind_values bind_var values vars,
      length-map_value (bound_fields u (scope_of u address t) (t.object address)),
      object_rows-counts u bind_var t addresses vars',
    )

nat_eq_sound : (a b : ℕ) → nat_eq a b ≡ true → a ≡ b
nat_eq_sound a b h = ground arith

-- Writing back what is there.
write_object-same : (address : ℕ) (t : Txn) → write_object address (t.object address) t ≡ t
write_object-same address t =
    let same : (a : ℕ) → (if nat_eq a address then t.object address else t.object a) ≡ t.object a =
      λ a. elim (Bool-cases (nat_eq a address)) [
        | inl is ↦ rw is (ap t.object (sym (nat_eq_sound a address is)))
        | inr other ↦ rw other refl
      ] in
    λ i. record t { object = λ a. same a i }

module _ (u : Upsert) (bind_var : ℕ → String) (t : Txn) (plain_model : IsPlain u t) where
  call-same : (name : String) (address : ℕ) → call_unless_error u.env name address t ≡ t
  call-same name address = rw plain_model.no_error (plain_model.no_methods name address)

  bind_stamped-eq :
      (address : ℕ) (vars : List Value)
      → bind_stamped u bind_var address vars t t
        ≡ (t, ok (bind_values bind_var (values_of u (scope_of u address t)) vars))
  unfolding bind_stamped
  bind_stamped-eq address vars = rw plain_model.no_error (
      ap (bind_object u bind_var address vars t) (plain_model.no_stamps address)
      ∙ ap (λ t'. (t', ok (bind_values bind_var (values_of u (scope_of u address t)) vars)))
          (write_object-same address t))

  prepare_item-eq :
      (address : ℕ) (vars : List Value)
      → prepare_item u bind_var address vars t
        ≡ (t, ok (bind_values bind_var (values_of u (scope_of u address t)) vars))
  unfolding prepare_item
  prepare_item-eq address vars =
      ap (bind_stamped u bind_var address vars t) (
        ap (call_unless_error u.env "BeforeCreate" address) (call-same "BeforeSave" address)
        ∙ call-same "BeforeCreate" address)
      ∙ bind_stamped-eq address vars

  prepare_items-eq :
      (items : List Item) (vars : List Value)
      → AllAddressable items
      → prepare_items u bind_var items vars t ≡ (
          let (rows, vars') = object_rows u bind_var t (objects items) vars in
          prepared t rows vars')
  unfolding prepare_items
  prepare_items-eq [] vars h = refl
  prepare_items-eq (nil_item ∷ items) vars h = prepare_items-eq items vars h
  prepare_items-eq (pointer_item address ∷ items) vars h =
      ap (λ p. and_prepare p (prepare_items u bind_var items)) (prepare_item-eq address vars)
      ∙ ap (add_row (bind_values bind_var (values_of u (scope_of u address t)) vars).0) (
          prepare_items-eq items (bind_values bind_var (values_of u (scope_of u address t)) vars).1
            h)
  prepare_items-eq (struct_item true address ∷ items) vars h =
      ap (λ p. and_prepare p (prepare_items u bind_var items)) (prepare_item-eq address vars)
      ∙ ap (add_row (bind_values bind_var (values_of u (scope_of u address t)) vars).0) (
          prepare_items-eq items (bind_values bind_var (values_of u (scope_of u address t)) vars).1
            h.1)
  prepare_items-eq (struct_item false address ∷ items) vars h = absurd (cc h.0)

length-columns_of :
    (u : Upsert) (t : Txn) (address : ℕ)
    → length (columns_of u (scope_of u address t)) ≡ bound_count u t address
unfolding columns_of quote
length-columns_of u t address =
    length-map (bound_fields u (scope_of u address t) (t.object address))
  where
    length-map :
        (fields : List Field)
        → length (map (λ f. quote (u.env.scope address) f.db_name) fields) ≡ length fields
    length-map [] = refl
    length-map (f ∷ fields) = ap suc (length-map fields)

statement-eq :
    (u : Upsert) (item : Item) (items : List Item) (t : Txn) (first : ℕ) (column : String)
    (columns : List String)
    → IsPlain u t
    → AllAddressable (item ∷ items)
    → value_address u item ≡ some first
    → columns_of u (scope_of u first t) ≡ column ∷ columns
    → create_batch_with_option u (item ∷ items) t ≡ (
        let (rows, vars) =
          object_rows u (u.env.scope first).dialect.bind_var t (objects (item ∷ items)) [] in
        and_exec u
          (item ∷ items)
          (λ rows.
            upsert_text
              (quote (u.env.scope first) (u.env.table_name first))
              (column ∷ columns)
              rows
              u.insert_option)
          (prepared t rows vars))
statement-eq u item items t first column columns h all found some_columns =
    unfold create_batch_with_option in
    rw (create_batch_with_option, found, some_columns)
      (unfold write_items in
        ap
          (and_exec u (item ∷ items) (λ rows.
            upsert_text (quote (u.env.scope first) (u.env.table_name first)) (column ∷ columns) rows
              u.insert_option))
          (prepare_items-eq u (u.env.scope first).dialect.bind_var t h (item ∷ items) [] all))

-- For a model without methods and without blank time stamps, a handle without an error and
-- elements that can be addressed, where the first element has a column: createBatchWithOption
-- sends the statement with the columns of the first element, as many as its object binds values,
-- and with one row for each element that is not nil, in order, that has as many placeholders as
-- the object of that element binds values.
pub create_batch_with_option-counts :
    (u : Upsert) (item : Item) (items : List Item) (t : Txn) (first : ℕ) (column : String)
    (columns : List String)
    → IsPlain u t
    → AllAddressable (item ∷ items)
    → value_address u item ≡ some first
    → columns_of u (scope_of u first t) ≡ column ∷ columns
    → (rows : List (List String)) × (vars : List Value) × (create_batch_with_option u
          (item ∷ items)
          t
        ≡ exec_upsert u
            (item ∷ items)
            (record {
              sql = replace_dollars 0 (
                  upsert_text
                    (quote (u.env.scope first) (u.env.table_name first))
                    (column ∷ columns)
                    rows
                    u.insert_option);
              vars = vars;
            })
            t)
      × (length (column ∷ columns) ≡ bound_count u t first)
      × (map length rows ≡ map (bound_count u t) (objects (item ∷ items)))
create_batch_with_option-counts u item items t first column columns h all found some_columns =
    let bind_var = (u.env.scope first).dialect.bind_var in
    let (rows, vars) = object_rows u bind_var t (objects (item ∷ items)) [] in
    (
      rows,
      vars,
      statement-eq u item items t first column columns h all found some_columns,
      ap length (sym some_columns) ∙ length-columns_of u t first,
      object_rows-counts u bind_var t (objects (item ∷ items)) [],
    )
