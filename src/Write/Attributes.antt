-- ===== src/Write/Attributes.antt =====
-- The attributes of an update: `convertInterfaceToMap`, `updatedAttrsWithValues` and `initialize` of
-- scope.go, and `assignUpdatingAttributesCallback` of callback_update.go.
-- A map is a list of pairs in the order in which the loop gets them.
pub mod Names
pub mod Allowed
mod Witnesses
use gorm.Errors.{Error, err_unaddressable, same}
use gorm.Model.{Value, expr, Field, find_index}
use gorm.Write.{Run, Outside, fields_of, is_changeable, put, set_field}
use gorm.Prelude.{
  ℕ, String, Bool, true, false, ◌&&◌, ◌||◌, not, Option, none, some, List, [], ◌∷◌, get_elem?,
  if◌then◌else◌,
}

-- The value given to an update: a `map[string]interface{}`, another map by texts, a slice of such
-- values, or a value with the fields of its scope.
mutual
  pub data Given : Type 0 where
    mapping : List (String × Value) → Given
    other_mapping : List (String × Value) → Given
    each_of : Givens → Given
    object : List Field → Given

  pub data Givens : Type 0 where
    no_givens : Givens
    more_givens : Given → Givens → Givens

-- The loop over the keys of a map, for the naming strategy of `ToColumnName`.
unfoldable pub column_pairs : (String → String) → List (String × Value) → List (String × Value)
column_pairs to_column_name [] = []
column_pairs to_column_name ((key, v) ∷ pairs) =
    put (to_column_name key) v (column_pairs to_column_name pairs)

-- The loop over the fields of a value.
unfoldable pub field_pairs : Bool → List Field → List (String × Value) → List (String × Value)
field_pairs with_ignored [] pairs = pairs
field_pairs with_ignored (f ∷ fields) pairs = field_pairs with_ignored fields (
    if not f.is_blank && (with_ignored || not f.is_ignored)
    then put f.db_name f.value pairs
    else pairs)

-- attrs[key] = value, for each pair.
unfoldable pub put_all : List (String × Value) → List (String × Value) → List (String × Value)
put_all [] attrs = attrs
put_all ((key, v) ∷ pairs) attrs = put_all pairs (put key v attrs)

-- convertInterfaceToMap
unfoldable mutual
  unfolding column_pairs field_pairs put_all

  pub convert_interface_to_map : (String → String) → Bool → Given → List (String × Value)
  convert_interface_to_map to_column_name with_ignored (mapping pairs) = pairs
  convert_interface_to_map to_column_name with_ignored (other_mapping pairs) =
      column_pairs to_column_name pairs
  convert_interface_to_map to_column_name with_ignored (each_of givens) =
      convert_each to_column_name with_ignored givens []
  convert_interface_to_map to_column_name with_ignored (object fields) =
      field_pairs with_ignored fields []

  pub convert_each :
      (String → String) → Bool → Givens → List (String × Value) → List (String × Value)
  convert_each to_column_name with_ignored no_givens attrs = attrs
  convert_each to_column_name with_ignored (more_givens given givens) attrs =
      convert_each to_column_name with_ignored givens
        (put_all (convert_interface_to_map to_column_name with_ignored given) attrs)

-- The run, and the two results of `updatedAttrsWithValues`.
pub record Updating : Type 0 where
  pub run : Run
  pub results : List (String × Value)
  pub has_update : Bool

abbrev pub is_expr : Value → Bool
is_expr (expr _ _) = true
is_expr _ = false

-- field.Field.Interface(), of a field that was set.
abbrev pub value_at : List Field → ℕ → Value → Value
value_at fields index v = elim (get_elem? fields index) [ none ↦ v | some f ↦ f.value ]

-- What follows `field.Set`: only the error for a value that has no address is looked at.
abbrev pub after_set : Field → ℕ → Value → Updating → Run × Error → Updating
after_set f index v st (run, e) =
    if f.is_normal && not f.is_ignored
    then record {
      run = run;
      results =
          put f.db_name (if same e err_unaddressable then v else value_at (fields_of run) index v)
            st.results;
      has_update = true;
    }
    else record st { run = run }

-- A key that names a field.
unfoldable pub write_known : Outside → ℕ → Field → Value → Updating → Updating
unfolding is_changeable put set_field same
write_known out index f v st =
    if not (is_changeable out st.run.query f)
    then st
    else if is_expr v
    then record st { results = put f.db_name v st.results; has_update = true }
    else after_set f index v st (set_field out index v st.run)

-- The body of the loop.
unfoldable pub write_attr : Outside → String → Value → Updating → Updating
unfolding write_known find_index put
write_attr out key v st =
    elim (find_index key (st.run.query.scope.to_column_name key) 0 none (fields_of st.run)) [
      | none ↦ record st { results = put key v st.results }
      | some index ↦ elim (get_elem? (fields_of st.run) index) [
        | none ↦ st
        | some f ↦ write_known out index f v st
      ]
    ]

unfoldable pub write_attrs : Outside → List (String × Value) → Updating → Updating
unfolding write_attr
write_attrs out [] st = st
write_attrs out ((key, v) ∷ pairs) st = write_attrs out pairs (write_attr out key v st)

-- updatedAttrsWithValues, where `is_struct` says whether the scope's value is one.
unfoldable pub updated_attrs_with_values : Outside → Bool → Given → Run → Updating
unfolding convert_interface_to_map write_attrs
updated_attrs_with_values out is_struct given run =
    let to_column_name = run.query.scope.to_column_name in
    if is_struct
    then write_attrs out (convert_interface_to_map to_column_name true given)
        (record { run = run; results = []; has_update = false })
    else record {
      run = run;
      results = convert_interface_to_map to_column_name false given;
      has_update = true;
    }

-- The run, and whether the callbacks that are left are skipped.
abbrev pub attrs_or_skip : Updating → Run × Bool
attrs_or_skip st =
    if st.has_update
    then (record st.run { update_attrs = some st.results }, false)
    else (st.run, true)

-- assignUpdatingAttributesCallback, for the setting `gorm:update_interface`.
unfoldable pub assign_updating_attributes_callback :
    Outside → Bool → Option Given → Run → Run × Bool
unfolding updated_attrs_with_values
assign_updating_attributes_callback out is_struct none run = (run, false)
assign_updating_attributes_callback out is_struct (some given) run =
    attrs_or_skip (updated_attrs_with_values out is_struct given run)

unfoldable pub initialize_each : Outside → Bool → List Given → Run → Run
unfolding updated_attrs_with_values
initialize_each out is_struct [] run = run
initialize_each out is_struct (given ∷ givens) run =
    initialize_each out is_struct givens (updated_attrs_with_values out is_struct given run).run

-- Scope.initialize, for the queries of the conditions of `Where`, and the values of `Attrs` and of
-- `Assign`.
unfoldable pub initialize : Outside → Bool → List Given → Givens → Givens → Run → Run
unfolding initialize_each updated_attrs_with_values
initialize out is_struct queries init_attrs assign_attrs run =
    let run1 = initialize_each out is_struct queries run in
    let run2 = (updated_attrs_with_values out is_struct (each_of init_attrs) run1).run in
    (updated_attrs_with_values out is_struct (each_of assign_attrs) run2).run
