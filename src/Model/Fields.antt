-- ===== src/Model/Fields.antt =====
-- `Field` of field.go and `StructField` of model_struct.go, as far as the write path reads them, and
-- the look-ups of scope.go among them.
-- Reflection is outside: `Reflect` stands for the conversion of a value to a field's type, which may
-- run a `Scanner`, and for `isBlank`.
use gorm.Errors.{Error, plain, err_unaddressable}
use gorm.Prelude.{
  ℕ, suc, String, Bool, false, ◌||◌, Option, none, some, List, [], ◌∷◌, ◌==◌, get_elem?, not,
  if◌then◌else◌,
}
use gorm.Prelude.Int.{ℤ}

-- An `interface{}` that is bound to a statement. `expr` is a `*SqlExpr`; `other` is any value
-- that the code passes on unread.
mutual
  pub data Value : Type 0 where
    nothing : Value
    number : ℤ → Value
    text : String → Value
    time : ℕ → Value
    other : ℕ → Value
    expr : String → Values → Value

  pub data Values : Type 0 where
    no_values : Values
    more_values : Value → Values → Values

pub record Relationship : Type 0 where
  pub kind : String
  pub foreign_db_names : List String

pub record Field : Type 0 where
  pub name : String
  pub db_name : String
  pub is_primary_key : Bool
  pub is_normal : Bool
  pub is_ignored : Bool
  pub has_default_value : Bool
  pub is_blank : Bool
  pub is_valid : Bool
  pub can_addr : Bool
  pub is_foreign_key : Bool
  pub is_integer : Bool
  pub auto_increment : Option String
  pub relationship : Option Relationship
  pub value : Value

pub record Reflect : Type 0 where
  pub convert : Field → Value → Value × Error
  pub is_blank : Field → Value → Bool

-- Field.Set: the field as it leaves it, and the error, for the identity of an error that is made now.
unfoldable pub set : Reflect → ℕ → Value → Field → Field × Error
set r fresh v f =
    if not f.is_valid
    then (f, plain fresh "field value not valid")
    else if not f.can_addr
    then (f, err_unaddressable)
    else let (new, err) = r.convert f v in
      (record f { value = new; is_blank = r.is_blank f new }, err)

-- The loop of `Scope.FieldByName`, for the index of a field: an exact match ends it, and among the
-- fields whose column is the column name of `name` the last one is kept.
unfoldable pub find_index : String → String → ℕ → Option ℕ → List Field → Option ℕ
find_index name column index found [] = found
find_index name column index found (f ∷ fields) =
    let kept = if f.db_name == column then some index else found in
    let rest = find_index name column (suc index) kept fields in
    if f.name == name || f.db_name == name then some index else rest

-- Scope.FieldByName, for the naming strategy `to_column_name`.
unfoldable pub field_by_name : (String → String) → String → List Field → Option Field
unfolding find_index
field_by_name to_column_name name fields =
    elim (find_index name (to_column_name name) 0 none fields) [
      | none ↦ none
      | some index ↦ get_elem? fields index
    ]

-- Scope.PrimaryFields
unfoldable pub primary_fields : List Field → List Field
primary_fields [] = []
primary_fields (f ∷ fields) =
    let rest = primary_fields fields in if f.is_primary_key then f ∷ rest else rest

-- Whether a field is named in a list of attributes, by its name or its column.
abbrev pub is_named : List String → Field → Bool
is_named [] f = false
is_named (attr ∷ attrs) f = (f.name == attr || f.db_name == attr) || is_named attrs f

-- Scope.changeableField, for the selected and the omitted attributes.
unfoldable pub changeable_field : List String → List String → Field → Bool
changeable_field (a ∷ selects) omits f = is_named (a ∷ selects) f
changeable_field [] omits f = not (is_named omits f)
