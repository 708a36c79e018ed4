-- ===== src/Batch/Save.antt =====
-- The upsert of one batch: the methods of `batchSave` in batch_save.go, for the conflict columns that
-- `newBatchSave` has read (an empty list means the primary key).
use Prim.Native.Char.{code}
use gorm.Model.{
  fold_code, Scope, quote, field_named, make_error, Field, primary_fields, Result, ok, err, ◌>>=◌,
}
use gorm.Prelude.{
  String, Bool, true, false, ◌&&◌, ◌||◌, not, none, some, List, [], ◌∷◌, ◌++◌, map, ◌==◌, nat_eq,
  contains, concat, if◌then◌else◌,
}

-- batchSave.targets
unfoldable pub targets : Scope → List String → Field → Bool
targets scope [] field = false
targets scope (name ∷ conflict) field =
    field.name == name
    || field.db_name == name
    || field.db_name == scope.to_column_name name
    || targets scope conflict field

-- batchSave.keepsPrimaryKey
unfoldable pub keeps_primary_key : Scope → List String → Field → Bool
unfolding targets
keeps_primary_key scope [] field = true
keeps_primary_key scope (name ∷ conflict) field = targets scope (name ∷ conflict) field

unfoldable pub no_primary_key : Scope → String
no_primary_key scope = concat (
    "gorm: SaveInBatches on " ∷ scope.type_name
    ∷ " needs conflict columns, the model has no primary key" ∷ [])

unfoldable pub not_a_column : Scope → String → String
not_a_column scope name = concat (
    "gorm: SaveInBatches conflict column "
    ∷ scope.show_quoted name
    ∷ " is not a column of "
    ∷ scope.type_name
    ∷ [])

-- One step of the loop of `target`: the column of a conflict name.
unfoldable pub conflict_column : Scope → String → Result String
unfolding not_a_column
conflict_column scope name = elim (field_named scope name) [
  | none ↦ err (make_error scope (not_a_column scope name))
  | some field ↦
      if not field.is_normal || field.is_ignored
      then err (make_error scope (not_a_column scope name))
      else ok field.db_name
]

unfoldable pub conflict_columns : Scope → List String → Result (List String)
conflict_columns scope [] = ok []
conflict_columns scope (name ∷ conflict) = do
  column ← conflict_column scope name
  columns ← conflict_columns scope conflict
  ok (column ∷ columns)

-- The case of an empty conflict list.
unfoldable pub primary_columns : Scope → List String → Result (List String)
unfolding no_primary_key
primary_columns scope [] = err (make_error scope (no_primary_key scope))
primary_columns scope (column ∷ columns) = ok (column ∷ columns)

-- batchSave.target
unfoldable pub target : Scope → List String → Result (List String)
target scope [] = primary_columns scope (map (λ f. f.db_name) (primary_fields scope.fields))
target scope (name ∷ conflict) = conflict_columns scope (name ∷ conflict)

unfoldable pub created_at_column : Scope → List String
created_at_column scope = elim (field_named scope "CreatedAt") [
  | none ↦ []
  | some field ↦ quote scope field.db_name ∷ []
]

-- The keys of the map `fixed`.
unfoldable pub fixed_columns : Scope → List String → List String
unfolding created_at_column
fixed_columns scope names =
    map (quote scope) names
    ++ (map (λ f. quote scope f.db_name) (primary_fields scope.fields) ++ created_at_column scope)

-- The loop over `columns` that fills `updates`.
unfoldable pub updated_columns : List String → List String → List String
updated_columns fixed [] = []
updated_columns fixed (column ∷ columns) =
    let rest = updated_columns fixed columns in
    if contains fixed column then rest else column ∷ rest

-- batchSave.statementColumns: the quoted target and the columns to update.
unfoldable pub statement_columns :
    Scope → List String → List String → Result (List String × List String)
unfolding target fixed_columns updated_columns
statement_columns scope conflict columns = do
  names ← target scope conflict
  ok (map (quote scope) names, updated_columns (fixed_columns scope names) columns)

-- strings.EqualFold, where one side is in ASCII.
unfoldable pub equal_fold : String → String → Bool
unfolding fold_code
equal_fold String.[] String.[] = true
equal_fold (String.◌∷◌ a s) (String.◌∷◌ b t) =
    nat_eq (fold_code (code a)) (fold_code (code b)) && equal_fold s t
equal_fold _ _ = false

abbrev pub is_auto : Field → Bool
is_auto field = elim field.auto_increment [ none ↦ true | some s ↦ not (equal_fold s "false") ]

-- The part of `generatedPrimaryInsert` behind its calls of `target` and `PrimaryFields`.
unfoldable pub generated_key : Scope → List String → List Field → List String → Bool
unfolding equal_fold
generated_key scope (name ∷ []) (field ∷ []) columns =
    name == field.db_name
    && field.is_blank
    && is_auto field
    && field.is_integer
    && not (contains columns (quote scope field.db_name))
generated_key scope _ _ columns = false

-- batchSave.generatedPrimaryInsert
unfoldable pub generated_primary_insert : Scope → List String → List String → Bool
unfolding target generated_key
generated_primary_insert scope conflict columns = elim (target scope conflict) [
  | err _ ↦ false
  | ok names ↦ generated_key scope names (primary_fields scope.fields) columns
]
