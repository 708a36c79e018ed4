-- ===== src/Query/Builder.antt =====
-- What building a query reads and writes of a `Scope`: its variables and the error of its `DB`.
use gorm.Errors.{Error, plain}
use gorm.Errors.Field.{add_error}
use gorm.Model.{Scope, Value, Field, quote, field_named, primary_fields, add_to_vars, has_char}
use gorm.Query.Search.{Search}
use gorm.Prelude.{
  ℕ, suc, String, Bool, true, Option, none, some, List, [], ◌∷◌, ◌==◌, if◌then◌else◌,
}

-- `fresh` is the identity of the next error that is made.
pub record Builder : Type 0 where
  pub vars : List Value
  pub error : Error
  pub fresh : ℕ

-- A scope with its search. `table` is the name that `TableName` finds where the search has none, and
-- `query_option` the setting `gorm:query_option` as it is printed.
pub record QueryScope : Type 0 where
  pub scope : Scope
  pub search : Search
  pub table : String
  pub skip_bindvar : Bool
  pub query_option : Option String

abbrev pub Build {ℓ} : Type ℓ → Type ℓ
Build A = Builder → A × Builder

infixl 5 ◌>>=◌
abbrev pub ◌>>=◌ {ℓ κ} : {A : Type ℓ} {B : Type κ} → Build A → (A → Build B) → Build B
◌>>=◌ m f b = let (a, b') = m b in f a b'

abbrev pub pure {ℓ} : {A : Type ℓ} → A → Build A
pure a b = (a, b)

-- Scope.AddToVars
unfoldable pub bind : QueryScope → Value → Build String
unfolding add_to_vars
bind qs v b =
    let (mark, vars) = add_to_vars qs.skip_bindvar qs.scope.dialect.bind_var v b.vars in
    (mark, record b { vars = vars })

unfoldable pub bind_list : QueryScope → List Value → Build (List String)
bind_list qs [] = pure []
bind_list qs (v ∷ values) = do mark ← bind qs v; marks ← bind_list qs values; pure (mark ∷ marks)

-- Scope.Err
unfoldable pub report : Error → Builder → Builder
report e b = record b { error = add_error b.error e }

-- Scope.Err of a new error
unfoldable pub report_new : String → Builder → Builder
unfolding report
report_new message b = record (report (plain b.fresh message) b) { fresh = suc b.fresh }

-- Scope.QuotedTableName
unfoldable pub quoted_table_name : QueryScope → String
unfolding has_char
quoted_table_name qs =
    if qs.search.table_name == ""
    then quote qs.scope qs.table
    else if has_char b' ' qs.search.table_name
    then qs.search.table_name
    else quote qs.scope qs.search.table_name

-- Scope.PrimaryField, of the primary fields.
unfoldable pub main_primary : Scope → List Field → Option Field
main_primary scope [] = none
main_primary scope (f ∷ []) = some f
main_primary scope (f ∷ g ∷ fields) = elim (field_named scope "id") [
  | none ↦ some f
  | some found ↦ some found
]

unfoldable pub primary_field : Scope → Option Field
primary_field scope = main_primary scope (primary_fields scope.fields)

-- Scope.PrimaryKey
unfoldable pub primary_key : Scope → String
primary_key scope = elim (primary_field scope) [ none ↦ "" | some f ↦ f.db_name ]

-- Scope.PrimaryKeyZero
unfoldable pub primary_key_zero : Scope → Bool
primary_key_zero scope = elim (primary_field scope) [ none ↦ true | some f ↦ f.is_blank ]
