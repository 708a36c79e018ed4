-- ===== src/Model/Scopes.antt =====
-- What one `Scope` of scope.go gives the batch write path: the fields of its value, its dialect and
-- the naming strategy.
use gorm.Errors.{Error, plain}
use gorm.Model.Dialects.{Dialect}
use gorm.Model.Fields.{Field, field_by_name}
use gorm.Model.Vars.{quote_name}
use gorm.Prelude.{ℕ, String, Option, List}

-- `type_name` is what the verb %T prints for the value, `show_quoted` what %q prints for a text, and
-- `fresh` the identity of an error that is made now.
pub record Scope : Type 0 where
  pub fields : List Field
  pub dialect : Dialect
  pub to_column_name : String → String
  pub type_name : String
  pub show_quoted : String → String
  pub fresh : ℕ

-- Scope.Quote
unfoldable pub quote : Scope → String → String
unfolding quote_name
quote scope str = quote_name scope.dialect.quote str

-- Scope.FieldByName
abbrev pub field_named : Scope → String → Option Field
field_named scope name = field_by_name scope.to_column_name name scope.fields

-- fmt.Errorf
abbrev pub make_error : Scope → String → Error
make_error scope message = plain scope.fresh message
