-- ===== src/Query/Shape.antt =====
-- The shape of a query: what is left of a search, a scope and their variables when the values that
-- are bound are taken out: each becomes the text "0". Nil, expressions, texts of conditions and
-- lengths of slices stay. A condition that is a text of nothing but a number is bound as a value and
-- becomes "0" too; one that is an integer is written into the text and stays.
mod Binding
mod Conditions
mod Clauses
pub mod Text
use gorm.Model.{
  Scope, Value, nothing, number, text, time, other, expr, Values, no_values, more_values, Field,
  is_number,
}
use gorm.Query.Builder.{Builder, QueryScope}
use gorm.Query.Search.{
  Arg, scalar, valuer, list, bytes, valuer_list, tuples, Target, Query, integer, keys, sql, mapping,
  model, no_query, Condition, Selection, Order, by_text, by_expr, by_other, Search,
}
use gorm.Prelude.{String, Option, none, some, List, [], ◌∷◌, map, if◌then◌else◌}

abbrev pub hidden : Value
hidden = text "0"

abbrev mutual
  pub shape : Value → Value
  shape nothing = nothing
  shape (number n) = hidden
  shape (text s) = hidden
  shape (time t) = hidden
  shape (other o) = hidden
  shape (expr exp args) = expr exp (shape_values args)

  pub shape_values : Values → Values
  shape_values no_values = no_values
  shape_values (more_values v values) = more_values (shape v) (shape_values values)

abbrev pub shape_field : Field → Field
shape_field f = record f { value = shape f.value }

abbrev pub shape_pair : String × Value → String × Value
shape_pair p = (p.0, shape p.1)

abbrev pub shape_row : Value × List Value → Value × List Value
shape_row p = (shape p.0, map shape p.1)

abbrev pub shape_arg : Arg → Arg
shape_arg (scalar v) = scalar (shape v)
shape_arg (valuer v e) = valuer (shape v) e
shape_arg (list values) = list (map shape values)
shape_arg (bytes values v) = bytes (map shape values) (shape v)
shape_arg (valuer_list values v e) = valuer_list (map shape values) (shape v) e
shape_arg (tuples rows) = tuples (map shape_row rows)

abbrev pub shape_target : Target → Target
shape_target t = record t { fields = map shape_field t.fields }

abbrev pub shape_query : Query → Query
shape_query (integer n) = integer n
shape_query (keys arg) = keys (shape_arg arg)
shape_query (sql s) = sql (if is_number s then "0" else s)
shape_query (mapping pairs) = mapping (map shape_pair pairs)
shape_query (model target) = model (shape_target target)
shape_query no_query = no_query

abbrev pub shape_condition : Condition → Condition
shape_condition c = record { query = shape_query c.query; args = map shape_arg c.args }

abbrev pub shape_order : Order → Order
shape_order (by_text s) = by_text s
shape_order (by_expr exp args) = by_expr exp (shape_values args)
shape_order by_other = by_other

abbrev pub shape_selects : Option (Selection × List Arg) → Option (Selection × List Arg)
shape_selects none = none
shape_selects (some (selection, args)) = some (selection, map shape_arg args)

abbrev pub shape_search : Search → Search
shape_search s = record s {
  where_conditions = map shape_condition s.where_conditions;
  or_conditions = map shape_condition s.or_conditions;
  not_conditions = map shape_condition s.not_conditions;
  having_conditions = map shape_condition s.having_conditions;
  join_conditions = map shape_condition s.join_conditions;
  selects = shape_selects s.selects;
  orders = map shape_order s.orders;
}

abbrev pub shape_scope : Scope → Scope
shape_scope scope = record scope { fields = map shape_field scope.fields }

abbrev pub shape_of : QueryScope → QueryScope
shape_of qs = record qs { scope = shape_scope qs.scope; search = shape_search qs.search }

abbrev pub shape_builder : Builder → Builder
shape_builder b = record b { vars = map shape b.vars }
