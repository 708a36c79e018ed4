-- ===== src/Query/Shape/Conditions.antt =====
-- One condition is built alike from the shape of its values.
use gorm.Errors.{Error, null, plain, many}
use gorm.Model.{
  Scope, Value, nothing, number, text, time, other, expr, no_values, Field, quote, is_number,
}
use gorm.Query.Builder.{QueryScope, bind, bind_list, report, quoted_table_name, primary_key}
use gorm.Query.Conditions.{
  build_condition, text_sql, comparison, pair_sql, pairs_sql, fields_sql, bind_rows,
  replacements_of, replacements, report_if, fill_marks, struct_sql, query_sql, is_empty_arg,
  is_condition, equal_sql, list_marks,
}
use gorm.Query.Search.{
  Arg, scalar, valuer, list, bytes, valuer_list, tuples, Query, integer, keys, sql, mapping, model,
  no_query, Condition,
}
use gorm.Query.Shape.{
  shape, shape_field, shape_scope, shape_of, shape_pair, shape_row, shape_arg, shape_query,
  shape_condition,
}
use gorm.Query.Shape.Binding.{
  Commutes, bind-Commutes, bind_list-Commutes, report_new-shape, primary_key-shape,
}
use gorm.Prelude.{
  String, ◌≡◌, refl, Bool, true, ◌&&◌, not, List, [], ◌∷◌, map, concat, arith, Bool-cases, inl, inr,
}

pub quoted_table_name-shape :
    (qs : QueryScope) → quoted_table_name (shape_of qs) ≡ quoted_table_name qs
unfolding quoted_table_name quote
quoted_table_name-shape qs = refl

pub quote-shape : (scope : Scope) (s : String) → quote (shape_scope scope) s ≡ quote scope s
unfolding quote
quote-shape scope s = refl

abbrev pair_text : QueryScope → Bool → String → String → String
pair_text qs include key mark =
    comparison (quoted_table_name qs) (quote qs.scope key) (equal_sql include) mark

pair_text-shape :
    (qs : QueryScope) (include : Bool) (key mark : String)
    → pair_text (shape_of qs) include key mark ≡ pair_text qs include key mark
unfolding quoted_table_name quote
pair_text-shape qs include key mark = refl

pair_sql-Commutes :
    (qs : QueryScope) (include : Bool) (key : String) (v : Value)
    → Commutes (pair_sql qs include key v) (pair_sql (shape_of qs) include key (shape v))
unfolding pair_sql
pair_sql-Commutes qs include key nothing b =
    rw (quoted_table_name-shape qs, quote-shape qs.scope key)
pair_sql-Commutes qs include key (number n) b =
    rw (quoted_table_name-shape qs, quote-shape qs.scope key, bind-Commutes qs (number n) b)
pair_sql-Commutes qs include key (text s) b =
    rw (quoted_table_name-shape qs, quote-shape qs.scope key, bind-Commutes qs (text s) b)
pair_sql-Commutes qs include key (time t) b =
    rw (quoted_table_name-shape qs, quote-shape qs.scope key, bind-Commutes qs (time t) b)
pair_sql-Commutes qs include key (other o) b =
    rw (quoted_table_name-shape qs, quote-shape qs.scope key, bind-Commutes qs (other o) b)
pair_sql-Commutes qs include key (expr exp args) b =
    rw (quoted_table_name-shape qs, quote-shape qs.scope key, bind-Commutes qs (expr exp args) b)

pairs_sql-Commutes :
    (qs : QueryScope) (include : Bool) (pairs : List (String × Value))
    → Commutes (pairs_sql qs include pairs) (pairs_sql (shape_of qs) include (map shape_pair pairs))
unfolding pairs_sql
pairs_sql-Commutes qs include [] b = refl
pairs_sql-Commutes qs include ((key, v) ∷ pairs) b = rw (
  pair_sql-Commutes qs include key v b,
  pairs_sql-Commutes qs include pairs (pair_sql qs include key v b).1,
)

fields_sql-Commutes :
    (qs : QueryScope) (include : Bool) (table : String) (fields : List Field)
    → Commutes
        (fields_sql qs include table fields)
        (fields_sql (shape_of qs) include table (map shape_field fields))
unfolding fields_sql
fields_sql-Commutes qs include table [] b = refl
fields_sql-Commutes qs include table (f ∷ fields) b = elim (Bool-cases (is_condition f)) [
  | inl is ↦
      rw
        (
          fields_sql,
          is,
          bind-Commutes qs f.value b,
          fields_sql-Commutes qs include table fields (bind qs f.value b).1,
          quote-shape qs.scope f.db_name,
        )
        refl
  | inr not_so ↦ rw (fields_sql, not_so) (fields_sql-Commutes qs include table fields b)
]

bind_rows-Commutes :
    (qs : QueryScope) (rows : List (Value × List Value))
    → Commutes (bind_rows qs rows) (bind_rows (shape_of qs) (map shape_row rows))
unfolding bind_rows
bind_rows-Commutes qs [] b = refl
bind_rows-Commutes qs ((v, row) ∷ rows) b =
    rw (bind_list-Commutes qs row b, bind_rows-Commutes qs rows (bind_list qs row b).1)

report_if-Commutes :
    (e : Error) (marks : List String) → Commutes (report_if e marks) (report_if e marks)
unfolding report
report_if-Commutes null marks b = refl
report_if-Commutes (plain a m) marks b = refl
report_if-Commutes (many es) marks b = refl

list_marks-Commutes :
    (qs : QueryScope) (values : List Value)
    → Commutes (list_marks qs values) (list_marks (shape_of qs) (map shape values))
unfolding list_marks
list_marks-Commutes qs values b = rw (bind_list-Commutes qs values b)

replacements_of-Commutes :
    (qs : QueryScope) (arg : Arg)
    → Commutes (replacements_of qs arg) (replacements_of (shape_of qs) (shape_arg arg))
unfolding replacements_of
replacements_of-Commutes qs (scalar v) b = rw (bind-Commutes qs v b)
replacements_of-Commutes qs (valuer v e) b =
    rw (bind-Commutes qs v b) (report_if-Commutes e ((bind qs v b).0 ∷ []) (bind qs v b).1)
replacements_of-Commutes qs (valuer_list values v e) b =
    rw (bind-Commutes qs v b) (report_if-Commutes e ((bind qs v b).0 ∷ []) (bind qs v b).1)
replacements_of-Commutes qs (bytes values v) b = rw (bind-Commutes qs v b)
replacements_of-Commutes qs (tuples rows) b = rw (bind_rows-Commutes qs rows b)
replacements_of-Commutes qs (list []) b = rw (bind-Commutes qs (expr "NULL" no_values) b)
replacements_of-Commutes qs (list (v ∷ values)) b = list_marks-Commutes qs (v ∷ values) b

replacements-Commutes :
    (qs : QueryScope) (args : List Arg)
    → Commutes (replacements qs args) (replacements (shape_of qs) (map shape_arg args))
unfolding replacements
replacements-Commutes qs [] b = refl
replacements-Commutes qs (arg ∷ args) b =
    rw (
      replacements_of-Commutes qs arg b,
      replacements-Commutes qs args (replacements_of qs arg b).1,
    )

fill_marks-Commutes :
    (qs : QueryScope) (str : String) (args : List Arg)
    → Commutes (fill_marks qs str args) (fill_marks (shape_of qs) str (map shape_arg args))
unfolding fill_marks
fill_marks-Commutes qs str args b = rw (replacements-Commutes qs args b)

struct_sql-Commutes :
    (qs : QueryScope) (include : Bool) (table shown : String) (fields : List Field)
    → Commutes
        (struct_sql qs include table shown fields)
        (struct_sql (shape_of qs) include table shown (map shape_field fields))
unfolding struct_sql
struct_sql-Commutes qs include table shown [] b =
    rw (report_new-shape (concat ("invalid query condition: " ∷ shown ∷ [])) b)
struct_sql-Commutes qs include table shown (f ∷ fields) b =
    rw (fields_sql-Commutes qs include table (f ∷ fields) b)

is_empty_arg-shape : (arg : Arg) → is_empty_arg (shape_arg arg) ≡ is_empty_arg arg
is_empty_arg-shape (scalar v) = refl
is_empty_arg-shape (valuer v e) = refl
is_empty_arg-shape (list []) = refl
is_empty_arg-shape (list (v ∷ values)) = refl
is_empty_arg-shape (bytes [] w) = refl
is_empty_arg-shape (bytes (v ∷ values) w) = refl
is_empty_arg-shape (valuer_list values v e) = refl
is_empty_arg-shape (tuples rows) = refl

text_sql-shape :
    (qs : QueryScope) (include : Bool) (value : String)
    → text_sql (shape_of qs) include value ≡ text_sql qs include value
unfolding text_sql quoted_table_name quote
text_sql-shape qs include value = refl

zero_is_number : is_number "0" ≡ true
unfolding is_number
zero_is_number = refl

query_sql-Commutes :
    (qs : QueryScope) (include : Bool) (q : Query) (args : List Arg)
    → Commutes
        (query_sql qs include q args)
        (query_sql (shape_of qs) include (shape_query q) (map shape_arg args))
unfolding query_sql
query_sql-Commutes qs include (integer n) args b = rw (
  quoted_table_name-shape qs,
  primary_key-shape qs.scope,
  quote-shape qs.scope (primary_key qs.scope),
)
query_sql-Commutes qs include (keys arg) args b =
    elim (Bool-cases (not include && is_empty_arg arg)) [
      | inl skipped ↦ ground (arith, skipped, is_empty_arg-shape arg)
      | inr used ↦
          rw
            (
              query_sql,
              is_empty_arg-shape arg,
              used,
              quoted_table_name-shape qs,
              primary_key-shape qs.scope,
              quote-shape qs.scope (primary_key qs.scope),
            )
            (fill_marks-Commutes qs _ (arg ∷ []) b)
    ]
query_sql-Commutes qs include (sql value) args b = elim (Bool-cases (is_number value)) [
  | inl digits_only ↦ rw (
    digits_only,
    zero_is_number,
    quoted_table_name-shape qs,
    primary_key-shape qs.scope,
    quote-shape qs.scope (primary_key qs.scope),
    bind-Commutes qs (text value) b,
  )
  | inr not_number ↦
      rw (not_number, not_number, text_sql-shape qs include value)
        (fill_marks-Commutes qs (text_sql qs include value) args b)
]
query_sql-Commutes qs include (mapping pairs) args b = rw (pairs_sql-Commutes qs include pairs b)
query_sql-Commutes qs include (model target) args b =
    struct_sql-Commutes qs include target.quoted_table target.shown target.fields b
query_sql-Commutes qs include no_query args b =
    rw (report_new-shape "invalid query condition: <nil>" b)

pub build_condition-Commutes :
    (qs : QueryScope) (include : Bool) (c : Condition)
    → Commutes
        (build_condition qs include c)
        (build_condition (shape_of qs) include (shape_condition c))
build_condition-Commutes qs include c b = query_sql-Commutes qs include c.query c.args b
