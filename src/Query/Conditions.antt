-- ===== src/Query/Conditions.antt =====
-- `buildCondition` of scope.go: one condition of a search as a text, with its variables.
use Prim.Native.Char.{code}
use gorm.Errors.{Error, null}
use gorm.Model.{
  Value, nothing, text, expr, no_values, Field, quote, show_int, is_number, has_comparison,
}
use gorm.Query.Builder.{
  Build, QueryScope, ◌>>=◌, pure, bind, bind_list, report, report_new, quoted_table_name,
  primary_key,
}
use gorm.Query.Search.{
  Arg, scalar, valuer, list, bytes, valuer_list, tuples, Query, integer, keys, sql, mapping, model,
  no_query, Condition,
}
use gorm.Prelude.{
  String, Bool, true, false, ◌&&◌, not, none, some, List, [], ◌∷◌, ◌==◌, nat_eq, concat, join,
  if◌then◌else◌,
}

abbrev pub equal_sql : Bool → String
equal_sql include = if include then "=" else "<>"

abbrev pub in_sql : Bool → String
in_sql include = if include then "IN" else "NOT IN"

-- `str` of a text that is neither a number nor empty.
unfoldable pub text_sql : QueryScope → Bool → String → String
text_sql qs include value =
    if value == ""
    then ""
    else if include
    then concat ("(" ∷ value ∷ ")" ∷ [])
    else if has_comparison value
    then concat ("NOT (" ∷ value ∷ ")" ∷ [])
    else concat ("(" ∷ quoted_table_name qs ∷ "." ∷ quote qs.scope value ∷ " NOT IN (?))" ∷ [])

-- "(%v.%v %s %v)"
unfoldable pub comparison : String → String → String → String → String
comparison table column operator value =
    concat ("(" ∷ table ∷ "." ∷ column ∷ " " ∷ operator ∷ " " ∷ value ∷ ")" ∷ [])

abbrev pub null_test : Bool → String
null_test include = if include then " IS NULL)" else " IS NOT NULL)"

-- The body of the loop over a map.
unfoldable pub pair_sql : QueryScope → Bool → String → Value → Build String
unfolding comparison
pair_sql qs include key nothing =
    pure (concat ("(" ∷ quoted_table_name qs ∷ "." ∷ quote qs.scope key ∷ null_test include ∷ []))
pair_sql qs include key value = do
  mark ← bind qs value
  pure (comparison (quoted_table_name qs) (quote qs.scope key) (equal_sql include) mark)

unfoldable pub pairs_sql : QueryScope → Bool → List (String × Value) → Build (List String)
unfolding pair_sql
pairs_sql qs include [] = pure []
pairs_sql qs include ((key, value) ∷ pairs) = do
  part ← pair_sql qs include key value
  parts ← pairs_sql qs include pairs
  pure (part ∷ parts)

abbrev pub is_condition : Field → Bool
is_condition f =
    not f.is_ignored && not f.is_blank && (elim f.relationship [ none ↦ true | some _ ↦ false ])

-- The loop over the fields of a struct.
unfoldable pub fields_sql : QueryScope → Bool → String → List Field → Build (List String)
unfolding comparison
fields_sql qs include table [] = pure []
fields_sql qs include table (f ∷ fields) = elim (is_condition f) [
  | false ↦ fields_sql qs include table fields
  | true ↦ do
    mark ← bind qs f.value
    parts ← fields_sql qs include table fields
    pure (comparison table (quote qs.scope f.db_name) (equal_sql include) mark ∷ parts)
]

-- One row of `[][]interface{}`.
abbrev pub row_marks : List String → List String → List String
row_marks [] rest = rest
row_marks (mark ∷ marks) rest = concat ("(" ∷ join "," (mark ∷ marks) ∷ ")" ∷ []) ∷ rest

unfoldable pub bind_rows : QueryScope → List (Value × List Value) → Build (List String)
unfolding bind_list
bind_rows qs [] = pure []
bind_rows qs ((_, row) ∷ rows) = do
  marks ← bind_list qs row
  rest ← bind_rows qs rows
  pure (row_marks marks rest)

abbrev pub joined : List String → List String
joined [] = []
joined (mark ∷ marks) = join "," (mark ∷ marks) ∷ []

-- if err != nil { scope.Err(err) }
abbrev pub report_if : Error → List String → Build (List String)
report_if null marks b = (marks, b)
report_if e marks b = (marks, report e b)

-- The marks of a slice of values, as one text.
unfoldable pub list_marks : QueryScope → List Value → Build (List String)
list_marks qs values = do marks ← bind_list qs values; pure (join "," marks ∷ [])

-- The body of the loop over the arguments: what it appends to `replacements`.
unfoldable pub replacements_of : QueryScope → Arg → Build (List String)
unfolding bind_rows list_marks
replacements_of qs (scalar v) = do mark ← bind qs v; pure (mark ∷ [])
replacements_of qs (valuer v e) = do mark ← bind qs v; report_if e (mark ∷ [])
replacements_of qs (valuer_list _ v e) = do mark ← bind qs v; report_if e (mark ∷ [])
replacements_of qs (bytes _ v) = do mark ← bind qs v; pure (mark ∷ [])
replacements_of qs (tuples rows) = do marks ← bind_rows qs rows; pure (joined marks)
replacements_of qs (list []) = do mark ← bind qs (expr "NULL" no_values); pure (mark ∷ [])
replacements_of qs (list (v ∷ values)) = list_marks qs (v ∷ values)

-- append(replacements, …), with the rest behind.
abbrev pub append_texts : List String → List String → List String
append_texts [] rest = rest
append_texts (t ∷ texts) rest = t ∷ append_texts texts rest

unfoldable pub replacements : QueryScope → List Arg → Build (List String)
unfolding replacements_of
replacements qs [] = pure []
replacements qs (arg ∷ args) = do
  first ← replacements_of qs arg
  rest ← replacements qs args
  pure (append_texts first rest)

-- The loop over the runes: question marks are replaced as long as there are replacements.
unfoldable pub substitute : String → List String → String
substitute str [] = str
substitute String.[] (r ∷ rs) = ""
substitute (String.◌∷◌ c s) (r ∷ rs) = elim (nat_eq (code c) b'?') [
  | true ↦ concat (r ∷ substitute s rs ∷ [])
  | false ↦ String.◌∷◌ c (substitute s (r ∷ rs))
]

-- The part of `buildCondition` behind the switch.
unfoldable pub fill_marks : QueryScope → String → List Arg → Build String
unfolding replacements substitute
fill_marks qs str args = do texts ← replacements qs args; pure (substitute str texts)

-- reflect.ValueOf(value).Len() == 0
abbrev pub is_empty_arg : Arg → Bool
is_empty_arg (list []) = true
is_empty_arg (bytes [] _) = true
is_empty_arg _ = false

-- The case of a struct.
unfoldable pub struct_sql : QueryScope → Bool → String → String → List Field → Build String
unfolding report_new fields_sql
struct_sql qs include table shown [] b =
    ("", report_new (concat ("invalid query condition: " ∷ shown ∷ [])) b)
struct_sql qs include table shown (f ∷ fields) b =
    let (parts, b') = fields_sql qs include table (f ∷ fields) b in (join " AND " parts, b')

-- Scope.buildCondition, for `include` or its negation.
unfoldable pub query_sql : QueryScope → Bool → Query → List Arg → Build String
unfolding text_sql comparison pairs_sql struct_sql fill_marks report_new
query_sql qs include (integer n) args = pure (
    comparison (quoted_table_name qs) (quote qs.scope (primary_key qs.scope)) (equal_sql include)
      (show_int n))
query_sql qs include (keys arg) args =
    if not include && is_empty_arg arg
    then pure ""
    else fill_marks qs
        (concat (
          "("
          ∷ quoted_table_name qs
          ∷ "."
          ∷ quote qs.scope (primary_key qs.scope)
          ∷ " "
          ∷ in_sql include
          ∷ " (?))"
          ∷ []))
        (arg ∷ [])
query_sql qs include (sql value) args =
    if is_number value
    then (do
      mark ← bind qs (text value)
      pure (
          comparison (quoted_table_name qs) (quote qs.scope (primary_key qs.scope))
            (equal_sql include) mark))
    else fill_marks qs (text_sql qs include value) args
query_sql qs include (mapping pairs) args = do
  parts ← pairs_sql qs include pairs
  pure (join " AND " parts)
query_sql qs include (model target) args =
    struct_sql qs include target.quoted_table target.shown target.fields
query_sql qs include no_query args = λ b. ("", report_new "invalid query condition: <nil>" b)

abbrev pub build_condition : QueryScope → Bool → Condition → Build String
build_condition qs include c = query_sql qs include c.query c.args
