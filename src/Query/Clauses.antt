-- ===== src/Query/Clauses.antt =====
-- The clauses of a query: `whereSQL` and its neighbours, `CombinedConditionSql` and `prepareQuerySQL`
-- of scope.go.
use Prim.Native.Char.{code}
use gorm.Batch.Statement.{replace_dollars}
use gorm.Model.{
  Values, no_values, more_values, Field, quote, field_named, primary_fields, replace_mark, ok, err,
  is_column, trim_prefix, trim_suffix, add_extra_space_if_exist,
}
use gorm.Query.Builder.{
  Build, QueryScope, ◌>>=◌, pure, bind, bind_list, report, quoted_table_name, primary_key_zero,
}
use gorm.Query.Conditions.{build_condition, query_sql}
use gorm.Query.Search.{
  Arg, scalar, valuer, list, bytes, valuer_list, tuples, Condition, Selection, column, columns,
  printed, unknown, Order, by_text, by_expr, by_other,
}
use gorm.Prelude.{
  String, Bool, true, false, ◌||◌, Option, none, some, List, [], ◌∷◌, ◌++◌, map, ◌==◌, nat_eq,
  concat, join, if◌then◌else◌,
}

-- if sql := scope.buildCondition(clause, include); sql != "" { … append … }
unfoldable pub conditions : QueryScope → Bool → List Condition → Build (List String)
unfolding query_sql
conditions qs include [] = pure []
conditions qs include (c ∷ rest) = do
  part ← build_condition qs include c
  parts ← conditions qs include rest
  pure (if part == "" then parts else part ∷ parts)

-- The condition on `DeletedAt`.
unfoldable pub deleted_conditions : QueryScope → List String
deleted_conditions qs =
    if qs.search.unscoped then [] else (elim (field_named qs.scope "DeletedAt") [
      | none ↦ []
      | some f ↦
          concat (quoted_table_name qs ∷ "." ∷ quote qs.scope f.db_name ∷ " IS NULL" ∷ []) ∷ []
    ])

unfoldable pub key_conditions : QueryScope → List Field → Build (List String)
key_conditions qs [] = pure []
key_conditions qs (f ∷ fields) = do
  mark ← bind qs f.value
  parts ← key_conditions qs fields
  pure (concat (quoted_table_name qs ∷ "." ∷ quote qs.scope f.db_name ∷ " = " ∷ mark ∷ []) ∷ parts)

-- primaryConditions
unfoldable pub primary_conditions : QueryScope → Build (List String)
unfolding deleted_conditions key_conditions
primary_conditions qs = if primary_key_zero qs.scope then pure (deleted_conditions qs) else (do
  parts ← key_conditions qs (primary_fields qs.scope.fields)
  pure (deleted_conditions qs ++ parts))

-- combinedSQL
unfoldable pub combine : List String → List String → String
combine and_parts or_parts =
    let or_sql = join " OR " or_parts in
    let and_sql = join " AND " and_parts in
    if and_sql == ""
    then or_sql
    else if or_sql == ""
    then and_sql
    else concat (and_sql ∷ " OR " ∷ or_sql ∷ [])

-- The last `if` of `whereSQL`.
unfoldable pub where_text : List String → String → String
where_text [] combined = if combined == "" then "" else concat ("WHERE " ∷ combined ∷ [])
where_text (p ∷ primary) combined = concat (
    "WHERE "
    ∷ join " AND " (p ∷ primary)
    ∷ (if combined == "" then "" else concat (" AND (" ∷ combined ∷ ")" ∷ []))
    ∷ [])

-- Scope.whereSQL
unfoldable pub where_sql : QueryScope → Build String
unfolding conditions primary_conditions combine where_text
where_sql qs = do
  primary ← primary_conditions qs
  wheres ← conditions qs true qs.search.where_conditions
  ors ← conditions qs true qs.search.or_conditions
  nots ← conditions qs false qs.search.not_conditions
  pure (where_text primary (combine (wheres ++ nots) ors))

-- The loop over the arguments of `buildSelectQuery`; every slice is bound by its elements.
unfoldable pub select_replacement : QueryScope → Arg → Build String
unfolding bind bind_list
select_replacement qs (scalar v) = bind qs v
select_replacement qs (valuer v _) = bind qs v
select_replacement qs (list values) = do marks ← bind_list qs values; pure (join "," marks)
select_replacement qs (bytes values _) = do marks ← bind_list qs values; pure (join "," marks)
select_replacement qs (valuer_list values _ _) = do
  marks ← bind_list qs values
  pure (join "," marks)
select_replacement qs (tuples rows) = do
  marks ← bind_list qs (map (λ row. row.0) rows)
  pure (join "," marks)

unfoldable pub select_replacements : QueryScope → List Arg → Build (List String)
unfolding select_replacement
select_replacements qs [] = pure []
select_replacements qs (arg ∷ args) = do
  first ← select_replacement qs arg
  rest ← select_replacements qs args
  pure (first ∷ rest)

-- The loop over the runes of `buildSelectQuery`; `none` is the panic where a question mark has no
-- argument.
unfoldable pub substitute_all : String → List String → Option String
substitute_all String.[] texts = some ""
substitute_all (String.◌∷◌ c s) [] = elim (nat_eq (code c) b'?') [
  | true ↦ none
  | false ↦ elim (substitute_all s []) [ none ↦ none | some t ↦ some (String.◌∷◌ c t) ]
]
substitute_all (String.◌∷◌ c s) (r ∷ rs) = elim (nat_eq (code c) b'?') [
  | true ↦ elim (substitute_all s rs) [ none ↦ none | some t ↦ some (concat (r ∷ t ∷ [])) ]
  | false ↦ elim (substitute_all s (r ∷ rs)) [ none ↦ none | some t ↦ some (String.◌∷◌ c t) ]
]

abbrev pub selection_text : Selection → String
selection_text (column s) = s
selection_text (columns names) = join ", " names
selection_text (printed _) = ""
selection_text unknown = ""

abbrev pub is_nil {ℓ} : {A : Type ℓ} → List A → Bool
is_nil [] = true
is_nil (_ ∷ _) = false

-- Scope.selectSQL
unfoldable pub select_sql : QueryScope → Build (Option String)
unfolding select_replacements substitute_all
select_sql qs = elim qs.search.selects [
  | none ↦ pure (
      some (
        if is_nil qs.search.join_conditions
        then "*"
        else concat (quoted_table_name qs ∷ ".*" ∷ [])))
  | some (selection, args) ↦ do
    texts ← select_replacements qs args
    pure (substitute_all (selection_text selection) texts)
]

-- The arguments of an expression in `orders`.
unfoldable pub order_expr : QueryScope → String → Values → Build String
order_expr qs exp no_values = pure exp
order_expr qs exp (more_values arg args) = do
  mark ← bind qs arg
  order_expr qs (replace_mark mark exp) args

unfoldable pub order_parts : QueryScope → List Order → Build (List String)
unfolding order_expr
order_parts qs [] = pure []
order_parts qs (by_text s ∷ orders) = do
  parts ← order_parts qs orders
  pure ((if is_column s then quote qs.scope s else s) ∷ parts)
order_parts qs (by_expr exp args ∷ orders) = do
  part ← order_expr qs exp args
  parts ← order_parts qs orders
  pure (part ∷ parts)
order_parts qs (by_other ∷ orders) = order_parts qs orders

-- Scope.orderSQL
unfoldable pub order_sql : QueryScope → Build String
unfolding order_parts
order_sql qs = if is_nil qs.search.orders || qs.search.ignore_order_query then pure "" else (do
  parts ← order_parts qs qs.search.orders
  pure (concat (" ORDER BY " ∷ join "," parts ∷ [])))

-- Scope.limitAndOffsetSQL; the methods of a dialect give an empty text with an error.
unfoldable pub limit_and_offset_sql : QueryScope → Build String
unfolding report
limit_and_offset_sql qs b =
    elim (qs.scope.dialect.limit_and_offset_sql qs.search.limit qs.search.offset) [
      | ok s ↦ (s, b)
      | err e ↦ ("", report e b)
    ]

-- Scope.groupSQL
unfoldable pub group_sql : QueryScope → String
group_sql qs = if qs.search.group == "" then "" else concat (" GROUP BY " ∷ qs.search.group ∷ [])

-- Scope.havingSQL
unfoldable pub having_sql : QueryScope → Build String
unfolding conditions
having_sql qs = do
  parts ← conditions qs true qs.search.having_conditions
  let combined = join " AND " parts
  pure (if combined == "" then "" else concat (" HAVING " ∷ combined ∷ []))

abbrev pub stripped : List String → List String
stripped parts = map (λ s. trim_suffix ")" (trim_prefix "(" s)) parts

-- Scope.joinsSQL
unfoldable pub joins_sql : QueryScope → Build String
unfolding conditions
joins_sql qs = do
  parts ← conditions qs true qs.search.join_conditions
  pure (concat (join " " (stripped parts) ∷ " " ∷ []))

-- Scope.CombinedConditionSql
unfoldable pub combined_condition_sql : QueryScope → Build String
combined_condition_sql qs = do
  joins ← joins_sql qs
  wheres ← where_sql qs
  havings ← having_sql qs
  orders ← order_sql qs
  limits ← limit_and_offset_sql qs
  pure (
      concat (
        joins
        ∷ (if qs.search.raw then trim_suffix ")" (trim_prefix "WHERE (" wheres) else wheres)
        ∷ group_sql qs
        ∷ havings
        ∷ orders
        ∷ limits
        ∷ []))

abbrev option_space : Option String → String
option_space none = ""
option_space (some s) = add_extra_space_if_exist s

-- The two cases of `prepareQuerySQL`; `none` is the panic of `buildSelectQuery`.
unfoldable pub raw_query_sql : QueryScope → Build (Option String)
raw_query_sql qs = do
  combined ← combined_condition_sql qs
  pure (some (replace_dollars 0 (concat (combined ∷ option_space qs.query_option ∷ []))))

unfoldable pub columns_query_sql : QueryScope → Option String → Build (Option String)
columns_query_sql qs none = pure none
columns_query_sql qs (some selected) = do
  combined ← combined_condition_sql qs
  pure (
      some (
        replace_dollars 0 (
          concat (
            "SELECT "
            ∷ selected
            ∷ " FROM "
            ∷ quoted_table_name qs
            ∷ " "
            ∷ combined
            ∷ option_space qs.query_option
            ∷ []))))

-- Scope.prepareQuerySQL: the text of `SQL`.
unfoldable pub prepare_query_sql : QueryScope → Build (Option String)
prepare_query_sql qs =
    if qs.search.raw then raw_query_sql qs else select_sql qs >>= columns_query_sql qs
