-- ===== src/Query/SoftDelete.antt =====
-- The rows that are deleted softly stay out of every statement.
use gorm.Model.{Field, quote, field_named, primary_fields, trim_prefix, trim_suffix}
use gorm.Query.Builder.{Builder, QueryScope, quoted_table_name, primary_key_zero}
use gorm.Query.Clauses.{
  deleted_conditions, primary_conditions, where_text, where_sql, combined_condition_sql,
  key_conditions, conditions, combine, joins_sql, having_sql, order_sql, group_sql,
  limit_and_offset_sql,
}
use gorm.Prelude.{
  ◌∙◌, String, true, ◌≡◌, refl, ap, false, some, List, [], ◌∷◌, ◌++◌, ◌==◌, concat, join, glue,
  if◌then◌else◌, Bool-cases, inl, inr,
}

-- table.deleted_at IS NULL
abbrev pub is_null : QueryScope → Field → String
is_null qs f = concat (quoted_table_name qs ∷ "." ∷ quote qs.scope f.db_name ∷ " IS NULL" ∷ [])

-- The conditions on the key of a scope that has one.
abbrev pub keys_of : QueryScope → Builder → List String
keys_of qs b =
    if primary_key_zero qs.scope
    then []
    else (key_conditions qs (primary_fields qs.scope.fields) b).0

-- The conditions of the search that Where, Or and Not have added, in one text.
abbrev pub searched_text : QueryScope → Builder → String
searched_text qs b =
    let (wheres, b1) = conditions qs true qs.search.where_conditions (primary_conditions qs b).1 in
    let (ors, b2) = conditions qs true qs.search.or_conditions b1 in
    combine (wheres ++ (conditions qs false qs.search.not_conditions b2).0) ors

-- The WHERE clause in which every other condition is a further conjunct of `first`.
abbrev pub conjunct_text : String → List String → String → String
conjunct_text first keys combined = concat (
    "WHERE "
    ∷ join " AND " (first ∷ keys)
    ∷ (if combined == "" then "" else concat (" AND (" ∷ combined ∷ ")" ∷ []))
    ∷ [])

deleted_conditions-found :
    (qs : QueryScope) (f : Field)
    → qs.search.unscoped ≡ false
    → field_named qs.scope "DeletedAt" ≡ some f
    → deleted_conditions qs ≡ is_null qs f ∷ []
unfolding deleted_conditions quoted_table_name
deleted_conditions-found qs f scoped found = rw (deleted_conditions, scoped, found) refl

primary_conditions-found :
    (qs : QueryScope) (f : Field) (b : Builder)
    → qs.search.unscoped ≡ false
    → field_named qs.scope "DeletedAt" ≡ some f
    → (primary_conditions qs b).0 ≡ is_null qs f ∷ keys_of qs b
unfolding primary_conditions
primary_conditions-found qs f b scoped found = elim (Bool-cases (primary_key_zero qs.scope)) [
  | inl blank ↦ rw (primary_conditions, blank) (deleted_conditions-found qs f scoped found)
  | inr given ↦
      rw (primary_conditions, given)
        (ap (λ l. l ++ (key_conditions qs (primary_fields qs.scope.fields) b).0)
          (deleted_conditions-found qs f scoped found))
]

where_text-conjunct :
    (first : String) (primary keys : List String) (combined : String)
    → primary ≡ first ∷ keys
    → where_text primary combined ≡ conjunct_text first keys combined
unfolding where_text
where_text-conjunct first primary keys combined h = ap (λ p. where_text p combined) h

where_sql-conjunct :
    (qs : QueryScope) (f : Field) (b : Builder)
    → qs.search.unscoped ≡ false
    → field_named qs.scope "DeletedAt" ≡ some f
    → (where_sql qs b).0 ≡ conjunct_text (is_null qs f) (keys_of qs b) (searched_text qs b)
unfolding where_sql
where_sql-conjunct qs f b scoped found =
    where_text-conjunct (is_null qs f) (primary_conditions qs b).0 (keys_of qs b)
      (searched_text qs b) (primary_conditions-found qs f b scoped found)

-- The text of the clauses around the WHERE clause.
abbrev pub rest_text : QueryScope → Builder → String
rest_text qs b =
    let (havings, b1) = having_sql qs b in
    let (orders, b2) = order_sql qs b1 in
    concat (group_sql qs ∷ havings ∷ orders ∷ (limit_and_offset_sql qs b2).0 ∷ [])

combined_condition_sql-eq :
    (qs : QueryScope) (b : Builder)
    → qs.search.raw ≡ false
    → (combined_condition_sql qs b).0
      ≡ glue
          (joins_sql qs b).0
          (where_sql qs (joins_sql qs b).1).0
          (rest_text qs (where_sql qs (joins_sql qs b).1).1)
unfolding combined_condition_sql
combined_condition_sql-eq qs b cooked =
    ap
      (λ r.
        glue (joins_sql qs b).0
          (if r then trim_suffix ")" (trim_prefix "WHERE (" clause) else clause)
          (rest_text qs (where_sql qs (joins_sql qs b).1).1))
      cooked
  where
    clause : String
    clause = (where_sql qs (joins_sql qs b).1).0

-- For a model with a DeletedAt field, neither unscoped nor raw, the clauses of every statement are
-- the joins, a WHERE clause and the clauses behind it, where the WHERE clause is exactly: that
-- DeletedAt is null, AND each condition on the key of a scope that has one, AND, in one pair of
-- parentheses, the text of all conditions of the search, those of Or included, unless that text is
-- empty.
pub combined_condition_sql-conjunct_text :
    (qs : QueryScope) (f : Field) (b : Builder)
    → qs.search.raw ≡ false
    → qs.search.unscoped ≡ false
    → field_named qs.scope "DeletedAt" ≡ some f
    → (combined_condition_sql qs b).0
      ≡ glue
          (joins_sql qs b).0
          (conjunct_text
            (is_null qs f)
            (keys_of qs (joins_sql qs b).1)
            (searched_text qs (joins_sql qs b).1))
          (rest_text qs (where_sql qs (joins_sql qs b).1).1)
combined_condition_sql-conjunct_text qs f b cooked scoped found =
    combined_condition_sql-eq qs b cooked
    ∙ ap
        (λ clause.
          glue (joins_sql qs b).0 clause (rest_text qs (where_sql qs (joins_sql qs b).1).1))
        (where_sql-conjunct qs f (joins_sql qs b).1 scoped found)
