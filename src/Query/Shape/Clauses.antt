-- ===== src/Query/Shape/Clauses.antt =====
-- The clauses of a query are built alike from the shape of its values.
use gorm.Model.{Value, Field, field_named, primary_fields}
use gorm.Query.Builder.{QueryScope, bind, primary_key_zero}
use gorm.Query.Clauses.{
  conditions, deleted_conditions, key_conditions, primary_conditions, where_sql, select_replacement,
  select_replacements, is_nil,
}
use gorm.Query.Conditions.{build_condition}
use gorm.Query.Search.{Arg, scalar, valuer, list, bytes, valuer_list, tuples, Condition, Order}
use gorm.Query.Shape.{
  shape, shape_field, shape_of, shape_row, shape_arg, shape_condition, shape_order,
}
use gorm.Query.Shape.Binding.{
  Commutes, bind-Commutes, bind_list-Commutes, primary_key_zero-shape, primary_fields-shape,
  field_named-shape,
}
use gorm.Query.Shape.Conditions.{build_condition-Commutes, quoted_table_name-shape, quote-shape}
use gorm.Prelude.{
  ◌≡◌, refl, Bool, true, false, List, [], ◌∷◌, map, Bool-cases, Option-cases, inl, inr,
}

pub conditions-Commutes :
    (qs : QueryScope) (include : Bool) (cs : List Condition)
    → Commutes
        (conditions qs include cs)
        (conditions (shape_of qs) include (map shape_condition cs))
unfolding conditions
conditions-Commutes qs include [] b = refl
conditions-Commutes qs include (c ∷ cs) b = rw (
  build_condition-Commutes qs include c b,
  conditions-Commutes qs include cs (build_condition qs include c b).1,
)

deleted_conditions-shape :
    (qs : QueryScope) → deleted_conditions (shape_of qs) ≡ deleted_conditions qs
unfolding deleted_conditions
deleted_conditions-shape qs = elim (Option-cases (field_named qs.scope "DeletedAt")) [
  | inl missing ↦ rw (deleted_conditions, field_named-shape qs.scope "DeletedAt", missing) refl
  | inr (f, found) ↦
      rw
        (
          deleted_conditions,
          field_named-shape qs.scope "DeletedAt",
          found,
          quoted_table_name-shape qs,
          quote-shape qs.scope f.db_name,
        )
        refl
]

key_conditions-Commutes :
    (qs : QueryScope) (fields : List Field)
    → Commutes (key_conditions qs fields) (key_conditions (shape_of qs) (map shape_field fields))
unfolding key_conditions
key_conditions-Commutes qs [] b = refl
key_conditions-Commutes qs (f ∷ fields) b = rw (
  bind-Commutes qs f.value b,
  key_conditions-Commutes qs fields (bind qs f.value b).1,
  quoted_table_name-shape qs,
  quote-shape qs.scope f.db_name,
)

primary_conditions-Commutes :
    (qs : QueryScope) → Commutes (primary_conditions qs) (primary_conditions (shape_of qs))
unfolding primary_conditions
primary_conditions-Commutes qs b = elim (Bool-cases (primary_key_zero qs.scope)) [
  | inl blank ↦
      rw (primary_conditions, primary_key_zero-shape qs.scope, blank, deleted_conditions-shape qs)
        refl
  | inr given ↦
      rw
        (
          primary_conditions,
          primary_key_zero-shape qs.scope,
          given,
          deleted_conditions-shape qs,
          primary_fields-shape qs.scope.fields,
          key_conditions-Commutes qs (primary_fields qs.scope.fields) b,
        )
        refl
]

pub where_sql-Commutes : (qs : QueryScope) → Commutes (where_sql qs) (where_sql (shape_of qs))
unfolding where_sql
where_sql-Commutes qs b =
    let b1 = (primary_conditions qs b).1 in
    let b2 = (conditions qs true qs.search.where_conditions b1).1 in
    let b3 = (conditions qs true qs.search.or_conditions b2).1 in
    rw (
      primary_conditions-Commutes qs b,
      conditions-Commutes qs true qs.search.where_conditions b1,
      conditions-Commutes qs true qs.search.or_conditions b2,
      conditions-Commutes qs false qs.search.not_conditions b3,
    )

firsts-shape :
    (rows : List (Value × List Value))
    → map (λ row. row.0) (map shape_row rows) ≡ map shape (map (λ row. row.0) rows)
firsts-shape [] = refl
firsts-shape (r ∷ rows) = rw (firsts-shape rows)

select_replacement-Commutes :
    (qs : QueryScope) (arg : Arg)
    → Commutes (select_replacement qs arg) (select_replacement (shape_of qs) (shape_arg arg))
unfolding select_replacement
select_replacement-Commutes qs (scalar v) b = bind-Commutes qs v b
select_replacement-Commutes qs (valuer v e) b = bind-Commutes qs v b
select_replacement-Commutes qs (list values) b = rw (bind_list-Commutes qs values b)
select_replacement-Commutes qs (bytes values v) b = rw (bind_list-Commutes qs values b)
select_replacement-Commutes qs (valuer_list values v e) b = rw (bind_list-Commutes qs values b)
select_replacement-Commutes qs (tuples rows) b =
    rw (firsts-shape rows, bind_list-Commutes qs (map (λ row. row.0) rows) b)

pub select_replacements-Commutes :
    (qs : QueryScope) (args : List Arg)
    → Commutes
        (select_replacements qs args)
        (select_replacements (shape_of qs) (map shape_arg args))
unfolding select_replacements
select_replacements-Commutes qs [] b = refl
select_replacements-Commutes qs (arg ∷ args) b = rw (
  select_replacement-Commutes qs arg b,
  select_replacements-Commutes qs args (select_replacement qs arg b).1,
)

pub is_nil-shape : (cs : List Condition) → is_nil (map shape_condition cs) ≡ is_nil cs
is_nil-shape [] = refl
is_nil-shape (c ∷ cs) = refl

pub is_nil_orders-shape : (orders : List Order) → is_nil (map shape_order orders) ≡ is_nil orders
is_nil_orders-shape [] = refl
is_nil_orders-shape (o ∷ orders) = refl
