-- ===== src/Query/Witnesses.antt =====
-- Tests and examples of the query builder.
use gorm.Batch.Samples.{user, field}
use gorm.Errors.{null}
use gorm.Batch.Statement.{replace_dollars}
use gorm.Model.{
  quote, primary_fields, field_by_name, is_number, is_column, field_named, number, text, Scope,
  Field, Value,
}
use gorm.Prelude.Int.{pos}
use gorm.Prelude.{
  String, ◌≡◌, refl, true, false, none, some, [], ◌∷◌, glue, ◌≢◌, ap, arith, ℕ, List, get_elem?,
}
use gorm.Query.Builder.{
  Builder, QueryScope, quoted_table_name, primary_key_zero, primary_field, main_primary,
  primary_key,
}
use gorm.Query.Clauses.{
  prepare_query_sql, raw_query_sql, columns_query_sql, combined_condition_sql, select_sql,
  joins_sql, where_sql, group_sql, having_sql, order_sql, limit_and_offset_sql,
}
use gorm.Query.Search.{
  Search, empty_search, add_where, add_not, add_or, order_by, sql, scalar, mapping, list, keys,
  by_text,
}
use gorm.Query.Scan.{build_scan_plan, field_for}
use gorm.Query.Scan.Plan.{Matches, build_scan_plan-Matches}
use gorm.Query.SoftDelete.{
  combined_condition_sql-conjunct_text, conjunct_text, is_null, keys_of, searched_text, rest_text,
}

abbrev deleted_at : Field
deleted_at = field "DeletedAt" "deleted_at" false

abbrev account : Scope
account = record user { fields = field "ID" "id" true ∷ deleted_at ∷ [] }

abbrev query_of : Search → QueryScope
query_of search = record {
  scope = account;
  search = search;
  table = "users";
  skip_bindvar = false;
  query_option = none;
}

abbrev start : Builder
start = record { vars = []; error = null; fresh = 9 }

-- Where("name = ?", …).Or(map).Not([]int64{1, 2}).Order("name")
abbrev searched : Value → Search
searched v =
    order_by
      (add_not
        (add_or (add_where empty_search (sql "name = ?") (scalar v ∷ []))
          (mapping (("age", v) ∷ [])) [])
        (keys (list (number (pos 1) ∷ number (pos 2) ∷ []))) [])
      (some (by_text "name")) false

abbrev injection : Value
injection = text "x' OR 1 = 1 --"

query_text :
    (prepare_query_sql (query_of (searched injection)) start).0
    ≡ some
        "SELECT * FROM `users`  WHERE `users`.`deleted_at` IS NULL AND ((name = ?) AND (`users`.`id` NOT IN (?,?)) OR (`users`.`age` = ?)) ORDER BY `name`"
unfolding prepare_query_sql raw_query_sql columns_query_sql combined_condition_sql select_sql
    joins_sql where_sql group_sql having_sql order_sql limit_and_offset_sql replace_dollars
    quoted_table_name quote primary_key_zero primary_field main_primary primary_fields field_by_name
    is_number primary_key is_column
query_text = refl

found_deleted_at : field_named account "DeletedAt" ≡ some deleted_at
unfolding field_by_name
found_deleted_at = refl

combined_condition_sql-conjunct_text_example :
    (combined_condition_sql (query_of (searched injection)) start).0
    ≡ glue
        (joins_sql (query_of (searched injection)) start).0
        (conjunct_text
          (is_null (query_of (searched injection)) deleted_at)
          (keys_of
            (query_of (searched injection))
            (joins_sql (query_of (searched injection)) start).1)
          (searched_text
            (query_of (searched injection))
            (joins_sql (query_of (searched injection)) start).1))
        (rest_text
          (query_of (searched injection))
          (where_sql
            (query_of (searched injection))
            (joins_sql (query_of (searched injection)) start).1).1)
combined_condition_sql-conjunct_text_example =
    combined_condition_sql-conjunct_text (query_of (searched injection)) deleted_at start refl refl
      found_deleted_at

-- Two columns of one name, and one that no field has.
abbrev twice : List String
twice = "id" ∷ "other" ∷ "id" ∷ []

abbrev joined_fields : List Field
joined_fields = field "ID" "id" true ∷ deleted_at ∷ field "UserID" "id" false ∷ []

planned : build_scan_plan twice joined_fields ≡ some 0 ∷ none ∷ some 2 ∷ []
unfolding build_scan_plan field_for
planned = refl

build_scan_plan-Matches_example :
    ((column : String) × (get_elem? twice 0 ≡ some column) × Matches column joined_fields 0)
    × ((column : String) × (get_elem? twice 2 ≡ some column) × Matches column joined_fields 2)
    × (◌≢◌ {A = ℕ} 0 2)
build_scan_plan-Matches_example =
    build_scan_plan-Matches twice joined_fields 0 2 0 2 (omega arith)
      (ap (λ plan. get_elem? plan 0) planned) (ap (λ plan. get_elem? plan 2) planned)
