-- ===== src/Query/Count/Witnesses.antt =====
-- Counts of groups of accounts, which are deleted softly.
use gorm.Batch.Samples.{user, field}
use gorm.Errors.{null}
use gorm.Batch.Statement.{replace_dollars}
use gorm.Model.{Scope, quote, primary_fields, field_by_name, is_number, is_column, has_char}
use gorm.Prelude.{String, ◌≡◌, refl, true, false, none, some, [], ◌∷◌, Option}
use gorm.Query.Builder.{
  Builder, QueryScope, quoted_table_name, primary_key_zero, primary_field, main_primary,
  primary_key,
}
use gorm.Query.Clauses.{
  prepare_query_sql, raw_query_sql, columns_query_sql, combined_condition_sql, select_sql,
  joins_sql, where_sql, group_sql, having_sql, order_sql, limit_and_offset_sql,
}
use gorm.Query.Count.{count_scope, is_counting, is_query_for_column}
use gorm.Query.Search.{Search, Selection, column, empty_search, add_having, group_by, sql}

abbrev account : Scope
account = record user { fields = field "ID" "id" true ∷ field "DeletedAt" "deleted_at" false ∷ [] }

abbrev accounts : Search → QueryScope
accounts search = record {
  scope = account;
  search = search;
  table = "accounts";
  skip_bindvar = false;
  query_option = none;
}

abbrev show : Selection → String
show (column s) = s
show _ = ""

counting_example : is_counting "COUNT(DISTINCT name)" ≡ true
unfolding is_counting
counting_example = refl

plucked_example : is_query_for_column account "UPPER(name) AS `name`" "name" ≡ true
unfolding is_query_for_column
plucked_example = refl

abbrev grouped : Search
grouped = add_having (group_by empty_search "name") (sql "count(*) > 1") []

abbrev start : Builder
start = record { vars = []; error = null; fresh = 9 }

abbrev counted_text : Option QueryScope × Builder → Option String
counted_text (none, b) = none
counted_text (some qs, b) = (prepare_query_sql qs b).0

-- The condition on deleted rows names the whole inner query, which is no table.
grouped_example :
    counted_text (count_scope show (accounts grouped) start)
    ≡ some
        "SELECT count(*) FROM ( SELECT * FROM `accounts`  WHERE `accounts`.`deleted_at` IS NULL GROUP BY name HAVING (count(*) > 1) ) AS count_table  WHERE ( SELECT * FROM `accounts`  WHERE `accounts`.`deleted_at` IS NULL GROUP BY name HAVING (count(*) > 1) ) AS count_table.`deleted_at` IS NULL"
unfolding prepare_query_sql raw_query_sql columns_query_sql combined_condition_sql select_sql
    joins_sql where_sql group_sql having_sql order_sql limit_and_offset_sql replace_dollars
    quoted_table_name quote primary_key_zero primary_field main_primary primary_fields field_by_name
    is_number primary_key is_column count_scope has_char
grouped_example = refl

-- Without a condition on the groups, the text of the group closes the inner query.
grouped_only_example :
    counted_text (count_scope show (accounts (group_by empty_search "name")) start)
    ≡ some
        "SELECT count(*) FROM ( SELECT count(*) as name  FROM `accounts`  WHERE `accounts`.`deleted_at` IS NULL GROUP BY name ) AS count_table"
unfolding prepare_query_sql raw_query_sql columns_query_sql combined_condition_sql select_sql
    joins_sql where_sql group_sql having_sql order_sql limit_and_offset_sql replace_dollars
    quoted_table_name quote primary_key_zero primary_field main_primary primary_fields field_by_name
    is_number primary_key is_column count_scope has_char
grouped_only_example = refl
