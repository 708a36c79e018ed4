-- ===== src/Query/Load/Witnesses.antt =====
-- First on an account: the row that the database has, and a Find of two rows.
use gorm.Batch.Samples.{user, field}
use gorm.Batch.Statement.{replace_dollars}
use gorm.Errors.{null}
use gorm.Model.{
  Scope, Field, Value, text, number, ok, quote, primary_fields, field_by_name, is_number, is_column,
}
use gorm.Prelude.Int.{pos}
use gorm.Prelude.{String, ◌≡◌, refl, true, false, none, some, List, [], ◌∷◌, map}
use gorm.Query.Builder.{
  Builder, QueryScope, quoted_table_name, primary_key_zero, primary_field, main_primary,
  primary_key,
}
use gorm.Query.Clauses.{
  prepare_query_sql, raw_query_sql, columns_query_sql, combined_condition_sql, select_sql,
  joins_sql, where_sql, group_sql, having_sql, order_sql, limit_and_offset_sql,
}
use gorm.Query.Load.{Destination, into_slice, Loader, Loading, ordered, query_callback}
use gorm.Query.Scan.{field_for}
use gorm.Errors.Field.{add_error}
use gorm.Query.Load.Found.{Found}
use gorm.Query.Search.{empty_search}

abbrev account : Scope
account = record user { fields = field "ID" "id" true ∷ field "Name" "name" false ∷ [] }

abbrev accounts : QueryScope
accounts = record {
  scope = account;
  search = empty_search;
  table = "accounts";
  skip_bindvar = false;
  query_option = none;
}

abbrev start : Builder
start = record { vars = []; error = null; fresh = 9 }

abbrev loader : Destination → List (List Value) → Loader
loader d rows = record {
  skip_query_callback = false;
  only_preload = false;
  order_by_primary_key = some "ASC";
  query_hint = none;
  destination = d;
  new_fields = account.fields;
  is_pointer = λ f. false;
  query = λ sent. ok (record { columns = "id" ∷ "name" ∷ []; rows = rows; rows_error = null });
  scan_row = λ fields values. (map some values, null);
}

abbrev two_accounts : List (List Value)
two_accounts = (number (pos 1) ∷ text "a" ∷ []) ∷ (number (pos 2) ∷ text "b" ∷ []) ∷ []

abbrev loading : Loading
loading = record { builder = start; sent = []; rows_affected = 0; elements = []; object = [] }

abbrev query_text : String
query_text = "SELECT * FROM `accounts`   ORDER BY `accounts`.`id` ASC"

abbrev filled : Value → Value → List Field
filled id name =
    record (field "ID" "id" true) { value = id }
    ∷ record (field "Name" "name" false) { value = name }
    ∷ []

loaded_example :
    query_callback (loader into_slice two_accounts) accounts loading
    ≡ some (record {
      builder = start;
      sent = record { sql = query_text; vars = [] } ∷ [];
      rows_affected = 2;
      elements = filled (number (pos 1)) (text "a") ∷ filled (number (pos 2)) (text "b") ∷ [];
      object = [];
    })
unfolding query_callback prepare_query_sql raw_query_sql columns_query_sql combined_condition_sql
    select_sql joins_sql where_sql group_sql having_sql order_sql limit_and_offset_sql
    replace_dollars quoted_table_name quote primary_key_zero primary_field main_primary
    primary_fields field_by_name is_number primary_key is_column ordered add_error field_for
loaded_example = refl
