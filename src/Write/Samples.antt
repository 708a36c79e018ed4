-- ===== src/Write/Samples.antt =====
-- One user and an outside that answers every statement, for the tests of the callbacks that write.
use gorm.Batch.Rows.{answered}
use gorm.Batch.Samples.{user, reflect}
use gorm.Errors.{null}
use gorm.Model.{time, nothing, ok}
use gorm.Prelude.Int.{pos}
use gorm.Prelude.{true, false, none, []}
use gorm.Query.Builder.{Builder, QueryScope}
use gorm.Query.Search.{empty_search}
use gorm.Write.{Run, Outside}

abbrev pub outside : Outside
outside = record {
  reflect = reflect;
  now = time 7;
  call_method = λ name run. run;
  column_expression = λ name. none;
  show_arg = λ arg. "";
  block_global_update = true;
  update_column = false;
  insert_option = none;
  insert_modifier = none;
  update_option = none;
  delete_option = none;
  database = λ sent. answered (ok (pos 1)) (ok (pos 5));
  query_row = λ sent. ok nothing;
}

abbrev pub users : QueryScope
users = record {
  scope = user;
  search = empty_search;
  table = "users";
  skip_bindvar = false;
  query_option = none;
}

abbrev pub start : Builder
start = record { vars = []; error = null; fresh = 9 }

abbrev pub run_of_users : Run
run_of_users = record {
  query = users;
  builder = start;
  sql = "";
  sent = [];
  rows_affected = pos 0;
  update_attrs = none;
  blank_columns = none;
}
