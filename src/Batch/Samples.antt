-- ===== src/Batch/Samples.antt =====
-- A model of four columns, with its rows, for the tests of the batch engine.
use gorm.Errors.{null, plain}
use gorm.Model.{Reflect, time, Scope, Dialect, Field, ok, nothing}
use gorm.Prelude.{ℕ, String, Bool, true, false, none, some, List, [], ◌∷◌, concat}
use gorm.Batch.Create.{Connection}
use gorm.Batch.Rows.{Elem, pointer, nil_pointer, Txn, Env, Row, answered}
use gorm.Prelude.Int.{pos}

abbrev pub field : String → String → Bool → Field
field name db_name is_primary_key = record {
  name = name;
  db_name = db_name;
  is_primary_key = is_primary_key;
  is_normal = true;
  is_ignored = false;
  has_default_value = false;
  is_blank = is_primary_key;
  is_valid = true;
  can_addr = true;
  is_foreign_key = false;
  is_integer = true;
  auto_increment = none;
  relationship = none;
  value = nothing;
}

abbrev pub dialect : Dialect
dialect = record {
  name = "sqlite3";
  bind_var = λ _. "?";
  quote = λ s. concat ("`" ∷ s ∷ "`" ∷ []);
  default_value_str = "DEFAULT VALUES";
  limit_and_offset_sql = λ limit offset. ok "";
  last_insert_id_output_interstitial = λ table column columns. "";
  last_insert_id_returning_suffix = λ table column. "";
  batch_create_max_rows = none;
  batch_save_sql = none;
}

abbrev pub user : Scope
user = record {
  fields =
      field "ID" "id" true
      ∷ field "Name" "name" false
      ∷ field "Age" "age" false
      ∷ field "CreatedAt" "created_at" false
      ∷ [];
  dialect = dialect;
  to_column_name = λ s. s;
  type_name = "[]User";
  show_quoted = λ s. s;
  fresh = 9;
}

abbrev pub by_name : List String
by_name = "name" ∷ []

abbrev pub resolved : List String
resolved = "name" ∷ []

abbrev pub columns : List String
columns = "`name`" ∷ "`age`" ∷ "`created_at`" ∷ []

-- Two users, of which the second comes with a key of its own, and a gap between them.
abbrev pub reflect : Reflect
reflect = record { convert = λ f v. (v, null); is_blank = λ f v. false }

abbrev pub env : Env
env = record {
  scope = λ _. user;
  reflect = reflect;
  now = time 7;
  call_method = λ name address t. t;
  method_panic = λ batch t. none;
  table_name = λ _. "users";
  insert_option = none;
  insert_modifier = none;
  database = λ sent. answered (ok (pos 1)) (ok (pos 5));
}

abbrev pub txn : Txn
txn = record { sent = []; error = null; object = λ _. user.fields; fresh = 9 }

abbrev pub elems : List Elem
elems = pointer 1 ∷ nil_pointer ∷ pointer 2 ∷ []

abbrev pub connection : Connection
connection = record {
  is_db = true;
  begin_error = null;
  commit_error = null;
  rollback_error = null;
  tx_done = plain 8 "done";
}

abbrev pub row : ℕ → List String → Row
row address names = record {
  address = address;
  fields = [];
  primary_field = none;
  columns = names;
  values = [];
}

abbrev pub three_rows : List Row
three_rows = row 1 columns ∷ row 2 columns ∷ row 3 by_name ∷ []

abbrev pub failed_before : Txn
failed_before = record txn { error = plain 7 "failed before" }

abbrev pub user_row : ℕ → Row
user_row address = record {
  address = address;
  fields = user.fields;
  primary_field = some 0;
  columns = columns;
  values = nothing ∷ nothing ∷ nothing ∷ [];
}
