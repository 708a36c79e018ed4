-- ===== src/OnConflict/Witnesses.antt =====
-- The clause for one conflict column and two columns to update, and batches of two users.
use gorm.Batch.Rows.{Txn}
use gorm.Batch.Samples.{field, user, env, txn}
use gorm.Batch.Suffix.{conflict_option}
use gorm.Errors.{null}
use gorm.Batch.Statement.{replace_dollars}
use gorm.Model.{Value, Field, nothing, quote, changeable_field}
use gorm.OnConflict.{on_conflict_do_update, on_conflict_do_update-eq}
use gorm.OnConflict.Batches.{
  Item, nil_item, pointer_item, Upsert, scope_of, columns_of, bound_field, create_batch_with_option,
  stamped, upsert_text, exec_upsert,
}
use gorm.Batch.Create.{Ending, returned, panicked}
use gorm.OnConflict.Mixed.{IsMixed, create_batch_with_option-mixed, sent}
use gorm.OnConflict.Rows.{IsPlain, bound_count, create_batch_with_option-counts}
use gorm.Prelude.Int.{pos}
use gorm.Prelude.{
  none, suc, String, ◌≡◌, refl, true, false, List, [], ◌∷◌, length, map, join, nat_eq,
}

on_conflict_do_update-eq_example :
    on_conflict_do_update (join "," ("id" ∷ [])) ("name" ∷ "age" ∷ [])
    ≡ conflict_option ("id" ∷ []) ("name" ∷ "age" ∷ [])
on_conflict_do_update-eq_example = on_conflict_do_update-eq ("id" ∷ []) "name" ("age" ∷ []) refl

abbrev key : Field
key = field "ID" "id" true

abbrev others : List Field
others = field "Name" "name" false ∷ field "CreatedAt" "created_at" false ∷ []

-- The first user has no key.
abbrev two_users : Txn
two_users = record txn { object = λ a. (record key { is_blank = nat_eq a 1 }) ∷ others }

abbrev upsert : Upsert
upsert = record {
  env = env;
  selects = [];
  omits = [];
  nil_address = 0;
  create = λ address t. (t, pos 1, null);
  is_open = true;
  method_panic = λ batch t. none;
  insert_option = "ON CONFLICT(id) DO NOTHING";
}

abbrev items : List Item
items = pointer_item 1 ∷ nil_item ∷ pointer_item 2 ∷ []

abbrev statements : Ending → List String
statements (returned t _ _) = map (λ s. s.sql) t.sent
statements (panicked t) = []

users_example :
    statements (create_batch_with_option upsert items two_users)
    ≡ "INSERT INTO `users` (`name`,`created_at`) VALUES (?,?),(?,?,?) ON CONFLICT(id) DO NOTHING"
      ∷ []
unfolding create_batch_with_option bound_field changeable_field
users_example = refl

two_users-IsPlain : IsPlain upsert two_users
unfolding stamped
two_users-IsPlain = record {
  no_methods = λ name address. refl;
  no_stamps = λ address. refl;
  no_error = refl;
}

two_users-columns : columns_of upsert (scope_of upsert 1 two_users) ≡ "`name`" ∷ "`created_at`" ∷ []
unfolding columns_of bound_field changeable_field quote
two_users-columns = refl

create_batch_with_option-counts_example :
    (rows : List (List String)) × (vars : List Value) × (create_batch_with_option upsert items
        two_users
      ≡ exec_upsert upsert items
          (record {
            sql = replace_dollars 0 (
                upsert_text
                  (quote user "users")
                  ("`name`" ∷ "`created_at`" ∷ [])
                  rows
                  upsert.insert_option);
            vars = vars;
          })
          two_users)
    × (length {A = String} ("`name`" ∷ "`created_at`" ∷ []) ≡ bound_count upsert two_users 1)
    × (map length rows ≡ map (bound_count upsert two_users) (1 ∷ 2 ∷ []))
create_batch_with_option-counts_example =
    create_batch_with_option-counts upsert (pointer_item 1) (nil_item ∷ pointer_item 2 ∷ [])
      two_users 1 "`name`" ("`created_at`" ∷ []) two_users-IsPlain tt refl two_users-columns

two_users-IsMixed : IsMixed upsert two_users 1 2 key nothing others
unfolding changeable_field
two_users-IsMixed = record {
  first_object = refl;
  second_object = refl;
  is_key = refl;
  is_column = refl;
  is_changeable = refl;
  alone = (refl, (refl, tt));
}

create_batch_with_option-mixed_example :
    (row row' : List String) × (vars : List Value) × (create_batch_with_option upsert
        (pointer_item 1 ∷ pointer_item 2 ∷ [])
        two_users
      ≡ sent upsert two_users 1 2 "`name`" ("`created_at`" ∷ []) vars (row ∷ row' ∷ []))
    × (length row ≡ length {A = String} ("`name`" ∷ "`created_at`" ∷ []))
    × (length row' ≡ suc (length {A = String} ("`name`" ∷ "`created_at`" ∷ [])))
create_batch_with_option-mixed_example =
    create_batch_with_option-mixed upsert two_users 1 2 key nothing others "`name`"
      ("`created_at`" ∷ []) two_users-IsPlain two_users-IsMixed two_users-columns
