-- ===== src/Write/Witnesses.antt =====
-- Tests and examples of the callbacks that write.
use gorm.Batch.Rows.{make_row}
use gorm.Batch.Samples.{field, user}
use gorm.Query.Search.{columns, empty_search, add_where, select, set_table, sql, scalar}
use gorm.Write.Reload.{reload_search}
use gorm.Batch.Statement.{bind_values, replace_dollars}
use gorm.Model.{primary_fields, add_extra_space_if_exist, quote, nothing}
use gorm.Prelude.{◌≡◌, refl, true, false, none, some, [], ◌∷◌, map}
use gorm.Query.Builder.{quoted_table_name, primary_field, main_primary}
use gorm.Write.Samples.{outside, users, start, run_of_users}
use gorm.Write.{has_conditions, primary_index}
use gorm.Write.Columns.{Simple, add_fields-make_row}
use gorm.Write.Create.{add_field, add_fields, nothing_collected, create_callback}
use gorm.Write.Delete.{before_delete_callback, delete_callback}
use gorm.Write.Guards.{Refused, guarded-Refused}
use gorm.Write.Update.{before_update_callback, update_callback}

inserted :
    map (λ s. s.sql) (create_callback outside run_of_users).sent
    ≡ "INSERT INTO `users` (`name`,`age`,`created_at`) VALUES (?,?,?)" ∷ []
unfolding create_callback primary_index primary_fields replace_dollars add_field
    add_extra_space_if_exist quoted_table_name quote
inserted = refl

bare : has_conditions users ≡ false
unfolding has_conditions primary_field main_primary primary_fields
bare = refl

guarded-Refused_example :
    Refused run_of_users (delete_callback outside (before_delete_callback outside run_of_users))
    × Refused run_of_users (update_callback outside (before_update_callback outside run_of_users))
guarded-Refused_example = guarded-Refused outside run_of_users refl bare

users-Simple : Simple outside users
users-Simple = record { selects = refl; omits = refl; bound = refl; expressions = λ s. refl }

add_fields-make_row_example :
    ((add_fields outside users user.fields nothing_collected start).0.columns
      ≡ (make_row user none [] 1 user.fields).columns)
    × ((
      (add_fields outside users user.fields nothing_collected start).0.placeholders,
      (add_fields outside users user.fields nothing_collected start).1.vars,
    )
        ≡ bind_values user.dialect.bind_var (make_row user none [] 1 user.fields).values [])
add_fields-make_row_example = add_fields-make_row outside users start [] 1 users-Simple

-- A key that the database has given is the condition of the query; without one there is no query.
reload_example :
    reload_search
      (some ("age" ∷ []))
      "users"
      (record (field "ID" "id" true) { is_blank = false } ∷ [])
    ≡ some (
        add_where
          (select (set_table empty_search "users") (columns ("age" ∷ [])) [])
          (sql "id = ?")
          (scalar nothing ∷ []))
unfolding reload_search
reload_example = refl

no_reload_example : reload_search (some ("age" ∷ [])) "users" user.fields ≡ none
unfolding reload_search
no_reload_example = refl
