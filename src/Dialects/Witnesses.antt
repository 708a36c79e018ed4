-- ===== src/Dialects/Witnesses.antt =====
-- Tests and examples of the built-in dialects.
use gorm.Dialects.{
  build_key_name, mysql_build_key_name, mssql_limit_and_offset_sql, mysql_limit_and_offset_sql,
  rune_count,
}
use gorm.Dialects.Keys.{mysql_build_key_name-bounds}
use gorm.Model.{Value, nothing, number, Result, ok, is_word, all_word, show_int}
use gorm.Prelude.Int.{ℤ, pos, negsuc}
use gorm.Prelude.{◌≤◌, String, ◌≡◌, refl, true, [], ◌∷◌}

key_of_users :
    build_key_name "idx" "app.users" ("first-name" ∷ "age" ∷ []) ≡ "idx_app_users_first_name_age"
unfolding build_key_name
key_of_users = refl

abbrev parse : Value → Result ℤ
parse (number n) = ok n
parse v = ok (negsuc 0)

limit_without_offset :
    mssql_limit_and_offset_sql parse (number (pos 5)) nothing
    ≡ ok " OFFSET 0 ROWS FETCH NEXT 5 ROWS ONLY"
unfolding mssql_limit_and_offset_sql show_int
limit_without_offset = refl

-- MySQL drops an offset without a limit.
offset_without_limit : mysql_limit_and_offset_sql parse (number (negsuc 0)) (number (pos 5)) ≡ ok ""
unfolding mysql_limit_and_offset_sql
offset_without_limit = refl

-- A digest of forty digits.
abbrev digest : String → String
digest s = "0123456789012345678901234567890123456789"

digest-Word : (s : String) → all_word (digest s) ≡ true
unfolding all_word is_word
digest-Word s = refl

abbrev long_name : String
long_name = "a_name_of_a_column_that_is_much_longer_than_the_limit_of_sixty_four"

mysql_build_key_name-bounds_example :
    (rune_count (mysql_build_key_name digest "idx" "users" long_name []) ≤ 64)
    × (all_word (mysql_build_key_name digest "idx" "users" long_name []) ≡ true)
mysql_build_key_name-bounds_example =
    mysql_build_key_name-bounds digest "idx" "users" long_name [] (λ s. refl) digest-Word
