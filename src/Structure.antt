-- ===== src/Structure.antt =====
-- The tags of a struct's fields: `parseTagSetting` and `getForeignField` of model_struct.go.
pub mod Tags
pub mod RoundTrip
mod Witnesses
use gorm.Batch.Names.{trim_space}
use gorm.Batch.Statement.{to_upper}
use gorm.Model.{split_on}
use gorm.Prelude.{String, Bool, ◌||◌, Option, none, some, List, [], ◌∷◌, ◌==◌, join, if◌then◌else◌}

-- The settings of a field, a map by keys.
abbrev pub Settings : Type 0
Settings = List (String × String)

-- setting[key] = value
unfoldable pub put_setting : String → String → Settings → Settings
put_setting key value [] = (key, value) ∷ []
put_setting key value ((k, v) ∷ settings) =
    let rest = put_setting key value settings in
    if k == key then (key, value) ∷ settings else (k, v) ∷ rest

-- StructField.TagSettingsGet
unfoldable pub tag_setting : Settings → String → Option String
tag_setting [] key = none
tag_setting ((k, v) ∷ settings) key = if k == key then some v else tag_setting settings key

-- The key, and the value of one part of a tag, which has been split at its colons.
abbrev pub part_key : String → String
part_key s = trim_space (to_upper s)

unfoldable pub put_part : List String → Settings → Settings
unfolding put_setting trim_space to_upper
put_part [] settings = settings
put_part (key ∷ []) settings = put_setting (part_key key) (part_key key) settings
put_part (key ∷ v ∷ values) settings = put_setting (part_key key) (join ":" (v ∷ values)) settings

unfoldable pub put_parts : List String → Settings → Settings
unfolding put_part split_on
put_parts [] settings = settings
put_parts (part ∷ parts) settings = put_parts parts (put_part (split_on b':' part) settings)

-- The body of the loop over the two tags.
unfoldable pub put_tag : String → Settings → Settings
unfolding put_parts split_on
put_tag str settings = if str == "" then settings else put_parts (split_on b';' str) settings

-- parseTagSetting, for what `Get` finds of the tags `sql` and `gorm`.
unfoldable pub parse_tag_setting : String → String → Settings
unfolding put_tag
parse_tag_setting sql_tag gorm_tag = put_tag gorm_tag (put_tag sql_tag [])

-- A StructField, as far as `getForeignField` reads it.
pub record Named : Type 0 where
  pub name : String
  pub db_name : String

-- getForeignField, for the naming strategy of `ToColumnName`.
unfoldable pub get_foreign_field : (String → String) → String → List Named → Option Named
get_foreign_field to_column_name column [] = none
get_foreign_field to_column_name column (f ∷ fields) =
    if f.name == column || f.db_name == column || f.db_name == to_column_name column
    then some f
    else get_foreign_field to_column_name column fields
