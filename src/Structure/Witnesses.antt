-- ===== src/Structure/Witnesses.antt =====
-- The tag of a primary key with a default that has colons.
use gorm.Batch.Names.{trim_space}
use gorm.Batch.Statement.{to_upper}
use gorm.Model.{has_char}
use gorm.Structure.{Settings, parse_tag_setting, get_foreign_field}
use gorm.Structure.RoundTrip.{parse_tag_setting-write_settings}
use gorm.Structure.Tags.{AllSettings, write_settings}
use gorm.Prelude.{◌≡◌, refl, some, [], ◌∷◌}

abbrev settings : Settings
settings = ("PRIMARY_KEY", "") ∷ ("DEFAULT", "10:30:00") ∷ []

tag_example :
    parse_tag_setting "type:text" " primary_key;default:10:30:00;"
    ≡ ("TYPE", "text") ∷ ("PRIMARY_KEY", "PRIMARY_KEY") ∷ ("DEFAULT", "10:30:00") ∷ ("", "") ∷ []
unfolding parse_tag_setting
tag_example = refl

foreign_example :
    get_foreign_field
      (λ s. s)
      "user_id"
      (record { name = "ID"; db_name = "id" }
        ∷ record { name = "UserID"; db_name = "user_id" }
        ∷ [])
    ≡ some (record { name = "UserID"; db_name = "user_id" })
unfolding get_foreign_field
foreign_example = refl

settings-AllSettings : AllSettings settings
unfolding trim_space to_upper has_char
settings-AllSettings = (
  record { key_same = refl; no_colon = refl; no_semicolon = refl; value_no_semicolon = refl },
  (record { key_same = refl; no_colon = refl; no_semicolon = refl; value_no_semicolon = refl }, tt),
)

parse_tag_setting-write_settings_example :
    (parse_tag_setting "" (write_settings settings) ≡ settings)
    × (parse_tag_setting (write_settings settings) "" ≡ settings)
parse_tag_setting-write_settings_example =
    parse_tag_setting-write_settings settings settings-AllSettings (tt, ((refl, tt), tt))
