-- ===== src/Naming/Witnesses.antt =====
-- Tests and examples of the naming strategy.
use gorm.Model.{has_prefix}
use gorm.Naming.{db_name_of, SafeMap, default_namer, set}
use gorm.Naming.Cache.{Steps, none_yet, and_then, write, default_namer-Steps}
use gorm.Prelude.{◌≡◌, refl, []}

names_of_the_tests :
    (db_name_of
        "ThisIsActuallyATestSoWeMayBeAbleToUseThisCodeInGormPackageAlsoIdCanBeUsedAtTheEndAsID"
      ≡ "this_is_actually_a_test_so_we_may_be_able_to_use_this_code_in_gorm_package_also_id_can_be_used_at_the_end_as_id")
    × (db_name_of "PFAndESI" ≡ "pf_and_esi")
    × (db_name_of "HTTPServerHandlerForURLID" ≡ "http_server_handler_for_url_id")
    × (db_name_of "UUID" ≡ "uuid")
    × (db_name_of "SHA256Hash" ≡ "sha256_hash")
unfolding db_name_of has_prefix
names_of_the_tests = (refl, refl, refl, refl, refl)

abbrev known_user : SafeMap
known_user = set [] "UserID" (db_name_of "UserID")

default_namer-Steps_example :
    ((default_namer known_user "UserID").0 ≡ db_name_of "UserID")
    × Steps [] (default_namer known_user "UserID").1
default_namer-Steps_example =
    default_namer-Steps known_user "UserID"
      (and_then [] [] known_user (none_yet []) (write [] "UserID"))
