-- ===== src/Write/Attributes/Witnesses.antt =====
-- An update of a user's name and age, where the age is omitted.
use gorm.Model.{text, number, changeable_field}
use gorm.Prelude.Int.{pos}
use gorm.Prelude.{◌≡◌, refl, true, some, [], ◌∷◌}
use gorm.Query.Search.{empty_search}
use gorm.Write.{Run, select_attrs}
use gorm.Write.Attributes.{Given, mapping, assign_updating_attributes_callback}
use gorm.Write.Samples.{outside, users, run_of_users}

abbrev without_age : Run
without_age = record run_of_users {
  query = record users { search = record empty_search { omits = "Age" ∷ [] } };
}

abbrev name_and_age : Given
name_and_age = mapping (("age", number (pos 3)) ∷ ("name", text "a") ∷ ("note", text "b") ∷ [])

attrs_example :
    (assign_updating_attributes_callback outside true
      (some name_and_age)
      without_age).0.update_attrs
    ≡ some (("name", text "a") ∷ ("note", text "b") ∷ [])
unfolding assign_updating_attributes_callback changeable_field select_attrs
attrs_example = refl

skipped_example :
    (assign_updating_attributes_callback outside true
      (some (mapping (("age", number (pos 3)) ∷ [])))
      without_age).1
    ≡ true
unfolding assign_updating_attributes_callback changeable_field select_attrs
skipped_example = refl
