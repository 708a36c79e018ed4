-- ===== src/Write/Associations/Witnesses.antt =====
-- A user with two pets and a company, for the two association callbacks.
use gorm.Batch.Samples.{user}
use gorm.Errors.{null}
use gorm.Model.{field_by_name, primary_fields}
use gorm.Prelude.{
  ℕ, zero, suc, ◌≡◌, refl, false, Option, none, some, [], ◌∷◌, ◌==◌, String, if◌then◌else◌,
}
use gorm.Query.Builder.{primary_field, main_primary}
use gorm.Write.Samples.{outside, run_of_users}
use gorm.Write.Associations.{
  Setting, words, Relation, one, several, Association, saved, Saving, World, check_truth,
}
use gorm.Write.Associations.Loops.{
  save_before_associations_callback, save_after_associations_callback,
}
use gorm.Write.Associations.Off.{IsOff, save_associations-off}

abbrev relation : String → String → String → Relation
relation kind name key = record {
  kind = kind;
  references = (name, key) ∷ [];
  polymorphic_type = "";
  polymorphic_value = "";
  has_join_table = false;
}

-- The association of the field at an index: the company at 2 and the pets at 1, by turns.
abbrev association : ℕ → Association
association zero = record { relation = none; tag_setting = λ tag. none; target = several [] }
association (suc zero) = record {
  relation = some (relation "has_many" "Age" "id");
  tag_setting = λ tag. none;
  target = several (3 ∷ 4 ∷ []);
}
association _ = record {
  relation = some (relation "belongs_to" "Age" "id");
  tag_setting = λ tag. none;
  target = one 5;
}

abbrev world : (String → Option Setting) → World
world setting = record {
  out = outside;
  setting = setting;
  association = association;
  scope_at = λ _. user;
  to_db_name = λ s. s;
  save = λ address s. record { object = s.object; sent = s.run.sent; error = null };
  add_join = λ address s. record { object = s.object; sent = s.run.sent; error = null };
}

abbrev start : Saving
start = record { run = run_of_users; object = λ _. user.fields; calls = [] }

abbrev quiet : String → Option Setting
quiet name = if name == "gorm:save_associations" then some (words "False") else none

after_example :
    (save_after_associations_callback (world (λ _. none)) start).calls ≡ saved 3 ∷ saved 4 ∷ []
unfolding save_after_associations_callback field_by_name primary_field main_primary primary_fields
after_example = refl

before_example :
    (save_before_associations_callback (world (λ _. none)) start).calls ≡ saved 5 ∷ saved 5 ∷ []
unfolding save_before_associations_callback field_by_name primary_field main_primary primary_fields
before_example = refl

no_tags : (tag : String) (i : ℕ) → (association i).tag_setting tag ≡ none
no_tags tag zero = refl
no_tags tag (suc zero) = refl
no_tags tag (suc (suc i)) = refl

quiet-IsOff : IsOff (world quiet) (words "False")
unfolding check_truth
quiet-IsOff = record {
  off = refl;
  is_false = refl;
  no_update = refl;
  no_create = refl;
  no_reference = refl;
  no_update_tag = no_tags "ASSOCIATION_AUTOUPDATE";
  no_create_tag = no_tags "ASSOCIATION_AUTOCREATE";
  no_reference_tag = no_tags "ASSOCIATION_SAVE_REFERENCE";
}

save_associations-off_example :
    (save_before_associations_callback (world quiet) start ≡ start)
    × (save_after_associations_callback (world quiet) start ≡ start)
save_associations-off_example =
    save_associations-off (world quiet) (words "False") start quiet-IsOff
