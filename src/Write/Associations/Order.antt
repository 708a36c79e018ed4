-- ===== src/Write/Associations/Order.antt =====
-- Which objects saveAfterAssociationsCallback of callback_save.go saves, and in which order.
use gorm.Query.Builder.{QueryScope}
use gorm.Write.{is_changeable}
use gorm.Write.Associations.Steps.{objects_of}
use gorm.Write.Associations.{Relation, Target, World}
use gorm.Write.Associations.Loops.{is_behind}
use gorm.Prelude.{
  ℕ, zero, suc, String, ◌≡◌, Option, none, some, List, [], ◌++◌, get_elem?, ◌&&◌, not,
  if◌then◌else◌,
}

-- Neither the `DB` nor a tag says anything on associations.
pub record IsDefault (w : World) : Type 0 where
  pub no_setting : (name : String) → w.setting name ≡ none
  pub no_tag : (i : ℕ) (tag : String) → (w.association i).tag_setting tag ≡ none

-- The objects of an association that points to the value, if it is one.
abbrev pub behind_objects : Option Relation → Target → List ℕ
behind_objects none target = []
behind_objects (some r) target = if is_behind r then objects_of target else []

-- The objects of a field that is written and not blank.
unfoldable pub field_objects : World → QueryScope → ℕ → List ℕ
field_objects w qs index = elim (get_elem? qs.scope.fields index) [
  | none ↦ []
  | some f ↦
      if is_changeable w.out qs f && not f.is_blank && not f.is_ignored
      then behind_objects (w.association index).relation (w.association index).target
      else []
]

unfoldable pub all_objects : World → QueryScope → ℕ → ℕ → List ℕ
all_objects w qs index zero = []
all_objects w qs index (suc left) = field_objects w qs index ++ all_objects w qs (suc index) left
