-- ===== src/Write/Associations.antt =====
-- callback_save.go: the associations that are saved before and after a value.
-- An associated value is an object, known by its address. The scope that the code makes for it has the
-- fields of the object as they are then.
pub mod Loops
pub mod Off
pub mod Steps
pub mod Order
mod Witnesses
use gorm.Batch.Rows.{Statement}
use gorm.Errors.{Error}
use gorm.Model.{Value, text, Field, Scope, field_named}
use gorm.Naming.{to_lower}
use gorm.Query.Builder.{QueryScope, primary_key_zero}
use gorm.Write.{Run, Outside, report_run, fields_of, is_changeable, set_column}
use gorm.Prelude.{
  ℕ, zero, suc, String, Bool, true, false, ◌&&◌, not, ◌||◌, Option, none, some, List, [], ◌∷◌, ◌++◌,
  ◌==◌, get_elem?, length, nat_eq, if◌then◌else◌,
}

-- A setting of the `DB`, as the check reads it.
pub data Setting : Type 0 where
  flag : Bool → Setting
  words : String → Setting
  any_value : Setting

-- A Relationship: `references` pairs ForeignFieldNames with AssociationForeignDBNames.
pub record Relation : Type 0 where
  pub kind : String
  pub references : List (String × String)
  pub polymorphic_type : String
  pub polymorphic_value : String
  pub has_join_table : Bool

-- The value of a field: one object, or a slice of them.
pub data Target : Type 0 where
  one : (address : ℕ) → Target
  several : (addresses : List ℕ) → Target

-- What a field says of its association.
pub record Association : Type 0 where
  pub relation : Option Relation
  pub tag_setting : String → Option String
  pub target : Target

-- A call of `Save`, or of `Add` on a join table.
pub data Call : Type 0 where
  saved : (address : ℕ) → Call
  joined : (address : ℕ) → Call

-- What the callbacks read and write: the run of the scope itself, the objects, and the calls so far.
pub record Saving : Type 0 where
  pub run : Run
  pub object : ℕ → List Field
  pub calls : List Call

-- What a call leaves: the objects, the statements sent so far, and its error.
pub record Called : Type 0 where
  pub object : ℕ → List Field
  pub sent : List Statement
  pub error : Error

-- What stands outside: that of the other callbacks, the settings, the associations of the fields by
-- their indices, the scope of an object but for its fields, the naming strategy, and what `Save` of an
-- object and `Add` of one to a join table do.
pub record World : Type 0 where
  pub out : Outside
  pub setting : String → Option Setting
  pub association : ℕ → Association
  pub scope_at : ℕ → Scope
  pub to_db_name : String → String
  pub save : ℕ → Saving → Called
  pub add_join : ℕ → Saving → Called

-- What saveAssociationCheck returns.
pub record Checks : Type 0 where
  pub auto_update : Bool
  pub auto_create : Bool
  pub save_reference : Bool
  pub relation : Option Relation

-- checkTruth
unfoldable pub check_truth : Setting → Bool
unfolding to_lower
check_truth (flag b) = b
check_truth (words s) = to_lower s == "true"
check_truth any_value = true

-- A setting, or else the tag, or else what holds before.
unfoldable pub setting_or_tag : World → Association → String → String → Bool → Bool
unfolding check_truth
setting_or_tag w association name tag before = elim (w.setting name) [
  | some value ↦ check_truth value
  | none ↦ elim (association.tag_setting tag) [
    | some value ↦ check_truth (words value)
    | none ↦ before
  ]
]

abbrev pub no_checks : Checks
no_checks = record {
  auto_update = false;
  auto_create = false;
  save_reference = false;
  relation = none;
}

unfoldable pub association_checks : World → Association → Option Relation → Checks
unfolding setting_or_tag
association_checks w association none = no_checks
association_checks w association (some r) =
    let all = setting_or_tag w association "gorm:save_associations" "SAVE_ASSOCIATIONS" true in
    record {
      auto_update =
          setting_or_tag w association "gorm:association_autoupdate" "ASSOCIATION_AUTOUPDATE" all;
      auto_create =
          setting_or_tag w association "gorm:association_autocreate" "ASSOCIATION_AUTOCREATE" all;
      save_reference =
          setting_or_tag w association "gorm:association_save_reference"
            "ASSOCIATION_SAVE_REFERENCE" all;
      relation = some r;
    }

-- saveAssociationCheck
unfoldable pub save_association_check : World → QueryScope → Association → Field → Checks
unfolding is_changeable association_checks
save_association_check w qs association f =
    if is_changeable w.out qs f && not f.is_blank && not f.is_ignored
    then association_checks w association association.relation
    else no_checks

-- The scope of an object.
abbrev pub scope_now : World → ℕ → Saving → Scope
scope_now w address s = record (w.scope_at address) { fields = s.object address }

-- What a call leaves, and scope.Err of its error.
abbrev pub after_call : Call → Called → Saving → Saving
after_call call called s = record s {
  run = report_run called.error (record s.run { sent = called.sent });
  object = called.object;
  calls = s.calls ++ call ∷ [];
}

abbrev pub save_object : World → ℕ → Saving → Saving
save_object w address s = after_call (saved address) (w.save address s) s

-- if newScope.PrimaryKeyZero() { if autoCreate { … } } else if autoUpdate { … }
unfoldable pub save_allowed : World → Checks → ℕ → Saving → Saving
unfolding primary_key_zero
save_allowed w checks address s =
    let allowed =
      if primary_key_zero (scope_now w address s) then checks.auto_create else checks.auto_update in
    if allowed then save_object w address s else s
