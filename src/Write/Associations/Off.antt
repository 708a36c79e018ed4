-- ===== src/Write/Associations/Off.antt =====
-- The setting `gorm:save_associations` of callback_save.go.
use gorm.Model.{Field}
use gorm.Query.Builder.{QueryScope}
use gorm.Write.{fields_of, is_changeable}
use gorm.Write.Associations.{
  Setting, Relation, Target, one, several, Association, Saving, World, Checks, check_truth,
  setting_or_tag, association_checks, save_association_check, save_allowed,
}
use gorm.Write.Associations.Loops.{
  save_belongs_to, save_before, visit, each_association, save_before_associations_callback, refer,
  join_allowed, save_element, save_elements, save_target, save_after,
  save_after_associations_callback,
}
use gorm.Prelude.{
  ℕ, zero, suc, String, ◌≡◌, refl, ◌∙◌, Bool, true, false, Option, none, some, List, [], ◌∷◌,
  length, get_elem?, arith, Option-cases, Bool-cases, inl, inr, ◌&&◌, not,
}

-- The associations are switched off, and nothing switches a part of them on.
pub record IsOff (w : World) (v : Setting) : Type 0 where
  pub off : w.setting "gorm:save_associations" ≡ some v
  pub is_false : check_truth v ≡ false
  pub no_update : w.setting "gorm:association_autoupdate" ≡ none
  pub no_create : w.setting "gorm:association_autocreate" ≡ none
  pub no_reference : w.setting "gorm:association_save_reference" ≡ none
  pub no_update_tag : (i : ℕ) → (w.association i).tag_setting "ASSOCIATION_AUTOUPDATE" ≡ none
  pub no_create_tag : (i : ℕ) → (w.association i).tag_setting "ASSOCIATION_AUTOCREATE" ≡ none
  pub no_reference_tag : (i : ℕ) → (w.association i).tag_setting "ASSOCIATION_SAVE_REFERENCE" ≡ none

-- Nothing is allowed.
abbrev AllFalse : Checks → Type 0
AllFalse c = (c.auto_update ≡ false) × (c.auto_create ≡ false) × (c.save_reference ≡ false)

setting_or_tag-none :
    (w : World) (association : Association) (name tag : String) (before : Bool)
    → w.setting name ≡ none
    → association.tag_setting tag ≡ none
    → setting_or_tag w association name tag before ≡ before
unfolding setting_or_tag
setting_or_tag-none w association name tag before no_setting no_tag =
    ground (arith, no_setting, no_tag)

setting_or_tag-some :
    (w : World) (association : Association) (name tag : String) (before : Bool) (v : Setting)
    → w.setting name ≡ some v
    → setting_or_tag w association name tag before ≡ check_truth v
unfolding setting_or_tag
setting_or_tag-some w association name tag before v set = ground (arith, set)

save_allowed-none :
    (w : World) (c : Checks) (address : ℕ) (s : Saving)
    → AllFalse c
    → save_allowed w c address s ≡ s
unfolding save_allowed
save_allowed-none w c address s h = ground (arith, h.0, h.1, h.2)

join_allowed-none :
    (w : World) (c : Checks) (r : Relation) (address : ℕ) (s : Saving)
    → AllFalse c
    → join_allowed w c r address s ≡ s
unfolding join_allowed
join_allowed-none w c r address s h = ground (arith, h.2)

refer-none :
    (w : World) (c : Checks) (r : Relation) (b : Bool) (address : ℕ) (s : Saving)
    → AllFalse c
    → refer w c r b address s ≡ s
refer-none w c r b address s h = rw (h.2) refl

save_element-none :
    (w : World) (c : Checks) (r : Relation) (address : ℕ) (s : Saving)
    → AllFalse c
    → save_element w c r address s ≡ s
unfolding save_element
save_element-none w c r address s h =
    join_allowed-none w c r address _ h
    ∙ save_allowed-none w c address _ h
    ∙ refer-none w c r (not r.has_join_table) address s h

save_elements-none :
    (w : World) (c : Checks) (r : Relation) (addresses : List ℕ) (s : Saving)
    → AllFalse c
    → save_elements w c r addresses s ≡ s
unfolding save_elements
save_elements-none w c r [] s h = refl
save_elements-none w c r (address ∷ addresses) s h =
    save_elements-none w c r addresses _ h ∙ save_element-none w c r address s h

save_target-none :
    (w : World) (c : Checks) (r : Relation) (target : Target) (s : Saving)
    → AllFalse c
    → save_target w c r target s ≡ s
unfolding save_target
save_target-none w c r (several addresses) s h = save_elements-none w c r addresses s h
save_target-none w c r (one address) s h =
    save_allowed-none w c address _ h ∙ refer-none w c r true address s h

save_belongs_to-none :
    (w : World) (c : Checks) (r : Relation) (target : Target) (s : Saving)
    → AllFalse c
    → save_belongs_to w c r target s ≡ s
unfolding save_allowed
save_belongs_to-none w c r (several _) s h = refl
save_belongs_to-none w c r (one address) s h = rw (h.2) (save_allowed-none w c address s h)

-- A body that does nothing where nothing is allowed.
abbrev IsGuarded : (World → Checks → Association → Saving → Saving) → Type 0
IsGuarded body =
    (w : World) (c : Checks) (a : Association) (s : Saving) → AllFalse c → body w c a s ≡ s

save_before-IsGuarded : IsGuarded save_before
unfolding save_before
save_before-IsGuarded w c a s h = elim (Option-cases c.relation) [
  | inl none_given ↦ rw (save_before, none_given) refl
  | inr (r, given) ↦ ground (arith, given, save_belongs_to-none w c r a.target s h)
]

save_after-IsGuarded : IsGuarded save_after
unfolding save_after
save_after-IsGuarded w c a s h = elim (Option-cases c.relation) [
  | inl none_given ↦ rw (save_after, none_given) refl
  | inr (r, given) ↦ ground (arith, given, save_target-none w c r a.target s h)
]

module _ (w : World) (v : Setting) (h : IsOff w v) where
  association_checks-AllFalse :
      (i : ℕ) (r : Option Relation) → AllFalse (association_checks w (w.association i) r)
  unfolding association_checks
  association_checks-AllFalse i none = (refl, refl, refl)
  association_checks-AllFalse i (some r) =
      let a = w.association i in
      let all =
        setting_or_tag-some w a "gorm:save_associations" "SAVE_ASSOCIATIONS" true v h.off
        ∙ h.is_false in
      (
        setting_or_tag-none w a _ _ _ h.no_update (h.no_update_tag i) ∙ all,
        setting_or_tag-none w a _ _ _ h.no_create (h.no_create_tag i) ∙ all,
        setting_or_tag-none w a _ _ _ h.no_reference (h.no_reference_tag i) ∙ all,
      )

  check-AllFalse :
      (qs : QueryScope) (i : ℕ) (f : Field)
      → AllFalse (save_association_check w qs (w.association i) f)
  unfolding save_association_check
  check-AllFalse qs i f =
      elim (Bool-cases (is_changeable w.out qs f && not f.is_blank && not f.is_ignored)) [
        | inl chosen ↦ rw chosen (association_checks-AllFalse i (w.association i).relation)
        | inr left_out ↦ rw left_out (refl, refl, refl)
      ]

  module _ (body : World → Checks → Association → Saving → Saving) (guarded : IsGuarded body) where
    visit-same : (i : ℕ) (qs : QueryScope) (s : Saving) → visit w body i qs s ≡ s
    unfolding visit
    visit-same i qs s = elim (Option-cases (get_elem? qs.scope.fields i)) [
      | inl out_of_range ↦ rw (visit, out_of_range) refl
      | inr (f, found) ↦
          rw (visit, found)
            (guarded w (save_association_check w qs (w.association i) f) (w.association i) s
              (check-AllFalse qs i f))
    ]

    each-same : (i left : ℕ) (s : Saving) → each_association w body i left s ≡ s
    unfolding each_association
    each-same i zero s = refl
    each-same i (suc left) s =
        each-same (suc i) left (visit w body i s.run.query s) ∙ visit-same i s.run.query s

-- Where the setting gorm:save_associations is false, or a text other than true in any case of its
-- letters, and neither a setting nor a tag of autoupdate, autocreate or save_reference is given,
-- the two callbacks on associations change nothing: they save and join no object, set no foreign
-- key and report no error, whatever a SAVE_ASSOCIATIONS tag says.
pub save_associations-off :
    (w : World) (v : Setting) (s : Saving)
    → IsOff w v
    → (save_before_associations_callback w s ≡ s) × (save_after_associations_callback w s ≡ s)
unfolding save_before_associations_callback save_after_associations_callback
save_associations-off w v s h = (
  each-same w v h save_before save_before-IsGuarded 0 (length (fields_of s.run)) s,
  each-same w v h save_after save_after-IsGuarded 0 (length (fields_of s.run)) s,
)
