-- ===== src/Write/Associations/Loops.antt =====
-- saveBeforeAssociationsCallback and saveAfterAssociationsCallback of callback_save.go.
use gorm.Model.{Value, text, field_named}
use gorm.Query.Builder.{QueryScope, primary_key_zero}
use gorm.Write.{Run, report_run, fields_of, set_column}
use gorm.Write.Associations.{
  Relation, Target, one, several, Association, joined, Saving, World, Checks,
  save_association_check, scope_now, after_call, save_allowed,
}
use gorm.Prelude.{
  ℕ, zero, suc, String, Bool, true, ◌&&◌, not, ◌||◌, none, some, List, [], ◌∷◌, ◌==◌, get_elem?,
  length, nat_eq, if◌then◌else◌,
}

-- SetColumn of the scope itself, and scope.Err of its error.
abbrev pub set_own : World → String → Value → Saving → Saving
set_own w name v s =
    let (run, e) = set_column w.out w.to_db_name name v s.run in record s { run = report_run e run }

-- SetColumn of the scope of an object, and scope.Err of its error.
unfoldable pub set_other : World → ℕ → String → Value → Saving → Saving
unfolding set_column
set_other w address name v s =
    let run : Run = record s.run {
      query = record s.run.query { scope = scope_now w address s };
      update_attrs = none;
    } in
    let (run', e) = set_column w.out w.to_db_name name v run in
    record s {
      run = report_run e s.run;
      object = λ a. if nat_eq a address then fields_of run' else s.object a;
    }

-- The loop that sets the foreign keys of a `belongs_to`.
unfoldable pub set_own_references : World → ℕ → List (String × String) → Saving → Saving
unfolding set_column
set_own_references w address [] s = s
set_own_references w address ((name, key) ∷ references) s =
    set_own_references w address references (elim (field_named (scope_now w address s) key) [
      | none ↦ s
      | some f ↦ set_own w name f.value s
    ])

abbrev pub save_belongs_to : World → Checks → Relation → Target → Saving → Saving
save_belongs_to w checks r (several _) s = s
save_belongs_to w checks r (one address) s =
    let s1 = save_allowed w checks address s in
    if checks.save_reference then set_own_references w address r.references s1 else s1

-- The body of the loop of saveBeforeAssociationsCallback.
unfoldable pub save_before : World → Checks → Association → Saving → Saving
unfolding save_allowed set_own_references
save_before w checks association s = elim checks.relation [
  | none ↦ s
  | some r ↦ if r.kind == "belongs_to" then save_belongs_to w checks r association.target s else s
]

-- The body of a loop over the fields, at an index.
unfoldable pub visit :
    World → (World → Checks → Association → Saving → Saving) → ℕ → QueryScope → Saving → Saving
unfolding save_association_check
visit w body index qs s = elim (get_elem? qs.scope.fields index) [
  | none ↦ s
  | some f ↦ body w (save_association_check w qs (w.association index) f) (w.association index) s
]

-- The loop, from an index on, over so many fields.
unfoldable pub each_association :
    World → (World → Checks → Association → Saving → Saving) → ℕ → ℕ → Saving → Saving
unfolding visit
each_association w body index zero s = s
each_association w body index (suc left) s =
    each_association w body (suc index) left (visit w body index s.run.query s)

-- saveBeforeAssociationsCallback
unfoldable pub save_before_associations_callback : World → Saving → Saving
unfolding each_association save_before
save_before_associations_callback w s =
    each_association w save_before 0 (length (fields_of s.run)) s

-- The loop that sets the foreign keys of an associated object.
unfoldable pub set_other_references : World → ℕ → List (String × String) → Saving → Saving
unfolding set_other
set_other_references w address [] s = s
set_other_references w address ((name, key) ∷ references) s =
    set_other_references w address references (elim (field_named s.run.query.scope key) [
      | none ↦ s
      | some f ↦ set_other w address name f.value s
    ])

-- if relationship.PolymorphicType != "" { … }
unfoldable pub set_polymorphic : World → Relation → ℕ → Saving → Saving
unfolding set_other
set_polymorphic w r address s =
    if r.polymorphic_type == ""
    then s
    else set_other w address r.polymorphic_type (text r.polymorphic_value) s

-- if saveReference { … }, where `with_keys` says whether the foreign keys are set.
abbrev pub refer : World → Checks → Relation → Bool → ℕ → Saving → Saving
refer w checks r with_keys address s =
    if checks.save_reference
    then set_polymorphic w r address
        (if with_keys then set_other_references w address r.references s else s)
    else s

-- The end of the loop over a slice: a join table gets the object, if it has a key.
unfoldable pub join_allowed : World → Checks → Relation → ℕ → Saving → Saving
unfolding primary_key_zero
join_allowed w checks r address s =
    if not (primary_key_zero (scope_now w address s)) && checks.save_reference && r.has_join_table
    then after_call (joined address) (w.add_join address s) s
    else s

unfoldable pub save_element : World → Checks → Relation → ℕ → Saving → Saving
unfolding set_other_references set_polymorphic save_allowed join_allowed
save_element w checks r address s =
    join_allowed w checks r address
      (save_allowed w checks address (refer w checks r (not r.has_join_table) address s))

unfoldable pub save_elements : World → Checks → Relation → List ℕ → Saving → Saving
unfolding save_element
save_elements w checks r [] s = s
save_elements w checks r (address ∷ addresses) s =
    save_elements w checks r addresses (save_element w checks r address s)

-- The two cases of the value's kind.
unfoldable pub save_target : World → Checks → Relation → Target → Saving → Saving
unfolding save_elements set_other_references set_polymorphic save_allowed
save_target w checks r (several addresses) s = save_elements w checks r addresses s
save_target w checks r (one address) s =
    save_allowed w checks address (refer w checks r true address s)

abbrev pub is_behind : Relation → Bool
is_behind r = r.kind == "has_one" || r.kind == "has_many" || r.kind == "many_to_many"

-- The body of the loop of saveAfterAssociationsCallback.
unfoldable pub save_after : World → Checks → Association → Saving → Saving
unfolding save_target
save_after w checks association s = elim checks.relation [
  | none ↦ s
  | some r ↦ if is_behind r then save_target w checks r association.target s else s
]

-- saveAfterAssociationsCallback
unfoldable pub save_after_associations_callback : World → Saving → Saving
unfolding each_association save_after
save_after_associations_callback w s = each_association w save_after 0 (length (fields_of s.run)) s
