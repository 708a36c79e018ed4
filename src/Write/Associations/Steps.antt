-- ===== src/Write/Associations/Steps.antt =====
-- What one association of callback_save.go adds to the objects that were saved.
use mathlib.Core.List.{append-nil, append_assoc}
use gorm.Model.{Value, text, field_named}
use gorm.Query.Builder.{primary_key_zero}
use mathlib.Core.Path.{subst}
use gorm.Write.Associations.{
  Relation, Target, one, several, Call, saved, joined, Saving, World, Checks, scope_now, after_call,
  save_object, save_allowed,
}
use gorm.Write.Associations.Loops.{
  set_other, set_other_references, set_polymorphic, refer, join_allowed, save_element,
  save_elements, save_target,
}
use gorm.Prelude.{
  ℕ, String, ◌≡◌, refl, sym, ap, ◌∙◌, Bool, true, false, List, [], ◌∷◌, ◌++◌, arith, Option-cases,
  Bool-cases, inl, inr, ◌&&◌, not, ◌==◌, if◌then◌else◌,
}

-- The objects that were saved.
abbrev pub saved_of : List Call → List ℕ
saved_of [] = []
saved_of (saved address ∷ calls) = address ∷ saved_of calls
saved_of (joined _ ∷ calls) = saved_of calls

abbrev pub objects_of : Target → List ℕ
objects_of (one address) = address ∷ []
objects_of (several addresses) = addresses

saved_of-append :
    (calls more : List Call) → saved_of (calls ++ more) ≡ saved_of calls ++ saved_of more
saved_of-append [] more = refl
saved_of-append (saved a ∷ calls) more = ap (λ l. a ∷ l) (saved_of-append calls more)
saved_of-append (joined _ ∷ calls) more = saved_of-append calls more

-- The scope is kept, and these objects were saved.
abbrev pub Adds : List ℕ → Saving → Saving → Type 0
Adds l s s' = (s'.run.query ≡ s.run.query) × (saved_of s'.calls ≡ saved_of s.calls ++ l)

pub Adds-none : (s : Saving) → Adds [] s s
Adds-none s = (refl, ap (λ l. l) (cc (append-nil (saved_of s.calls))))

pub Adds-append :
    (l l' : List ℕ) (s s' s'' : Saving) → Adds l s s' → Adds l' s' s'' → Adds (l ++ l') s s''
Adds-append l l' s s' s'' (q, a) (q', a') =
    (q' ∙ q, cc (a, a', append_assoc (saved_of s.calls) l l'))

-- Everything is allowed.
abbrev pub AllTrue : Checks → Type 0
AllTrue c = (c.auto_update ≡ true) × (c.auto_create ≡ true)

save_object-Adds :
    (w : World) (address : ℕ) (s : Saving) → Adds (address ∷ []) s (save_object w address s)
save_object-Adds w address s = (refl, saved_of-append s.calls (saved address ∷ []))

save_allowed-eq :
    (w : World) (c : Checks) (address : ℕ) (s : Saving)
    → AllTrue c
    → save_allowed w c address s ≡ save_object w address s
unfolding save_allowed
save_allowed-eq w c address s h = ground (arith, h.0, h.1)

save_allowed-Adds :
    (w : World) (c : Checks) (address : ℕ) (s : Saving)
    → AllTrue c
    → Adds (address ∷ []) s (save_allowed w c address s)
save_allowed-Adds w c address s h =
    subst (Adds (address ∷ []) s) (sym (save_allowed-eq w c address s h))
      (save_object-Adds w address s)

set_other-Adds :
    (w : World) (address : ℕ) (name : String) (v : Value) (s : Saving)
    → Adds [] s (set_other w address name v s)
unfolding set_other
set_other-Adds w address name v s = (refl, cc (append-nil (saved_of s.calls)))

joined-Adds :
    (w : World) (address : ℕ) (s : Saving)
    → Adds [] s (after_call (joined address) (w.add_join address s) s)
joined-Adds w address s = (refl, saved_of-append s.calls (joined address ∷ []))

-- A step that is taken or not.
Adds-if : (b : Bool) (s s' : Saving) → Adds [] s s' → Adds [] s (if b then s' else s)
Adds-if true s s' h = h
Adds-if false s s' h = Adds-none s

join_allowed-Adds :
    (w : World) (c : Checks) (r : Relation) (address : ℕ) (s : Saving)
    → Adds [] s (join_allowed w c r address s)
unfolding join_allowed
join_allowed-Adds w c r address s =
    Adds-if (not (primary_key_zero (scope_now w address s)) && c.save_reference && r.has_join_table)
      s (after_call (joined address) (w.add_join address s) s) (joined-Adds w address s)

set_other_references-Adds :
    (w : World) (address : ℕ) (references : List (String × String)) (s : Saving)
    → Adds [] s (set_other_references w address references s)
unfolding set_other_references
set_other_references-Adds w address [] s = Adds-none s
set_other_references-Adds w address ((name, key) ∷ references) s =
    elim (Option-cases (field_named s.run.query.scope key)) [
      | inl missing ↦
          rw (set_other_references, missing) (set_other_references-Adds w address references s)
      | inr (f, found) ↦
          rw (set_other_references, found)
            (let s1 = set_other w address name f.value s in
              Adds-append [] [] s s1 (set_other_references w address references s1)
                (set_other-Adds w address name f.value s)
                (set_other_references-Adds w address references s1))
    ]

set_polymorphic-Adds :
    (w : World) (r : Relation) (address : ℕ) (s : Saving)
    → Adds [] s (set_polymorphic w r address s)
unfolding set_polymorphic
set_polymorphic-Adds w r address s = elim (Bool-cases (r.polymorphic_type == "")) [
  | inl absent ↦ rw absent (Adds-none s)
  | inr given ↦ rw given (set_other-Adds w address r.polymorphic_type (text r.polymorphic_value) s)
]

refer-Adds :
    (w : World) (c : Checks) (r : Relation) (b : Bool) (address : ℕ) (s : Saving)
    → Adds [] s (refer w c r b address s)
refer-Adds w c r b address s =
    let s1 = if b then set_other_references w address r.references s else s in
    Adds-if c.save_reference s (set_polymorphic w r address s1) (
      Adds-append [] [] s s1 (set_polymorphic w r address s1)
        (Adds-if b s (set_other_references w address r.references s)
          (set_other_references-Adds w address r.references s))
        (set_polymorphic-Adds w r address s1))

save_element-Adds :
    (w : World) (c : Checks) (r : Relation) (address : ℕ) (s : Saving)
    → AllTrue c
    → Adds (address ∷ []) s (save_element w c r address s)
unfolding save_element
save_element-Adds w c r address s h =
    let s1 = refer w c r (not r.has_join_table) address s in
    let s2 = save_allowed w c address s1 in
    Adds-append (address ∷ []) [] s s2 (join_allowed w c r address s2)
      (Adds-append [] (address ∷ []) s s1 s2 (refer-Adds w c r (not r.has_join_table) address s)
        (save_allowed-Adds w c address s1 h))
      (join_allowed-Adds w c r address s2)

save_elements-Adds :
    (w : World) (c : Checks) (r : Relation) (addresses : List ℕ) (s : Saving)
    → AllTrue c
    → Adds addresses s (save_elements w c r addresses s)
unfolding save_elements
save_elements-Adds w c r [] s h = Adds-none s
save_elements-Adds w c r (address ∷ addresses) s h =
    let s1 = save_element w c r address s in
    Adds-append (address ∷ []) addresses s s1 (save_elements w c r addresses s1)
      (save_element-Adds w c r address s h) (save_elements-Adds w c r addresses s1 h)

pub save_target-Adds :
    (w : World) (c : Checks) (r : Relation) (target : Target) (s : Saving)
    → AllTrue c
    → Adds (objects_of target) s (save_target w c r target s)
unfolding save_target
save_target-Adds w c r (several addresses) s h = save_elements-Adds w c r addresses s h
save_target-Adds w c r (one address) s h =
    let s1 = refer w c r true address s in
    Adds-append [] (address ∷ []) s s1 (save_allowed w c address s1)
      (refer-Adds w c r true address s) (save_allowed-Adds w c address s1 h)
