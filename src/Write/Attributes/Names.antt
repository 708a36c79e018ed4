-- ===== src/Write/Attributes/Names.antt =====
-- The names and columns of a scope's fields, which setting a field leaves as they are.
use gorm.Model.{Value, Field, Reflect, set, find_index, changeable_field, is_named}
use gorm.Write.{Run, Outside, fields_of, set_field}
use gorm.Batch.Rows.{set_at}
use gorm.Prelude.{
  ℕ, zero, suc, String, ◌≡◌, refl, ap, Bool, false, ◌||◌, not, Option, none, some, List, [], ◌∷◌,
  ◌==◌, map, get_elem?, arith, Bool-cases, Option-cases, inl, inr, if◌then◌else◌,
}

abbrev pub Name : Type 0
Name = String × String

abbrev pub name_of : Field → Name
name_of f = (f.name, f.db_name)

abbrev pub names_of : List Field → List Name
names_of fields = map name_of fields

-- is_named and changeable_field, of a name.
abbrev pub stands_in : List String → Name → Bool
stands_in [] n = false
stands_in (attr ∷ attrs) n = (n.0 == attr || n.1 == attr) || stands_in attrs n

abbrev pub is_allowed : List String → List String → Name → Bool
is_allowed (a ∷ selects) omits n = stands_in (a ∷ selects) n
is_allowed [] omits n = not (stands_in omits n)

stands_in-eq : (attrs : List String) (f : Field) → is_named attrs f ≡ stands_in attrs (name_of f)
stands_in-eq [] f = refl
stands_in-eq (attr ∷ attrs) f =
    ap (λ b. (f.name == attr || f.db_name == attr) || b) (stands_in-eq attrs f)

pub is_allowed-eq :
    (selects omits : List String) (f : Field)
    → changeable_field selects omits f ≡ is_allowed selects omits (name_of f)
unfolding changeable_field
is_allowed-eq [] omits f = ap not (stands_in-eq omits f)
is_allowed-eq (a ∷ selects) omits f = stands_in-eq (a ∷ selects) f

set-name :
    (r : Reflect) (fresh : ℕ) (v : Value) (f : Field) → name_of (set r fresh v f).0 ≡ name_of f
unfolding set
set-name r fresh v f = ground arith

set_at-names :
    (i : ℕ) (f g : Field) (fields : List Field)
    → get_elem? fields i ≡ some f
    → name_of g ≡ name_of f
    → names_of (set_at i g fields) ≡ names_of fields
set_at-names i f g [] h e = refl
set_at-names zero f g (x ∷ fields) h e = cc (h, e)
set_at-names (suc i) f g (x ∷ fields) h e = ap (λ l. name_of x ∷ l) (set_at-names i f g fields h e)

pub set_field-names :
    (out : Outside) (i : ℕ) (v : Value) (run : Run)
    → names_of (fields_of (set_field out i v run).0) ≡ names_of (fields_of run)
unfolding set_field
set_field-names out i v run = elim (Option-cases (get_elem? (fields_of run) i)) [
  | inl out_of_range ↦ rw (set_field, out_of_range) refl
  | inr (f, found) ↦
      rw (set_field, found)
        (set_at-names i f (set out.reflect run.builder.fresh v f).0 (fields_of run) found
          (set-name out.reflect run.builder.fresh v f))
]

pub set_field-search :
    (out : Outside) (i : ℕ) (v : Value) (run : Run)
    → (set_field out i v run).0.query.search ≡ run.query.search
unfolding set_field
set_field-search out i v run = elim (Option-cases (get_elem? (fields_of run) i)) [
  | inl out_of_range ↦ rw (set_field, out_of_range) refl
  | inr (f, found) ↦ rw (set_field, found) refl
]

pub set_field-update_attrs :
    (out : Outside) (i : ℕ) (v : Value) (run : Run)
    → (set_field out i v run).0.update_attrs ≡ run.update_attrs
unfolding set_field
set_field-update_attrs out i v run = elim (Option-cases (get_elem? (fields_of run) i)) [
  | inl out_of_range ↦ rw (set_field, out_of_range) refl
  | inr (f, found) ↦ rw (set_field, found) refl
]

pub get_elem?-names :
    (i : ℕ) (f : Field) (fields : List Field)
    → get_elem? fields i ≡ some f
    → get_elem? (names_of fields) i ≡ some (name_of f)
get_elem?-names i f [] h = absurd (cc h)
get_elem?-names zero f (x ∷ fields) h = cc h
get_elem?-names (suc i) f (x ∷ fields) h = get_elem?-names i f fields h

-- No field has this name or column.
abbrev pub IsNoField : String → List Name → Type 0
IsNoField key [] = Unit
IsNoField key (n ∷ names) = ((n.0 == key || n.1 == key) ≡ false) × IsNoField key names

pub find_index-none :
    (key column : String) (i : ℕ) (found : Option ℕ) (fields : List Field)
    → find_index key column i found fields ≡ none
    → IsNoField key (names_of fields)
unfolding find_index
find_index-none key column i found [] h = tt
find_index-none key column i found (f ∷ fields) h =
    let kept = if f.db_name == column then some i else found in
    elim (Bool-cases (f.name == key || f.db_name == key)) [
      | inl named ↦ absurd (ground (arith, h, named))
      | inr unnamed ↦
          (unnamed, find_index-none key column (suc i) kept fields (ground (arith, h, unnamed)))
    ]
