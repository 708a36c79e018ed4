-- ===== src/Query/Shape/Binding.antt =====
-- Binding commutes with taking the shape.
use gorm.Errors.{Error}
use gorm.Model.{
  Scope, Value, nothing, number, text, time, other, expr, Values, no_values, more_values, Field,
  add_to_vars, add_args, replace_mark, find_index, field_by_name, field_named, primary_fields,
}
use gorm.Query.Builder.{
  Builder, QueryScope, Build, bind, bind_list, report, report_new, main_primary, primary_field,
  primary_key, primary_key_zero,
}
use gorm.Query.Shape.{
  shape, shape_values, shape_field, shape_scope, shape_of, shape_builder, hidden,
}
use gorm.Prelude.{
  ℕ, zero, suc, String, ◌≡◌, refl, ap, Bool, Option, none, some, List, [], ◌∷◌, ◌++◌, map, ◌==◌,
  length, get_elem?, arith, if◌then◌else◌, Option-cases, inl, inr,
}

length-map : (vars : List Value) → length (map shape vars) ≡ length vars
length-map [] = refl
length-map (v ∷ vars) = ap suc (length-map vars)

pub map-append {ℓ κ} :
    {A : Type ℓ} {B : Type κ} (f : A → B) (xs ys : List A) → map f (xs ++ ys) ≡ map f xs ++ map f ys
map-append f [] ys = refl
map-append f (x ∷ xs) ys = ap (λ l. f x ∷ l) (map-append f xs ys)

abbrev shaped : String × List Value → String × List Value
shaped r = (r.0, map shape r.1)

add_one-shape :
    (skip : Bool) (bind_var : ℕ → String) (vars : List Value) (v w : Value)
    → shape v ≡ w
    → ◌≡◌ {A = String × List Value}
        (if skip then "?" else bind_var (suc (length (map shape vars))), map shape vars ++ w ∷ [])
        (if skip then "?" else bind_var (suc (length vars)), map shape (vars ++ v ∷ []))
add_one-shape skip bind_var vars v w h = rw (length-map vars, map-append shape vars (v ∷ []), h)

mutual
  unfolding add_to_vars add_args

  add_to_vars-shape :
      (skip : Bool) (bind_var : ℕ → String) (v : Value) (vars : List Value)
      → add_to_vars skip bind_var (shape v) (map shape vars)
        ≡ shaped (add_to_vars skip bind_var v vars)
  add_to_vars-shape skip bind_var nothing vars =
      add_one-shape skip bind_var vars nothing nothing refl
  add_to_vars-shape skip bind_var (number n) vars =
      add_one-shape skip bind_var vars (number n) hidden refl
  add_to_vars-shape skip bind_var (text s) vars =
      add_one-shape skip bind_var vars (text s) hidden refl
  add_to_vars-shape skip bind_var (time t) vars =
      add_one-shape skip bind_var vars (time t) hidden refl
  add_to_vars-shape skip bind_var (other o) vars =
      add_one-shape skip bind_var vars (other o) hidden refl
  add_to_vars-shape skip bind_var (expr exp args) vars = add_args-shape skip bind_var args exp vars

  add_args-shape :
      (skip : Bool) (bind_var : ℕ → String) (args : Values) (exp : String) (vars : List Value)
      → add_args skip bind_var (shape_values args) exp (map shape vars)
        ≡ shaped (add_args skip bind_var args exp vars)
  add_args-shape skip bind_var no_values exp vars = refl
  add_args-shape skip bind_var (more_values v args) exp vars =
      rw (add_to_vars-shape skip bind_var v vars) (
        add_args-shape skip bind_var args
          (if skip then exp else replace_mark (add_to_vars skip bind_var v vars).0 exp)
          (add_to_vars skip bind_var v vars).1)

-- A computation, and the one on shapes: the results are the same, and the variables keep their shape.
abbrev pub Commutes {ℓ} : {A : Type ℓ} → Build A → Build A → Type ℓ
Commutes m m' = (b : Builder) → m' (shape_builder b) ≡ ((m b).0, shape_builder (m b).1)

pub bind-Commutes :
    (qs : QueryScope) (v : Value) → Commutes (bind qs v) (bind (shape_of qs) (shape v))
unfolding bind
bind-Commutes qs v b = rw (add_to_vars-shape qs.skip_bindvar qs.scope.dialect.bind_var v b.vars)

pub bind_list-Commutes :
    (qs : QueryScope) (values : List Value)
    → Commutes (bind_list qs values) (bind_list (shape_of qs) (map shape values))
unfolding bind_list
bind_list-Commutes qs [] b = refl
bind_list-Commutes qs (v ∷ values) b =
    rw (bind-Commutes qs v b, bind_list-Commutes qs values (bind qs v b).1)

pub report-shape :
    (e : Error) (b : Builder) → report e (shape_builder b) ≡ shape_builder (report e b)
unfolding report
report-shape e b = refl

pub report_new-shape :
    (m : String) (b : Builder) → report_new m (shape_builder b) ≡ shape_builder (report_new m b)
unfolding report_new
report_new-shape m b = refl

-- Looking up a field finds the shape of the field.
abbrev pub shape_found : Option Field → Option Field
shape_found none = none
shape_found (some f) = some (shape_field f)

find_index-shape :
    (name column : String) (index : ℕ) (found : Option ℕ) (fields : List Field)
    → find_index name column index found (map shape_field fields)
      ≡ find_index name column index found fields
unfolding find_index
find_index-shape name column index found [] = refl
find_index-shape name column index found (f ∷ fields) = rw (
    find_index-shape name column (suc index) (if f.db_name == column then some index else found)
      fields)

get_elem?-shape :
    (fields : List Field) (i : ℕ)
    → get_elem? (map shape_field fields) i ≡ shape_found (get_elem? fields i)
get_elem?-shape [] i = refl
get_elem?-shape (f ∷ fields) zero = refl
get_elem?-shape (f ∷ fields) (suc i) = get_elem?-shape fields i

pub field_named-shape :
    (scope : Scope) (name : String)
    → field_named (shape_scope scope) name ≡ shape_found (field_named scope name)
unfolding field_by_name
field_named-shape scope name =
    let same = find_index-shape name (scope.to_column_name name) 0 none scope.fields in
    elim (Option-cases (find_index name (scope.to_column_name name) 0 none scope.fields)) [
      | inl missing ↦ ground (arith, same, missing)
      | inr (i, found) ↦ ground (arith, same, found, get_elem?-shape scope.fields i)
    ]

pub primary_fields-shape :
    (fields : List Field)
    → primary_fields (map shape_field fields) ≡ map shape_field (primary_fields fields)
unfolding primary_fields
primary_fields-shape [] = refl
primary_fields-shape (f ∷ fields) = ground (arith, primary_fields-shape fields)

main_primary-shape :
    (scope : Scope) (fields : List Field)
    → main_primary (shape_scope scope) (map shape_field fields)
      ≡ shape_found (main_primary scope fields)
unfolding main_primary
main_primary-shape scope [] = refl
main_primary-shape scope (f ∷ []) = refl
main_primary-shape scope (f ∷ g ∷ fields) = elim (Option-cases (field_named scope "id")) [
  | inl missing ↦ ground (arith, missing, field_named-shape scope "id")
  | inr (h, found) ↦ ground (arith, found, field_named-shape scope "id")
]

primary_field-shape :
    (scope : Scope) → primary_field (shape_scope scope) ≡ shape_found (primary_field scope)
unfolding primary_field
primary_field-shape scope =
    rw (primary_fields-shape scope.fields) (main_primary-shape scope (primary_fields scope.fields))

pub primary_key-shape : (scope : Scope) → primary_key (shape_scope scope) ≡ primary_key scope
unfolding primary_key
primary_key-shape scope = elim (Option-cases (primary_field scope)) [
  | inl missing ↦ rw (primary_key, primary_field-shape scope, missing) refl
  | inr (f, found) ↦ rw (primary_key, primary_field-shape scope, found) refl
]

pub primary_key_zero-shape :
    (scope : Scope) → primary_key_zero (shape_scope scope) ≡ primary_key_zero scope
unfolding primary_key_zero
primary_key_zero-shape scope = elim (Option-cases (primary_field scope)) [
  | inl missing ↦ rw (primary_key_zero, primary_field-shape scope, missing) refl
  | inr (f, found) ↦ rw (primary_key_zero, primary_field-shape scope, found) refl
]
