-- ===== src/Write/Columns.antt =====
-- `createCallback` and the batch insert write the same columns and bind the same values.
use mathlib.Core.List.{append-nil, append_assoc}
use mathlib.Core.Path.{subst}
use gorm.Batch.Rows.{make_row}
use gorm.Batch.Statement.{bind_values}
use gorm.Batch.Written.{is_written, written, make_row-written}
use gorm.Model.{Value, Field, quote, field_named, changeable_field, add_to_vars}
use gorm.Query.Builder.{Builder, QueryScope, bind}
use gorm.Write.{Outside, is_changeable, select_attrs}
use gorm.Write.Create.{
  Collected, nothing_collected, add_column, add_foreign, add_field, add_fields, create_column_value,
}
use gorm.Prelude.{
  ℕ, String, ◌≡◌, refl, sym, ap, ◌∙◌, Bool, true, false, ◌&&◌, not, none, List, [], ◌∷◌, ◌++◌, map,
  arith, Option-cases, Bool-cases, inl, inr, if◌then◌else◌,
}

-- An operation without selected or omitted columns, without expressions, and with bound variables.
pub record Simple (out : Outside) (qs : QueryScope) : Type 0 where
  pub selects : qs.search.selects ≡ none
  pub omits : qs.search.omits ≡ []
  pub bound : qs.skip_bindvar ≡ false
  pub expressions : (s : String) → out.column_expression s ≡ none

is_changeable-Simple :
    (out : Outside) (qs : QueryScope) → Simple out qs → (f : Field) → is_changeable out qs f ≡ true
unfolding is_changeable changeable_field select_attrs
is_changeable-Simple out qs simple f =
    rw (is_changeable, select_attrs, simple.selects, simple.omits) refl

module _ (out : Outside) (qs : QueryScope) (simple : Simple out qs) where
  add_foreign-Simple :
      (keys : List String) (st : Collected) (b : Builder) → add_foreign out qs keys st b ≡ (st, b)
  unfolding add_foreign
  add_foreign-Simple [] st b = refl
  add_foreign-Simple (key ∷ keys) st b = elim (Option-cases (field_named qs.scope key)) [
    | inl missing ↦ rw (add_foreign, missing) (add_foreign-Simple keys st b)
    | inr (f, found) ↦
        rw (add_foreign, found, is_changeable-Simple out qs simple f) (add_foreign-Simple keys st b)
  ]

  abbrev Added : Type 0
  Added = Collected × Builder

  abbrev left_blank : Field → Bool
  left_blank f = f.is_normal && not f.is_ignored && f.is_blank && f.has_default_value

  abbrev with_blank : Field → Collected → Collected
  with_blank f st = record st { blank_columns = st.blank_columns ++ quote qs.scope f.db_name ∷ [] }

  -- What one field adds.
  abbrev added : Field → Collected → Builder → Added
  added f st b =
      if is_written qs.scope none f
      then add_column out qs f st b
      else if left_blank f
      then (with_blank f st, b)
      else (st, b)

  add_field-eq : (f : Field) (st : Collected) (b : Builder) → add_field out qs f st b ≡ added f st b
  unfolding add_field
  add_field-eq f st b = elim (Option-cases f.relationship) [
    | inl alone ↦ ground (arith, alone, is_changeable-Simple out qs simple f)
    | inr (r, linked) ↦ ground (
      arith,
      linked,
      is_changeable-Simple out qs simple f,
      add_foreign-Simple r.foreign_db_names st b,
    )
  ]

  -- The columns, placeholders and variables of a result, where the entries `w` are added.
  abbrev Wrote : List (String × Value) → Collected → Builder → Added → Type 0
  Wrote w st b r =
      (r.0.columns ≡ st.columns ++ map (λ e. e.0) w)
      × (r.0.placeholders
          ≡ st.placeholders ++ (bind_values qs.scope.dialect.bind_var (map (λ e. e.1) w) b.vars).0)
      × (r.1.vars ≡ (bind_values qs.scope.dialect.bind_var (map (λ e. e.1) w) b.vars).1)

  -- One column added, and the rest.
  mark_of : Field → Builder → String × List Value
  mark_of f b = add_to_vars false qs.scope.dialect.bind_var f.value b.vars

  add_column-eq :
      (f : Field) (st : Collected) (b : Builder)
      → add_column out qs f st b ≡ (
        record st {
          columns = st.columns ++ quote qs.scope f.db_name ∷ [];
          placeholders = st.placeholders ++ (mark_of f b).0 ∷ [];
        },
        record b { vars = (mark_of f b).1 },
      )
  unfolding add_column bind mark_of
  add_column-eq f st b =
      ap (λ v. add_column_of v qs.skip_bindvar) (create_value f)
      ∙ ap (add_column_of f.value) simple.bound
    where
      add_column_of : Value → Bool → Added
      add_column_of v skip = (
        record st {
          columns = st.columns ++ quote qs.scope f.db_name ∷ [];
          placeholders =
              st.placeholders ++ (add_to_vars skip qs.scope.dialect.bind_var v b.vars).0 ∷ [];
        },
        record b { vars = (add_to_vars skip qs.scope.dialect.bind_var v b.vars).1 },
      )

      create_value : (g : Field) → create_column_value out g ≡ g.value
      create_value g = rw (create_column_value, simple.expressions g.db_name)

  Wrote-cons :
      (f : Field) (w : List (String × Value)) (st : Collected) (b : Builder) (r : Added)
      → Wrote w (add_column out qs f st b).0 (add_column out qs f st b).1 r
      → Wrote ((quote qs.scope f.db_name, f.value) ∷ w) st b r
  unfolding bind_values mark_of
  Wrote-cons f w st b r wrote =
      let (names, marks, vars) = subst (λ x. Wrote w x.0 x.1 r) (add_column-eq f st b) wrote in
      (
        names ∙ append_assoc st.columns (quote qs.scope f.db_name ∷ []) (map (λ e. e.0) w),
        marks ∙ append_assoc st.placeholders ((mark_of f b).0 ∷ []) _,
        vars,
      )

  step :
      (f : Field) (fields : List Field) (w : List (String × Value)) (st : Collected) (b : Builder)
      (x : Added)
      → added f st b ≡ x
      → Wrote w st b (add_fields out qs fields x.0 x.1)
      → Wrote w st b (add_fields out qs (f ∷ fields) st b)
  unfolding add_fields
  step f fields w st b x h wrote =
      subst (λ y. Wrote w st b (add_fields out qs fields y.0 y.1)) (sym (add_field-eq f st b ∙ h))
        wrote

  add_fields-Wrote :
      (fields : List Field) (st : Collected) (b : Builder)
      → Wrote (written qs.scope none fields) st b (add_fields out qs fields st b)
  unfolding written
  add_fields-Wrote [] st b =
      unfold add_fields bind_values in
      (sym (append-nil st.columns), sym (append-nil st.placeholders), refl)
  add_fields-Wrote (f ∷ fields) st b = elim (Bool-cases (is_written qs.scope none f)) [
    | inl is ↦
        let x = add_column out qs f st b in
        rw is (
          step f fields ((quote qs.scope f.db_name, f.value) ∷ written qs.scope none fields) st b x
            (rw is)
            (Wrote-cons f (written qs.scope none fields) st b (add_fields out qs fields x.0 x.1)
              (add_fields-Wrote fields x.0 x.1)))
    | inr not_so ↦ elim (Bool-cases (left_blank f)) [
      | inl blank ↦ rw not_so (
          step f fields (written qs.scope none fields) st b (with_blank f st, b)
            (rw (not_so, blank)) (add_fields-Wrote fields (with_blank f st) b))
      | inr skipped ↦ rw not_so (
          step f fields (written qs.scope none fields) st b (st, b) (rw (not_so, skipped))
            (add_fields-Wrote fields st b))
    ]
  ]

-- Create and the batch insert of the same fields write the same columns, bind the same variables
-- in the same order and use the same placeholders, whatever columns the row before had, for an
-- operation without selected or omitted columns and without column expressions that binds its
-- variables.
pub add_fields-make_row :
    (out : Outside) (qs : QueryScope) (b : Builder) (expected : List String) (address : ℕ)
    → Simple out qs
    → ((add_fields out qs qs.scope.fields nothing_collected b).0.columns
        ≡ (make_row qs.scope none expected address qs.scope.fields).columns)
      × ((
        (add_fields out qs qs.scope.fields nothing_collected b).0.placeholders,
        (add_fields out qs qs.scope.fields nothing_collected b).1.vars,
      )
          ≡ bind_values qs.scope.dialect.bind_var
              (make_row qs.scope none expected address qs.scope.fields).values
              b.vars)
add_fields-make_row out qs b expected address simple =
    let (columns, values) = make_row-written qs.scope none expected address qs.scope.fields in
    let (names, marks, vars) = add_fields-Wrote out qs simple qs.scope.fields nothing_collected b in
    (names ∙ sym columns, rw values (λ i. (marks i, vars i)))
