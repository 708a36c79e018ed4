-- ===== src/OnConflict/Mixed.antt =====
-- A batch of `createBatchWithOption` of on_conflict.go whose first element has a blank key and whose
-- second element has one.
use gorm.Model.{Value, Field, Scope, changeable_field, is_named, quote}
use gorm.Batch.Rows.{Txn}
use gorm.Batch.Statement.{replace_dollars}
use gorm.Batch.Create.{Ending}
use gorm.OnConflict.Batches.{
  Upsert, pointer_item, scope_of, bound_field, bound_relation, bound_fields, columns_of,
  create_batch_with_option, exec_upsert, upsert_text,
}
use gorm.OnConflict.Rows.{IsPlain, bound_count, create_batch_with_option-counts}
use gorm.Prelude.{
  ℕ, suc, String, ◌≡◌, refl, ap, ◌∙◌, sym, Bool, true, false, ◌&&◌, ◌||◌, ◌==◌, if◌then◌else◌, not,
  none, List, [], ◌∷◌, length, arith, ◌+◌, length-append, map,
}

abbrev pub AllAlone : List Field → Type 0
AllAlone [] = Unit
AllAlone (f ∷ fields) = (f.relationship ≡ none) × AllAlone fields

-- Two objects that differ in their key alone, their first field, which the first one leaves blank.
pub record IsMixed (u : Upsert) (t : Txn) (first second : ℕ) (key : Field) (v : Value)
    (rest : List Field) : Type 0 where
  pub first_object : t.object first ≡ (record key { is_blank = true }) ∷ rest
  pub second_object : t.object second ≡ (record key { is_blank = false; value = v }) ∷ rest
  pub is_key : key.is_primary_key ≡ true
  pub is_column : (key.is_normal && not key.is_ignored) ≡ true
  pub is_changeable : changeable_field u.selects u.omits key ≡ true
  pub alone : AllAlone rest

bound_field-scope :
    (u : Upsert) (scope scope' : Scope) (f : Field)
    → f.relationship ≡ none
    → bound_field u scope f ≡ bound_field u scope' f
unfolding bound_field
bound_field-scope u scope scope' f alone =
    let same = ap (bound_relation u scope) alone ∙ sym (ap (bound_relation u scope') alone) in
    ap
      (λ l.
        if changeable_field u.selects u.omits f
        then (if f.is_normal && not f.is_ignored
            then (if not f.is_primary_key || not f.is_blank then f ∷ [] else [])
            else l)
        else [])
      same

bound_fields-scope :
    (u : Upsert) (scope scope' : Scope) (fields : List Field)
    → AllAlone fields
    → bound_fields u scope fields ≡ bound_fields u scope' fields
unfolding bound_fields
bound_fields-scope u scope scope' [] h = refl
bound_fields-scope u scope scope' (f ∷ fields) (alone, h) =
    cc (bound_field-scope u scope scope' f alone, bound_fields-scope u scope scope' fields h)

is_named-same :
    (names : List String) (key : Field) (b : Bool) (v : Value)
    → is_named names (record key { is_blank = b; value = v }) ≡ is_named names key
is_named-same [] key b v = refl
is_named-same (a ∷ names) key b v =
    ap (λ t. (key.name == a || key.db_name == a) || t) (is_named-same names key b v)

changeable_field-same :
    (selects omits : List String) (key : Field) (b : Bool) (v : Value)
    → changeable_field selects omits (record key { is_blank = b; value = v })
      ≡ changeable_field selects omits key
unfolding changeable_field
changeable_field-same [] omits key b v = ap not (is_named-same omits key b v)
changeable_field-same (a ∷ selects) omits key b v = is_named-same (a ∷ selects) key b v

bound_field-key :
    (u : Upsert) (scope : Scope) (key : Field) (b : Bool) (v : Value)
    → key.is_primary_key ≡ true
    → (key.is_normal && not key.is_ignored) ≡ true
    → changeable_field u.selects u.omits key ≡ true
    → length (bound_field u scope (record key { is_blank = b; value = v })) ≡ (if b then 0 else 1)
unfolding bound_field
bound_field-key u scope key b v primary normal changeable =
    ground (arith, changeable_field-same u.selects u.omits key b v, primary, normal, changeable)

bound_count-key :
    (u : Upsert) (t : Txn) (address : ℕ) (key : Field) (b : Bool) (v : Value) (rest : List Field)
    (scope : Scope)
    → t.object address ≡ (record key { is_blank = b; value = v }) ∷ rest
    → key.is_primary_key ≡ true
    → (key.is_normal && not key.is_ignored) ≡ true
    → changeable_field u.selects u.omits key ≡ true
    → AllAlone rest
    → bound_count u t address ≡ (if b then 0 else 1) + length (bound_fields u scope rest)
unfolding bound_fields
bound_count-key u t address key b v rest scope found primary normal changeable alone =
    let s = scope_of u address t in
    let k : Field = record key { is_blank = b; value = v } in
    ap (λ fields. length (bound_fields u s fields)) found
    ∙ length-append (bound_field u s k) (bound_fields u s rest)
    ∙ cc (
      bound_field-key u s key b v primary normal changeable,
      bound_fields-scope u s scope rest alone,
    )

-- What `Exec` and what follows it do for a statement with these columns and rows.
abbrev pub sent :
    Upsert → Txn → ℕ → ℕ → String → List String → List Value → List (List String) → Ending
sent u t first second column columns vars rows =
    exec_upsert u (pointer_item first ∷ pointer_item second ∷ [])
      (record {
        sql = replace_dollars 0 (
            upsert_text (quote (u.env.scope first) (u.env.table_name first)) (column ∷ columns) rows
              u.insert_option);
        vars = vars;
      })
      t

two_rows :
    (rows : List (List String)) (a b : ℕ)
    → map length rows ≡ a ∷ b ∷ []
    → (row row' : List String) × (rows ≡ row ∷ row' ∷ []) × (length row ≡ a) × (length row' ≡ b)
two_rows [] a b h = absurd (cc h)
two_rows (row ∷ []) a b h = absurd (cc h)
two_rows (row ∷ row' ∷ []) a b h = (row, row', refl, cc h, cc h)
two_rows (row ∷ row' ∷ row'' ∷ rows) a b h = absurd (cc h)

-- For a model without methods and without blank time stamps and a handle without an error, let two
-- objects differ in their key alone, which is the first of their fields, a normal field that the
-- search neither leaves unselected nor omits: the first leaves it blank and the second sets it,
-- and no other field has a relationship. If there is a column besides the key, the batch of
-- pointers to the two sends the statement with the columns of the first, in which the first row
-- has a placeholder for each column and the second row one more than there are columns.
pub create_batch_with_option-mixed :
    (u : Upsert) (t : Txn) (first second : ℕ) (key : Field) (v : Value) (rest : List Field)
    (column : String) (columns : List String)
    → IsPlain u t
    → IsMixed u t first second key v rest
    → columns_of u (scope_of u first t) ≡ column ∷ columns
    → (row row' : List String) × (vars : List Value) × (create_batch_with_option u
          (pointer_item first ∷ pointer_item second ∷ [])
          t
        ≡ sent u t first second column columns vars (row ∷ row' ∷ []))
      × (length row ≡ length (column ∷ columns))
      × (length row' ≡ suc (length (column ∷ columns)))
create_batch_with_option-mixed u t first second key v rest column columns h mixed some_columns =
    let scope = scope_of u first t in
    let a =
      bound_count-key u t first key true key.value rest scope mixed.first_object mixed.is_key
        mixed.is_column mixed.is_changeable mixed.alone in
    let b =
      bound_count-key u t second key false v rest scope mixed.second_object mixed.is_key
        mixed.is_column mixed.is_changeable mixed.alone in
    let (rows, vars, statement, count, counts) =
      create_batch_with_option-counts u (pointer_item first) (pointer_item second ∷ []) t first
        column columns h tt refl some_columns in
    let (row, row', two, m, n) =
      two_rows rows (bound_count u t first) (bound_count u t second) counts in
    (
      row,
      row',
      vars,
      statement ∙ ap (sent u t first second column columns vars) two,
      m ∙ sym count,
      omega (arith, n, a, b, count),
    )
