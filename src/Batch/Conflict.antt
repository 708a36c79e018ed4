-- ===== src/Batch/Conflict.antt =====
-- The conflict target of `SaveInBatches`, and the columns that its update leaves alone.
use gorm.Model.{Scope, quote, primary_fields, Field, Result, ok, err, Result-cases}
use gorm.Batch.Save.{
  created_at_column, target, conflict_column, conflict_columns, primary_columns, fixed_columns,
  updated_columns, statement_columns,
}
use gorm.Batch.Suffix.{keep_target, mysql_option, option_text, insert_option}
use gorm.Prelude.{
  ℕ, suc, ◌<◌, String, ◌≡◌, refl, sym, ap, ◌∙◌, inl, inr, Bool, true, false, ◌&&◌, ◌||◌, not, some,
  List, [], ◌∷◌, ◌++◌, map, ◌==◌, length, contains, arith, eq_iff, Bool-cases,
}

contains-updated_columns :
    (fixed columns : List String) (c : String)
    → contains (updated_columns fixed columns) c ≡ (contains columns c && not (contains fixed c))
unfolding updated_columns
contains-updated_columns fixed [] c = refl
contains-updated_columns fixed (d ∷ columns) c =
    ground (arith, eq_iff d c, contains-updated_columns fixed columns c)

-- The number of target columns: one for each conflict name, or one for each primary field.
abbrev pub target_size : Scope → List String → ℕ
target_size scope [] = length (primary_fields scope.fields)
target_size scope (name ∷ conflict) = length (name ∷ conflict)

abbrev pub is_ok {ℓ} : {A : Type ℓ} → Result A → Bool
is_ok (ok _) = true
is_ok (err _) = false

map_size : (f : Field → String) (fields : List Field) → length (map f fields) ≡ length fields
map_size f [] = refl
map_size f (x ∷ fields) = ap suc (map_size f fields)

conflict_columns-size :
    (scope : Scope) (conflict names : List String)
    → conflict_columns scope conflict ≡ ok names
    → length names ≡ length conflict
unfolding conflict_columns
conflict_columns-size scope [] names h = cc
conflict_columns-size scope (name ∷ conflict) names h =
    elim (Result-cases (conflict_column scope name)) [
      | inr (e, failed) ↦ ground (arith, failed)
      | inl (column, found) ↦ elim (Result-cases (conflict_columns scope conflict)) [
        | inr (e, failed) ↦ ground (arith, found, failed)
        | inl (columns, rest) ↦
            ground (arith, found, rest, conflict_columns-size scope conflict columns rest)
      ]
    ]

primary_columns-size :
    (scope : Scope) (columns names : List String)
    → primary_columns scope columns ≡ ok names
    → (length names ≡ length columns) × (0 < length names)
unfolding primary_columns
primary_columns-size scope [] names h = absurd cc
primary_columns-size scope (c ∷ columns) names h = (ground (arith), ground arith)

contains-append :
    (xs ys : List String) (c : String) → contains (xs ++ ys) c ≡ (contains xs c || contains ys c)
contains-append [] ys c = refl
contains-append (x ∷ xs) ys c = ground (arith, contains-append xs ys c)

-- If the conflict target resolves, it has a column for every conflict name, or for every primary
-- field where no name was given, and at least one.
pub target-size :
    (scope : Scope) (conflict names : List String)
    → target scope conflict ≡ ok names
    → (length names ≡ target_size scope conflict) × (0 < length names)
unfolding target
target-size scope [] names h =
    let (sized, positive) =
      primary_columns-size scope (map (λ f. f.db_name) (primary_fields scope.fields)) names h in
    (sized ∙ map_size (λ f. f.db_name) (primary_fields scope.fields), positive)
target-size scope (name ∷ conflict) names h =
    ground (arith, conflict_columns-size scope (name ∷ conflict) names h)

-- A column that identifies the row, or `created_at`.
abbrev pub identifies : Scope → List String → String → Bool
identifies scope quoted c =
    contains quoted c
    || (contains (map (λ f. quote scope f.db_name) (primary_fields scope.fields)) c
        || contains (created_at_column scope) c)

contains-fixed_columns :
    (scope : Scope) (names : List String) (c : String)
    → contains (fixed_columns scope names) c ≡ identifies scope (map (quote scope) names) c
unfolding fixed_columns
contains-fixed_columns scope names c =
    let primary = map (λ f. quote scope f.db_name) (primary_fields scope.fields) in
    contains-append (map (quote scope) names) (primary ++ created_at_column scope) c
    ∙ ap (λ b. contains (map (quote scope) names) c || b)
        (contains-append primary (created_at_column scope) c)

-- Where statementColumns succeeds, the update of an upsert sets a column exactly if the INSERT has
-- it and it is neither in the conflict target nor a primary key nor created_at.
pub statement_columns-updates :
    (scope : Scope) (conflict columns quoted updates : List String)
    → statement_columns scope conflict columns ≡ ok (quoted, updates)
    → (c : String) → contains updates c ≡ (contains columns c && not (identifies scope quoted c))
unfolding statement_columns
statement_columns-updates scope conflict columns quoted updates h c =
    elim (Result-cases (target scope conflict)) [
      | inr (e, failed) ↦ absurd (ground (arith, failed))
      | inl (names, found) ↦
          let outcome : Result (List String × List String) =
            ok (map (quote scope) names, updated_columns (fixed_columns scope names) columns) in
          let both : outcome ≡ ok (quoted, updates) = ground (arith, found) in
          let targets : map (quote scope) names ≡ quoted = cc both in
          let chosen : updated_columns (fixed_columns scope names) columns ≡ updates = cc both in
          rw (
            sym targets,
            sym chosen,
            contains-updated_columns (fixed_columns scope names) columns c,
            contains-fixed_columns scope names c,
          )
    ]

abbrev pub supported : String → Bool
supported name = name == "mysql" || name == "sqlite3" || name == "postgres"

map_positive :
    (f : String → String) (names : List String) → 0 < length names → 0 < length (map f names)
map_positive f [] h = absurd (omega (arith, h))
map_positive f (x ∷ names) h = omega arith

mysql_option-returns :
    (quoted updates : List String)
    → 0 < length quoted
    → (text : String) × (mysql_option quoted updates ≡ some text)
unfolding mysql_option keep_target
mysql_option-returns [] updates h = absurd (omega (arith, h))
mysql_option-returns (q ∷ quoted) [] h = (_, refl)
mysql_option-returns (q ∷ quoted) (u ∷ updates) h = (_, refl)

option_text-returns :
    (scope : Scope) (quoted updates : List String)
    → 0 < length quoted
    → (r : Result String) × (option_text scope quoted updates ≡ some r)
      × (is_ok r ≡ supported scope.dialect.name)
unfolding option_text
option_text-returns scope quoted updates h =
    let (text, returned) = mysql_option-returns quoted updates h in
    elim (Bool-cases (scope.dialect.name == "mysql")) [
      | inl mysql ↦ rw (mysql, returned) (ok text, refl, refl)
      | inr other ↦
          elim (Bool-cases (scope.dialect.name == "sqlite3" || scope.dialect.name == "postgres")) [
            | inl known ↦ rw (other, known) (_, refl, refl)
            | inr unknown ↦ rw (other, unknown) (_, refl, refl)
          ]
    ]

-- insertOption returns, without the panic of an index out of range, and it returns a suffix
-- exactly if the conflict target resolves and the dialect is MySQL, SQLite or PostgreSQL.
pub insert_option-returns :
    (scope : Scope) (conflict columns : List String)
    → (r : Result String) × (insert_option scope conflict columns ≡ some r)
      × (is_ok r ≡ (is_ok (target scope conflict) && supported scope.dialect.name))
unfolding insert_option statement_columns
insert_option-returns scope conflict columns = elim (Result-cases (target scope conflict)) [
  | inr (e, failed) ↦ rw (failed, insert_option, statement_columns) (err e, refl, refl)
  | inl (names, found) ↦
      rw (found, insert_option, statement_columns)
        (option_text-returns scope (map (quote scope) names)
          (updated_columns (fixed_columns scope names) columns)
          (map_positive (quote scope) names (target-size scope conflict names found).1))
]
