-- ===== src/Dameng/Merge.antt =====
-- When the MERGE statement of the Dameng dialect is built, and with `statementColumns` of batch_save.go.
use gorm.Batch.Conflict.{statement_columns-updates, target-size}
use gorm.Batch.Save.{statement_columns, target, updated_columns, fixed_columns}
use gorm.Dameng.{each_present, merge_sql, batch_save_sql, is_nil}
use gorm.Model.{Scope, Result, ok, err, ◌>>=◌, Result-cases, quote}
use gorm.Prelude.{
  ℕ, ◌<◌, map, String, ◌≡◌, refl, ap, sym, ◌∙◌, Bool, true, false, ◌&&◌, not, List, [], ◌∷◌,
  contains, ==_refl, arith, inl, inr, length, nat_eq,
}

abbrev pub is_ok {ℓ} : {A : Type ℓ} → Result A → Bool
is_ok (ok _) = true
is_ok (err _) = false

abbrev pub all_in : List String → List String → Bool
all_in columns [] = true
all_in columns (name ∷ names) = contains columns name && all_in columns names

-- What BatchSaveSQL asks of its arguments.
abbrev pub accepts : List String → List String → List String → List (List String) → Bool
accepts columns conflicts updates (row ∷ []) =
    not (is_nil columns)
    && nat_eq (length row) (length columns)
    && not (is_nil conflicts)
    && all_in columns conflicts
    && all_in columns updates
accepts columns conflicts updates _ = false

each_present-ok :
    (fresh : ℕ) (kind : String) (text : String → String) (columns names : List String)
    → is_ok (each_present fresh kind text columns names) ≡ all_in columns names
unfolding each_present
each_present-ok fresh kind text columns [] = refl
each_present-ok fresh kind text columns (name ∷ names) =
    ground (arith, each_present-ok fresh kind text columns names)

bind_ok :
    {A : Type 0} {B : Type 0} (r : Result A) (f : A → Result B) (b : Bool)
    → ((a : A) → is_ok (f a) ≡ b)
    → is_ok (r >>= f) ≡ (is_ok r && b)
bind_ok (ok a) f b h = h a
bind_ok (err e) f b h = refl

and_true : (b : Bool) → (b && true) ≡ b
and_true true = refl
and_true false = refl

merge_sql-ok :
    (fresh : ℕ) (table : String) (columns conflicts updates row : List String)
    → is_ok (merge_sql fresh table columns conflicts updates row)
      ≡ (all_in columns conflicts && all_in columns updates)
unfolding merge_sql
merge_sql-ok fresh table columns conflicts updates row =
    bind_ok (each_present fresh "conflict" _ columns conflicts) _ (all_in columns updates) (λ on.
      bind_ok (each_present fresh "update" _ columns updates) _ true (λ _. refl)
      ∙ and_true (is_ok (each_present fresh "update" _ columns updates))
      ∙ each_present-ok fresh "update" _ columns updates)
    ∙ ap (λ b. b && all_in columns updates) (each_present-ok fresh "conflict" _ columns conflicts)

pub batch_save_sql-accepts :
    (fresh : ℕ) (table : String) (columns conflicts updates : List String)
    (values : List (List String))
    → is_ok (batch_save_sql fresh table columns conflicts updates values)
      ≡ accepts columns conflicts updates values
unfolding batch_save_sql
batch_save_sql-accepts fresh table columns conflicts updates [] = refl
batch_save_sql-accepts fresh table columns conflicts updates (row ∷ []) =
    ground (arith, merge_sql-ok fresh table columns conflicts updates row)
batch_save_sql-accepts fresh table columns conflicts updates (row ∷ second ∷ rows) = refl

contains-all_in :
    (columns names : List String)
    → ((c : String) → contains names c ≡ true → contains columns c ≡ true)
    → all_in columns names ≡ true
contains-all_in columns [] h = refl
contains-all_in columns (name ∷ names) h =
    ground (arith, h name, ==_refl name, contains-all_in columns names (λ c k. h c (ground arith)))

statement_columns-all_in :
    (scope : Scope) (conflict columns quoted updates : List String)
    → statement_columns scope conflict columns ≡ ok (quoted, updates)
    → all_in columns updates ≡ true
statement_columns-all_in scope conflict columns quoted updates h =
    contains-all_in columns updates
      λ c k. ground (arith, k, statement_columns-updates scope conflict columns quoted updates h c)

is_nil-map :
    (f : String → String) (names : List String) → 0 < length names → is_nil (map f names) ≡ false
is_nil-map f [] h = absurd (omega (arith, h))
is_nil-map f (name ∷ names) h = refl

statement_columns-positive :
    (scope : Scope) (conflict columns quoted updates : List String)
    → statement_columns scope conflict columns ≡ ok (quoted, updates)
    → is_nil quoted ≡ false
unfolding statement_columns
statement_columns-positive scope conflict columns quoted updates h =
    elim (Result-cases (target scope conflict)) [
      | inr (e, failed) ↦ absurd (ground (arith, failed))
      | inl (names, found) ↦
          let outcome : Result (List String × List String) =
            ok (map (quote scope) names, updated_columns (fixed_columns scope names) columns) in
          let both : outcome ≡ ok (quoted, updates) = ground (arith, found) in
          let targets : map (quote scope) names ≡ quoted = cc both in
          sym (ap is_nil targets)
          ∙ is_nil-map (quote scope) names (target-size scope conflict names found).1
    ]

-- Where statementColumns succeeds, the MERGE of one row with its columns is built exactly if there
-- is a column, the row has as many values as columns, and the columns hold the conflict target:
-- the columns to update never fail it.
pub batch_save_sql-statement_columns :
    (scope : Scope) (fresh : ℕ) (table : String) (conflict columns quoted updates row : List String)
    → statement_columns scope conflict columns ≡ ok (quoted, updates)
    → is_ok (batch_save_sql fresh table columns quoted updates (row ∷ []))
      ≡ (not (is_nil columns) && nat_eq (length row) (length columns) && all_in columns quoted)
batch_save_sql-statement_columns scope fresh table conflict columns quoted updates row h =
    batch_save_sql-accepts fresh table columns quoted updates (row ∷ [])
    ∙ ground (
      arith,
      statement_columns-all_in scope conflict columns quoted updates h,
      statement_columns-positive scope conflict columns quoted updates h,
    )
