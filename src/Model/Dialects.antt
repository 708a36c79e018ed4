-- ===== src/Model/Dialects.antt =====
-- The part of the interface `Dialect` of dialect.go, and of batch_dialect.go, that the write path
-- calls. `none` in an extension means that the dialect does not implement it.
use gorm.Errors.{Error}
use gorm.Model.Fields.{Value}
use gorm.Prelude.{ℕ, String, Option, List, ◌≡◌, refl, ◌⊎◌, inl, inr}

pub data Result {ℓ} (A : Type ℓ) : Type ℓ where
  ok : A → Result A
  err : Error → Result A

infixl 5 ◌>>=◌
abbrev pub ◌>>=◌ {ℓ κ} : {A : Type ℓ} {B : Type κ} → Result A → (A → Result B) → Result B
ok a >>= f = f a
err e >>= f = err e

pub record Dialect : Type 0 where
  pub name : String
  pub bind_var : ℕ → String
  pub quote : String → String
  pub default_value_str : String
  -- LimitAndOffsetSQL, of the limit and the offset.
  pub limit_and_offset_sql : Value → Value → Result String
  pub last_insert_id_output_interstitial : String → String → List String → String
  pub last_insert_id_returning_suffix : String → String → String
  -- BatchCreateDialect; a limit that is not positive is 0.
  pub batch_create_max_rows : Option ℕ
  -- BatchSaveDialect: table, columns, conflict columns, update columns, rows of placeholders.
  pub batch_save_sql :
      Option (String → List String → List String → List String → List (List String) → Result String)

pub Result-cases {ℓ} :
    {A : Type ℓ} (r : Result A) → ((a : A) × (r ≡ ok a)) ⊎ ((e : Error) × (r ≡ err e))
Result-cases (ok a) = inl (a, refl)
Result-cases (err e) = inr (e, refl)
