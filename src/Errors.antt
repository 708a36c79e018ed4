-- ===== src/Errors.antt =====
-- errors.go, and the methods of `DB` in main.go that keep its `Error` field.
-- An `error` value is nil, a value with an identity (`errors.New` allocates one, and `==` compares
-- the pointers) and a message, or a slice `Errors` of such values. Comparing a slice with another
-- kind of error is `false`.
pub mod Add
pub mod Field
mod Witnesses
use mathlib.Core.Option
use gorm.Prelude.{
  ℕ, String, Bool, true, false, ◌||◌, Option, none, some, List, [], ◌∷◌, nat_eq, join,
  if◌then◌else◌,
}

mutual
  pub data Error : Type 0 where
    null : Error
    plain : (identity : ℕ) (message : String) → Error
    many : Errors → Error

  pub data Errors : Type 0 where
    empty : Errors
    next : Error → Errors → Errors

-- ErrRecordNotFound and the other package variables, by their identities.
abbrev pub err_record_not_found : Error
err_record_not_found = plain 0 "record not found"

abbrev pub err_invalid_sql : Error
err_invalid_sql = plain 1 "invalid SQL"

abbrev pub err_invalid_transaction : Error
err_invalid_transaction = plain 2 "no valid transaction"

abbrev pub err_cant_start_transaction : Error
err_cant_start_transaction = plain 3 "can't start transaction"

abbrev pub err_unaddressable : Error
err_unaddressable = plain 4 "using unaddressable value"

-- `a == b` on interface values.
unfoldable pub same : Error → Error → Bool
same null null = true
same (plain a _) (plain b _) = nat_eq a b
same _ _ = false

-- The inner loop of `Add`: whether some `e` of the slice equals `err`.
unfoldable pub known : Errors → Error → Bool
unfolding same
known empty err = false
known (next e errs) err = same err e || known errs err

-- append(errs, err)
unfoldable pub snoc : Errors → Error → Errors
snoc empty err = next err empty
snoc (next e errs) err = next e (snoc errs err)

-- Errors.Add, one case of its loop body for each kind of error.
unfoldable mutual
  unfolding known snoc

  pub add_one : Error → Errors → Errors
  add_one null errs = errs
  add_one (plain a m) errs = if known errs (plain a m) then errs else snoc errs (plain a m)
  add_one (many es) errs = add es errs

  pub add : Errors → Errors → Errors
  add empty errs = errs
  add (next err new) errs = add new (add_one err errs)

-- A type assertion to `Errors` that succeeds, and the loop under it.
unfoldable pub is_record_not_found_error : Error → Bool
unfolding known
is_record_not_found_error (many errs) = known errs err_record_not_found
is_record_not_found_error err = same err err_record_not_found

-- Errors.Error; `none` is the panic of calling `Error` on a nil error.
abbrev pub cons_message : Option String → Option (List String) → Option (List String)
cons_message (some m) (some ms) = some (m ∷ ms)
cons_message _ _ = none

unfoldable mutual
  pub message : Error → Option String
  message null = none
  message (plain a m) = some m
  message (many errs) = Option.map (join "; ") (messages errs)

  pub messages : Errors → Option (List String)
  messages empty = some []
  messages (next e errs) = cons_message (message e) (messages errs)
