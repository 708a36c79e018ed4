-- ===== src/Errors/Field.antt =====
-- The `Error` field of `DB`, which `AddError`, `GetErrors` and `RecordNotFound` of main.go keep.
use gorm.Prelude.{
  ℕ, String, ◌≡◌, ◌≢◌, Bool, true, false, ◌||◌, arith, nat_eq, refl, ◌∙◌, if◌then◌else◌,
}
use gorm.Errors.{
  Error, null, plain, many, Errors, empty, next, same, known, add, add_one,
  is_record_not_found_error, err_record_not_found,
}
use gorm.Errors.Add.{known-add_plain}

-- DB.GetErrors
unfoldable pub get_errors : Error → Errors
get_errors (many errs) = errs
get_errors null = empty
get_errors err = next err empty

-- `len(errors) > 1`
abbrev pub is_plural : Errors → Bool
is_plural (next _ (next _ _)) = true
is_plural _ = false

settle : Errors → Error → Error
settle errors err = if is_plural errors then many errors else err

-- DB.AddError: the new field, from the old one and the error that is added.
unfoldable pub add_error : Error → Error → Error
unfolding get_errors add same settle
add_error old null = old
add_error old err =
    if same err err_record_not_found
    then err
    else settle (add (next err empty) (get_errors old)) err

-- DB.RecordNotFound
unfoldable pub record_not_found : Error → Bool
unfolding get_errors known
record_not_found old = known (get_errors old) err_record_not_found

-- AddError never loses that something failed: the field is nil after it only if it was nil and nil
-- was added.
pub add_error-eq-null : (old err : Error) → add_error old err ≡ null → (old ≡ null) × (err ≡ null)
unfolding add_error
add_error-eq-null old null h = (h, refl)
add_error-eq-null old err h = ground arith

-- Where one error is left, it is the one that was added.
known-settle :
    (errs : Errors) (b : ℕ) (n : String) (a : ℕ) (m : String)
    → known (get_errors (settle (add_one (plain b n) errs) (plain b n))) (plain a m)
      ≡ known (add_one (plain b n) errs) (plain a m)
unfolding settle add known get_errors same
known-settle empty b n a m = refl
known-settle (next null empty) b n a m = ground arith
known-settle (next (many es) empty) b n a m = ground arith
known-settle (next (plain c k) empty) b n a m = ground arith
known-settle (next y (next z errs)) b n a m = ground arith

add_error-plain :
    (old : Error) (b : ℕ) (n : String)
    → b ≢ 0
    → add_error old (plain b n) ≡ settle (add_one (plain b n) (get_errors old)) (plain b n)
unfolding add_error
add_error-plain old b n h = ground arith

-- A plain error (none that is a slice Errors) other than ErrRecordNotFound joins those that the
-- Error field held: after AddError, a plain error is among GetErrors exactly if it was before or
-- is the new one.
pub known-add_error :
    (old : Error) (b : ℕ) (n : String) (a : ℕ) (m : String)
    → b ≢ 0
    → known (get_errors (add_error old (plain b n))) (plain a m)
      ≡ (known (get_errors old) (plain a m) || nat_eq b a)
known-add_error old b n a m h =
    rw (add_error-plain old b n h)
      (known-settle (get_errors old) b n a m ∙ known-add_plain (get_errors old) a b m n)

-- DB.RecordNotFound and the package function IsRecordNotFoundError agree on the Error field.
pub record_not_found-eq : (old : Error) → record_not_found old ≡ is_record_not_found_error old
unfolding record_not_found is_record_not_found_error
record_not_found-eq null = refl
record_not_found-eq (many errs) = refl
record_not_found-eq (plain a m) = ground arith
