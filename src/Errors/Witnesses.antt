-- ===== src/Errors/Witnesses.antt =====
-- The theorems on errors.go and on the `Error` field, at concrete errors.
use gorm.Prelude.{◌≡◌, refl, ◌||◌, some, arith, nat_eq}
use gorm.Errors.{null, plain, many, Errors, empty, next, known, add, message}
use gorm.Errors.Add.{IsProper, mentions, add-IsProper, known-add}
use gorm.Errors.Field.{get_errors, add_error, known-add_error}

-- A nil, an error twice, and a slice inside.
abbrev mixed : Errors
mixed =
    next null
      (next (plain 7 "a") (next (many (next (plain 8 "b") (next (plain 7 "a") empty))) empty))

abbrev held : Errors
held = next (plain 8 "b") empty

message_joined : message (many (add mixed empty)) ≡ some "a; b"
unfolding message add
message_joined = refl

add-IsProper_example : IsProper (add mixed held)
unfolding known
add-IsProper_example = add-IsProper mixed held (refl, tt)

known-add_example :
    known (add mixed held) (plain 9 "c") ≡ (known held (plain 9 "c") || mentions 9 mixed)
known-add_example = known-add mixed held 9 "c"

known-add_error_example :
    known (get_errors (add_error (plain 8 "b") (plain 7 "a"))) (plain 8 "b")
    ≡ (known (get_errors (plain 8 "b")) (plain 8 "b") || nat_eq 7 8)
known-add_error_example = known-add_error (plain 8 "b") 7 "a" 8 "b" (omega arith)
