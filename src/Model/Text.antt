-- ===== src/Model/Text.antt =====
-- Text functions of the standard library and the patterns of scope.go, as far as gorm uses them.
use Prim.Native.Char.{code}
use gorm.Model.Vars.{split_on}
use gorm.Prelude.{
  ℕ, zero, suc, ◌+◌, ◌/◌, ◌%◌, String, Bool, true, false, ◌&&◌, ◌||◌, not, List, [], ◌∷◌, ◌==◌, ltb,
  leb, nat_eq, concat, if◌then◌else◌,
}
use gorm.Prelude.Int.{ℤ, pos, negsuc}

-- Unicode's simple folding, where the other side is an ASCII letter.
unfoldable pub fold_code : ℕ → ℕ
fold_code c =
    if leb 65 c && leb c 90
    then c + 32
    else if nat_eq c 0x17f
    then 115
    else if nat_eq c 0x212a
    then 107
    else c

-- Whether a text begins with another one.
unfoldable pub has_prefix : String → String → Bool
has_prefix String.[] s = true
has_prefix (String.◌∷◌ a p) String.[] = false
has_prefix (String.◌∷◌ a p) (String.◌∷◌ b s) = nat_eq (code a) (code b) && has_prefix p s

abbrev pub drop_text : String → String → String
drop_text String.[] s = s
drop_text (String.◌∷◌ a p) String.[] = ""
drop_text (String.◌∷◌ a p) (String.◌∷◌ b s) = drop_text p s

-- strings.TrimPrefix, with the prefix first.
unfoldable pub trim_prefix : String → String → String
unfolding has_prefix
trim_prefix p s = if has_prefix p s then drop_text p s else s

-- strings.TrimSuffix, with the suffix first.
unfoldable pub trim_suffix : String → String → String
trim_suffix p String.[] = ""
trim_suffix p (String.◌∷◌ c s) =
    let rest = trim_suffix p s in if String.◌∷◌ c s == p then "" else String.◌∷◌ c rest

-- The digits of a number, for more fuel than it has digits.
digit : ℕ → String
digit n =
    if nat_eq n 0
    then "0"
    else if nat_eq n 1
    then "1"
    else if nat_eq n 2
    then "2"
    else if nat_eq n 3
    then "3"
    else if nat_eq n 4
    then "4"
    else if nat_eq n 5
    then "5"
    else if nat_eq n 6
    then "6"
    else if nat_eq n 7
    then "7"
    else if nat_eq n 8
    then "8"
    else "9"

digits : ℕ → ℕ → String
digits zero n = ""
digits (suc fuel) n = elim (ltb n 10) [
  | true ↦ digit n
  | false ↦ concat (digits fuel (n / 10) ∷ digit (n % 10) ∷ [])
]

-- The verbs %v and %d for an integer.
unfoldable pub show_int : ℤ → String
unfolding digit digits
show_int (pos n) = digits (suc n) n
show_int (negsuc n) = concat ("-" ∷ digits (suc (suc n)) (suc n) ∷ [])

is_digit : ℕ → Bool
is_digit c = leb b'0' c && leb c b'9'

unfoldable pub is_word : ℕ → Bool
unfolding is_digit
is_word c = (leb b'a' c && leb c b'z') || (leb b'A' c && leb c b'Z') || nat_eq c b'_' || is_digit c

unfoldable pub all_word : String → Bool
all_word String.[] = true
all_word (String.◌∷◌ c s) = is_word (code c) && all_word s

abbrev all_parts : List String → Bool
all_parts [] = true
all_parts (part ∷ parts) = not (part == "") && all_word part && all_parts parts

-- columnRegexp
unfoldable pub is_column : String → Bool
unfolding is_word all_word split_on
is_column s = all_parts (split_on b'.' s)

is_blank_char : ℕ → Bool
is_blank_char c = nat_eq c 32 || nat_eq c 9 || nat_eq c 10 || nat_eq c 12 || nat_eq c 13

-- The three parts of isNumberRegexp: blanks (0), digits (1), blanks (2).
number_from : ℕ → String → Bool
number_from phase String.[] = not (nat_eq phase 0)
number_from phase (String.◌∷◌ c s) =
    let digit_here = is_digit (code c) && ltb phase 2 in
    let next = if digit_here then 1 else if nat_eq phase 0 then 0 else 2 in
    (digit_here || is_blank_char (code c)) && number_from next s

-- isNumberRegexp
unfoldable pub is_number : String → Bool
unfolding is_digit is_blank_char number_from
is_number s = number_from 0 s

-- Whether a text begins with a pattern in lower case, up to simple folding.
folds_to : String → String → Bool
unfolding fold_code
folds_to String.[] s = true
folds_to (String.◌∷◌ a p) String.[] = false
folds_to (String.◌∷◌ a p) (String.◌∷◌ b s) = nat_eq (fold_code (code b)) (code a) && folds_to p s

abbrev any_folds : List String → String → Bool
any_folds [] s = false
any_folds (p ∷ ps) s = folds_to p s || any_folds ps s

abbrev comparisons : List String
comparisons = " = " ∷ " <> " ∷ " > " ∷ " >= " ∷ " < " ∷ " <= " ∷ " like " ∷ " is " ∷ " in " ∷ []

-- comparisonRegexp
unfoldable pub has_comparison : String → Bool
unfolding folds_to
has_comparison String.[] = false
has_comparison (String.◌∷◌ c s) = any_folds comparisons (String.◌∷◌ c s) || has_comparison s
