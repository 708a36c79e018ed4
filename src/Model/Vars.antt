-- ===== src/Model/Vars.antt =====
-- `Quote` and `AddToVars` of scope.go, and `addExtraSpaceIfExist` of utils.go.
use Prim.Native.Char.{Char, code}
use gorm.Prelude.{
  ℕ, suc, String, Bool, false, ◌||◌, List, [], ◌∷◌, ◌++◌, ◌==◌, length, nat_eq, concat, join, map,
  if◌then◌else◌,
}
use gorm.Model.Fields.{Value, nothing, expr, Values, no_values, more_values}

-- strings.Contains, for a separator of one character.
unfoldable pub has_char : ℕ → String → Bool
has_char sep String.[] = false
has_char sep (String.◌∷◌ c s) = nat_eq (code c) sep || has_char sep s

abbrev pub push : Char → List String → List String
push c [] = []
push c (part ∷ parts) = (String.◌∷◌ c part) ∷ parts

-- strings.Split, for a separator of one character.
unfoldable pub split_on : ℕ → String → List String
split_on sep String.[] = "" ∷ []
split_on sep (String.◌∷◌ c s) =
    let rest = split_on sep s in if nat_eq (code c) sep then "" ∷ rest else push c rest

-- Scope.Quote, for the quoting of the dialect.
unfoldable pub quote_name : (String → String) → String → String
unfolding has_char split_on
quote_name quote str =
    if has_char b'.' str then join "." (map quote (split_on b'.' str)) else quote str

-- strings.Replace(exp, "?", placeholder, 1)
unfoldable pub replace_mark : String → String → String
replace_mark placeholder String.[] = ""
replace_mark placeholder (String.◌∷◌ c s) =
    let rest = replace_mark placeholder s in
    if nat_eq (code c) b'?' then concat (placeholder ∷ s ∷ []) else String.◌∷◌ c rest

-- Scope.AddToVars, for the flag `skip_bindvar`: the text that stands for a value, and the variables
-- with those that it binds. The arguments of an expression are bound in place of its question marks,
-- which stay where the flag is set.
unfoldable mutual
  unfolding replace_mark

  pub add_to_vars : Bool → (ℕ → String) → Value → List Value → String × List Value
  add_to_vars skip bind_var (expr exp args) vars = add_args skip bind_var args exp vars
  add_to_vars skip bind_var nothing vars =
      (if skip then "?" else bind_var (suc (length vars)), vars ++ nothing ∷ [])
  add_to_vars skip bind_var v vars =
      (if skip then "?" else bind_var (suc (length vars)), vars ++ v ∷ [])

  pub add_args : Bool → (ℕ → String) → Values → String → List Value → String × List Value
  add_args skip bind_var no_values exp vars = (exp, vars)
  add_args skip bind_var (more_values arg args) exp vars =
      let (mark, vars') = add_to_vars skip bind_var arg vars in
      add_args skip bind_var args (if skip then exp else replace_mark mark exp) vars'

-- addExtraSpaceIfExist
unfoldable pub add_extra_space_if_exist : String → String
add_extra_space_if_exist str = if str == "" then "" else concat (" " ∷ str ∷ [])
