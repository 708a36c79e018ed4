-- ===== src/Dameng/Types.antt =====
-- `DataTypeOf` of dialects/dameng/dialect.go: the type of a column.
use gorm.Batch.Names.{trim_space}
use gorm.Batch.Save.{equal_fold}
use gorm.Model.{has_prefix, drop_text, show_int}
use gorm.Naming.{to_lower}
use gorm.Prelude.Int.{ℤ, pos, is_non_positive}
use gorm.Prelude.{
  String, Bool, true, false, ◌&&◌, not, Option, none, some, [], ◌∷◌, ◌==◌, contains, concat,
  if◌then◌else◌,
}

-- The kind of a field's value, as far as the dialect tells kinds apart.
pub data Kind : Type 0 where
  boolean : Kind
  integer : Kind
  floating : Kind
  characters : Kind
  timestamp : Kind
  bytes : Kind
  unsupported : Kind

-- What `ParseFieldStructForDialect` finds of a field, and its tags AUTO_INCREMENT and DEFAULT.
pub record Declared : Type 0 where
  pub kind : Kind
  pub typ : String
  pub size : ℤ
  pub extra : String
  pub is_primary_key : Bool
  pub auto_increment : Option String
  pub default : Option String

-- The first switch.
unfoldable pub known_type : String → String
unfolding to_lower trim_space
known_type typ =
    let name = to_lower (trim_space typ) in
    if contains ("text" ∷ "longtext" ∷ "mediumtext" ∷ "json" ∷ "jsonb" ∷ []) name
    then "CLOB"
    else if contains ("blob" ∷ "bytea" ∷ []) name
    then "BLOB"
    else if contains ("bool" ∷ "boolean" ∷ []) name
    then "BIT"
    else typ

unfoldable pub is_identity : Declared → Bool
unfolding equal_fold
is_identity d = elim d.auto_increment [
  | none ↦ d.is_primary_key
  | some increment ↦ not (equal_fold increment "false")
]

-- The switch on the kind of the value.
unfoldable pub kind_type : Kind → Declared → String
unfolding is_identity
kind_type boolean d = "BIT"
kind_type integer d = if is_identity d then "BIGINT IDENTITY(1,1)" else "BIGINT"
kind_type floating d = "DOUBLE"
kind_type characters d =
    concat ("VARCHAR(" ∷ show_int (if is_non_positive d.size then pos 255 else d.size) ∷ ")" ∷ [])
kind_type timestamp d = "TIMESTAMP(6)"
kind_type bytes d = "BLOB"
kind_type unsupported d = ""

unfoldable pub type_of : Declared → String
unfolding known_type kind_type
type_of d = let known = known_type d.typ in if known == "" then kind_type d.kind d else known

-- strings.Replace(s, old, new, 1), for an old text that is not empty.
unfoldable pub replace_first : String → String → String → String
replace_first old new String.[] = ""
replace_first old new (String.◌∷◌ c s) =
    let rest = replace_first old new s in
    if has_prefix old (String.◌∷◌ c s)
    then concat (new ∷ drop_text old (String.◌∷◌ c s) ∷ [])
    else String.◌∷◌ c rest

abbrev is_boolean : Kind → Bool
is_boolean boolean = true
is_boolean _ = false

-- The numeric literal of a boolean one, or an empty text.
unfoldable pub bit_literal : String → String
unfolding to_lower trim_space
bit_literal literal =
    let name = to_lower (trim_space literal) in
    if name == "true" then "1" else if name == "false" then "0" else ""

-- The part of `DataTypeOf` that translates the default of a boolean.
unfoldable pub bit_default : Declared → String → String
unfolding bit_literal replace_first
bit_default d typ = elim d.default [
  | none ↦ d.extra
  | some literal ↦
      if is_boolean d.kind && equal_fold (trim_space typ) "BIT" && not (bit_literal literal == "")
      then replace_first (trim_space (concat ("DEFAULT " ∷ literal ∷ [])))
          (concat ("DEFAULT " ∷ bit_literal literal ∷ [])) d.extra
      else d.extra
]

-- dmDialect.DataTypeOf; `none` is the panic.
unfoldable pub data_type_of : Declared → Option String
unfolding type_of bit_default
data_type_of d =
    if type_of d == ""
    then none
    else some (trim_space (concat (type_of d ∷ " " ∷ bit_default d (type_of d) ∷ [])))
