-- ===== src/Naming.antt =====
-- naming.go, with the initialisms and the `safeMap` of utils.go: how a name of Go becomes a name of
-- the database. Texts are in ASCII, as the names of exported fields mostly are; there a byte is a
-- character.
pub mod Cache
mod Witnesses
use Prim.Native.Char.{Char, code}
use gorm.Batch.Statement.{letter}
use gorm.Model.{has_prefix}
use gorm.Prelude.{
  ℕ, zero, suc, ◌-◌, String, Bool, true, false, ◌&&◌, ◌||◌, not, Option, none, some, List, [], ◌∷◌,
  ◌++◌, ◌==◌, leb, nat_eq, concat, if◌then◌else◌,
}

abbrev is_upper : Char → Bool
is_upper c = leb b'A' (code c) && leb (code c) b'Z'

abbrev is_number_char : Char → Bool
is_number_char c = leb b'0' (code c) && leb (code c) b'9'

abbrev is_underscore : Char → Bool
is_underscore c = nat_eq (code c) b'_'

-- strings.ToLower
unfoldable pub to_lower : String → String
to_lower String.[] = ""
to_lower (String.◌∷◌ c s) =
    String.◌∷◌ (if is_upper c then letter (code c - b'A') "abcdefghijklmnopqrstuvwxyz" c else c)
      (to_lower s)

-- commonInitialisms
abbrev pub common_initialisms : List String
common_initialisms =
    "API" ∷ "ASCII" ∷ "CPU" ∷ "CSS" ∷ "DNS" ∷ "EOF" ∷ "GUID" ∷ "HTML" ∷ "HTTP" ∷ "HTTPS" ∷ "ID"
    ∷ "IP" ∷ "JSON" ∷ "LHS" ∷ "QPS" ∷ "RAM" ∷ "RHS" ∷ "RPC" ∷ "SLA" ∷ "SMTP" ∷ "SSH" ∷ "TLS" ∷ "TTL"
    ∷ "UID" ∷ "UI" ∷ "UUID" ∷ "URI" ∷ "URL" ∷ "UTF8" ∷ "VM" ∷ "XML" ∷ "XSRF" ∷ "XSS" ∷ []

-- strings.Title(strings.ToLower(initialism)), for one word in capitals.
unfoldable pub titled : String → String
unfolding to_lower
titled String.[] = ""
titled (String.◌∷◌ c s) = String.◌∷◌ c (to_lower s)

-- The first initialism that a text begins with.
unfoldable pub initialism_at : List String → String → Option String
initialism_at [] s = none
initialism_at (word ∷ words) s = if has_prefix word s then some word else initialism_at words s

abbrev size : String → ℕ
size String.[] = zero
size (String.◌∷◌ c s) = suc (size s)

-- commonInitialismsReplacer.Replace, where `skip` characters of an initialism that was replaced are
-- left to pass over.
unfoldable pub replace_from : ℕ → String → String
unfolding titled initialism_at
replace_from skip String.[] = ""
replace_from (suc skip) (String.◌∷◌ c s) = replace_from skip s
replace_from zero (String.◌∷◌ c s) = elim (initialism_at common_initialisms (String.◌∷◌ c s)) [
  | none ↦ String.◌∷◌ c (replace_from zero s)
  | some word ↦ concat (titled word ∷ replace_from (size word - 1) s ∷ [])
]

abbrev is_empty_text : String → Bool
is_empty_text String.[] = true
is_empty_text (String.◌∷◌ c s) = false

-- The loop of `defaultNamer` behind its first round, and the last byte: the character before, the
-- cases of it and of the current character, and the current character with those behind.
unfoldable pub snake_from : Char → Bool → Bool → Char → String → String
snake_from previous last_case curr_case c String.[] = String.◌∷◌ c ""
snake_from previous last_case curr_case c (String.◌∷◌ d s) =
    let next_case = is_upper d in
    let next_number = is_number_char d in
    let rest = snake_from c curr_case next_case d s in
    if curr_case
    then (if last_case && (next_case || next_number)
        then String.◌∷◌ c rest
        else if not (is_underscore previous) && not (is_underscore d)
        then concat ("_" ∷ String.◌∷◌ c rest ∷ [])
        else String.◌∷◌ c rest)
    else if is_empty_text s && next_case && not next_number
    then String.◌∷◌ c (concat ("_" ∷ rest ∷ []))
    else String.◌∷◌ c rest

-- buf, from `value`.
unfoldable pub snake : String → String
unfolding snake_from
snake String.[] = ""
snake (String.◌∷◌ c String.[]) = String.◌∷◌ c ""
snake (String.◌∷◌ c (String.◌∷◌ d s)) = String.◌∷◌ c (snake_from c true (is_upper d) d s)

-- The name that `defaultNamer` computes.
unfoldable pub db_name_of : String → String
unfolding replace_from snake to_lower
db_name_of name = to_lower (snake (replace_from zero name))

-- safeMap, whose `Get` gives an empty text for a key that is missing.
abbrev pub SafeMap : Type 0
SafeMap = List (String × String)

-- safeMap.Get and safeMap.Set
unfoldable pub get : SafeMap → String → String
get [] key = ""
get ((k, v) ∷ entries) key = if k == key then v else get entries key

abbrev pub set : SafeMap → String → String → SafeMap
set entries key value = (key, value) ∷ entries

-- defaultNamer, with the map as it leaves it.
unfoldable pub default_namer : SafeMap → String → String × SafeMap
unfolding get db_name_of
default_namer smap name =
    if not (get smap name == "")
    then (get smap name, smap)
    else if name == ""
    then ("", smap)
    else (db_name_of name, set smap name (db_name_of name))

-- A `Namer` that is nil, or one of the program.
abbrev pub Namer : Type 0
Namer = String → String

pub record NamingStrategy : Type 0 where
  pub db : Option Namer
  pub table : Option Namer
  pub column : Option Namer

abbrev or_default : Namer → Option Namer → Option Namer
or_default namer none = some namer
or_default namer (some given) = some given

-- AddNamingStrategy: the strategy that it sets.
abbrev pub add_naming_strategy : Namer → NamingStrategy → NamingStrategy
add_naming_strategy default ns = record {
  db = or_default default ns.db;
  table = or_default default ns.table;
  column = or_default default ns.column;
}
