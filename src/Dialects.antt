-- ===== src/Dialects.antt =====
-- The parts of the built-in dialects that make texts: dialect_common.go, dialect_mysql.go,
-- dialect_postgres.go and dialects/mssql/mssql.go. `parse` is `strconv.ParseInt` of a printed value,
-- and `sha1` the digest of a text in hexadecimal digits.
pub mod Keys
mod Witnesses
use Prim.Native.Char.{code}
use gorm.Model.{Value, nothing, Result, ok, err, ◌>>=◌, show_int}
use gorm.Prelude.Int.{ℤ, pos, negsuc}
use gorm.Prelude.{
  ℕ, zero, suc, String, Bool, true, false, ◌&&◌, ◌||◌, List, [], ◌∷◌, ◌==◌, leb, nat_eq, concat,
  join, behind, if◌then◌else◌,
}

pub is_alphanumeric : ℕ → Bool
is_alphanumeric c =
    (leb b'a' c && leb c b'z') || (leb b'A' c && leb c b'Z') || (leb b'0' c && leb c b'9')

-- keyNameRegex.ReplaceAllString(s, "_"), where `pending` characters of a match have been read.
unfoldable pub clean : (pending : Bool) → String → String
unfolding is_alphanumeric
clean false String.[] = ""
clean true String.[] = "_"
clean false (String.◌∷◌ c s) =
    let kept = clean false s in
    let dropped = clean true s in if is_alphanumeric (code c) then String.◌∷◌ c kept else dropped
clean true (String.◌∷◌ c s) =
    let kept = clean false s in
    let dropped = clean true s in
    if is_alphanumeric (code c) then behind "_" (String.◌∷◌ c kept) else dropped

-- DefaultForeignKeyNamer.BuildKeyName
unfoldable pub build_key_name : String → String → List String → String
unfolding clean
build_key_name kind table fields =
    clean false (concat (kind ∷ "_" ∷ table ∷ "_" ∷ join "_" fields ∷ []))

-- utf8.RuneCountInString
abbrev pub rune_count : String → ℕ
rune_count String.[] = zero
rune_count (String.◌∷◌ c s) = suc (rune_count s)

-- destRunes[:n], where there are more.
unfoldable pub take_runes : ℕ → String → String
take_runes zero s = ""
take_runes (suc n) String.[] = ""
take_runes (suc n) (String.◌∷◌ c s) = String.◌∷◌ c (take_runes n s)

-- mysql.BuildKeyName, for at least one field.
unfoldable pub mysql_build_key_name :
    (String → String) → String → String → String → List String → String
unfolding build_key_name take_runes
mysql_build_key_name sha1 kind table field fields =
    let key_name = build_key_name kind table (field ∷ fields) in
    if leb (rune_count key_name) 64
    then key_name
    else behind (take_runes 24 (clean false field)) (sha1 key_name)

abbrev clause : String → ℤ → String → String
clause name (pos n) rest = concat (" " ∷ name ∷ " " ∷ show_int (pos n) ∷ rest ∷ [])
clause name (negsuc n) rest = ""

-- A limit or an offset of commonDialect.LimitAndOffsetSQL.
unfoldable pub common_part : (Value → Result ℤ) → String → Value → Result String
common_part parse name nothing = ok ""
common_part parse name v = do n ← parse v; ok (clause name n "")

-- commonDialect.LimitAndOffsetSQL
unfoldable pub common_limit_and_offset_sql : (Value → Result ℤ) → Value → Value → Result String
unfolding common_part
common_limit_and_offset_sql parse limit offset = do
  first ← common_part parse "LIMIT" limit
  second ← common_part parse "OFFSET" offset
  ok (concat (first ∷ second ∷ []))

-- The part of mysql.LimitAndOffsetSQL behind the limit, whose offset needs a limit.
unfoldable pub mysql_offset : (Value → Result ℤ) → Value → ℤ → Result String
unfolding common_part
mysql_offset parse offset (negsuc n) = ok ""
mysql_offset parse offset (pos n) = do
  second ← common_part parse "OFFSET" offset
  ok (concat (clause "LIMIT" (pos n) "" ∷ second ∷ []))

-- mysql.LimitAndOffsetSQL
unfoldable pub mysql_limit_and_offset_sql : (Value → Result ℤ) → Value → Value → Result String
unfolding mysql_offset
mysql_limit_and_offset_sql parse nothing offset = ok ""
mysql_limit_and_offset_sql parse limit offset = do n ← parse limit; mysql_offset parse offset n

abbrev mssql_offset : String → String
mssql_offset s = if s == "" then " OFFSET 0 ROWS" else s

abbrev mssql_fetch : ℤ → String → String
mssql_fetch (pos n) s =
    concat (mssql_offset s ∷ " FETCH NEXT " ∷ show_int (pos n) ∷ " ROWS ONLY" ∷ [])
mssql_fetch (negsuc n) s = s

abbrev offset_clause : (Value → Result ℤ) → Value → Result String
offset_clause parse nothing = ok ""
offset_clause parse v = do n ← parse v; ok (clause "OFFSET" n " ROWS")

abbrev fetch_clause : (Value → Result ℤ) → Value → String → Result String
fetch_clause parse nothing s = ok s
fetch_clause parse v s = do n ← parse v; ok (mssql_fetch n s)

-- mssql.LimitAndOffsetSQL
unfoldable pub mssql_limit_and_offset_sql : (Value → Result ℤ) → Value → Value → Result String
mssql_limit_and_offset_sql parse limit offset = do
  s ← offset_clause parse offset
  fetch_clause parse limit s

-- mssql.LastInsertIDOutputInterstitial
unfoldable pub mssql_output : String → List String → String
mssql_output column [] = ""
mssql_output column (_ ∷ _) = concat ("OUTPUT Inserted." ∷ column ∷ [])

-- postgres.LastInsertIDReturningSuffix
unfoldable pub postgres_returning : String → String → String
postgres_returning table key = concat ("RETURNING " ∷ table ∷ "." ∷ key ∷ [])
