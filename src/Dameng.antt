-- ===== src/Dameng.antt =====
-- dialects/dameng/dialect.go: the dialect of the Dameng database.
pub mod Identifiers
pub mod Merge
pub mod Types
mod Witnesses
use Prim.Native.Char.{Char, code}
use gorm.Errors.{Error, plain}
use gorm.Batch.Statement.{to_upper}
use gorm.Model.{Value, nothing, Result, ok, err, ◌>>=◌, show_int}
use gorm.Prelude.Int.{ℤ, pos, negsuc}
use gorm.Prelude.{
  ℕ, String, Bool, true, false, ◌&&◌, ◌||◌, not, Option, none, some, List, [], ◌∷◌, ◌++◌, ◌==◌,
  length, contains, nat_eq, concat, join, behind, if◌then◌else◌,
}

abbrev pub is_quote : Char → Bool
is_quote c = nat_eq (code c) b'"'

-- strings.ReplaceAll of a quote by two.
unfoldable pub double : String → String
double String.[] = ""
double (String.◌∷◌ c s) =
    let rest = double s in
    if is_quote c then String.◌∷◌ c (String.◌∷◌ c rest) else String.◌∷◌ c rest

-- A text with a quote behind.
unfoldable pub closed : String → String
closed String.[] = "\""
closed (String.◌∷◌ c s) = String.◌∷◌ c (closed s)

-- dmDialect.Quote
unfoldable pub quote_identifier : String → String
unfolding double closed
quote_identifier name = behind "\"" (closed (double name))

-- strings.ReplaceAll of two quotes by one; with `pending` a quote has been read and not been written.
unfoldable pub halve : (pending : Bool) → String → String
halve false String.[] = ""
halve true String.[] = "\""
halve false (String.◌∷◌ c s) =
    let quoted = halve true s in
    let rest = halve false s in if is_quote c then quoted else String.◌∷◌ c rest
halve true (String.◌∷◌ c s) =
    let rest = halve false s in
    if is_quote c then String.◌∷◌ c rest else concat ("\"" ∷ String.◌∷◌ c rest ∷ [])

-- A text, by its first character, without the quote at its end; `none` where it ends otherwise.
unfoldable pub before_quote : Char → String → Option String
before_quote c String.[] = if is_quote c then some "" else none
before_quote c (String.◌∷◌ d s) = elim (before_quote d s) [
  | none ↦ none
  | some t ↦ some (String.◌∷◌ c t)
]

-- name[1:len(name)-1], where the test on the first and the last byte succeeds.
unfoldable pub inner_name : String → Option String
unfolding before_quote
inner_name String.[] = none
inner_name (String.◌∷◌ c String.[]) = none
inner_name (String.◌∷◌ c (String.◌∷◌ d s)) = if is_quote c then before_quote d s else none

-- indexIdentifier
unfoldable pub index_identifier : String → String
unfolding inner_name halve
index_identifier name = elim (inner_name name) [ none ↦ to_upper name | some t ↦ halve false t ]

-- indexIdentifierQuoted
unfoldable pub index_identifier_quoted : String → String
unfolding inner_name halve
index_identifier_quoted name = elim (inner_name name) [ none ↦ name | some t ↦ halve false t ]

-- dmDialect.NormalizeIndexAndColumn
unfoldable pub normalize_index_and_column : String → String → String × String
unfolding quote_identifier index_identifier_quoted
normalize_index_and_column index column = (quote_identifier (index_identifier_quoted index), column)

-- strings.SplitN(table, ".", 2), where it has two parts.
unfoldable pub split_table : String → Option (String × String)
split_table String.[] = none
split_table (String.◌∷◌ c s) =
    let rest = split_table s in
    if nat_eq (code c) b'.'
    then some ("", s)
    else (elim rest [ none ↦ none | some (owner, name) ↦ some (String.◌∷◌ c owner, name) ])

-- The database, as the dialect asks it: the schema, and whether a count is positive.
pub record Catalog : Type 0 where
  pub current_database : String
  pub count : String → List String → Bool

-- dmDialect.tableName
unfoldable pub table_name : Catalog → String → String × String
unfolding split_table
table_name db table = elim (split_table table) [
  | none ↦ (db.current_database, table)
  | some parts ↦ parts
]

-- dmDialect.HasTable, HasColumn, HasIndex and HasForeignKey
unfoldable pub has_table : Catalog → String → Bool
unfolding table_name
has_table db table =
    let (owner, name) = table_name db table in
    db.count "SELECT COUNT(*) FROM ALL_TABLES WHERE OWNER=? AND TABLE_NAME=?" (owner ∷ name ∷ [])

unfoldable pub has_column : Catalog → String → String → Bool
unfolding table_name
has_column db table column =
    let (owner, name) = table_name db table in
    db.count "SELECT COUNT(*) FROM ALL_TAB_COLUMNS WHERE OWNER=? AND TABLE_NAME=? AND COLUMN_NAME=?"
      (owner ∷ name ∷ column ∷ [])

unfoldable pub has_index : Catalog → String → String → Bool
unfolding table_name index_identifier
has_index db table index =
    let (owner, name) = table_name db table in
    db.count "SELECT COUNT(*) FROM ALL_INDEXES WHERE OWNER=? AND TABLE_NAME=? AND INDEX_NAME=?"
      (owner ∷ name ∷ index_identifier index ∷ [])

unfoldable pub has_foreign_key : Catalog → String → String → Bool
unfolding table_name
has_foreign_key db table key =
    let (owner, name) = table_name db table in
    db.count
      "SELECT COUNT(*) FROM ALL_CONSTRAINTS WHERE OWNER=? AND TABLE_NAME=? AND CONSTRAINT_NAME=? AND CONSTRAINT_TYPE='R'"
      (owner ∷ name ∷ key ∷ [])

-- The statement of dmDialect.RemoveIndex.
unfoldable pub remove_index : Catalog → String → String → String
unfolding table_name index_identifier quote_identifier
remove_index db table index =
    let (owner, _) = table_name db table in
    concat (
      "DROP INDEX " ∷ quote_identifier owner ∷ "." ∷ quote_identifier (index_identifier index) ∷ [])

-- One entry of the loop of `LimitAndOffsetSQL`; `parse` is `strconv.ParseInt` of the printed value.
unfoldable pub limit_part : (Value → Result ℤ) → String → Value → Result String
limit_part parse name nothing = ok ""
limit_part parse name v = do n ← parse v; ok (non_negative n)
  where
    non_negative : ℤ → String
    non_negative (pos n) = concat (" " ∷ name ∷ " " ∷ show_int (pos n) ∷ [])
    non_negative (negsuc n) = ""

-- dmDialect.LimitAndOffsetSQL
unfoldable pub limit_and_offset_sql : (Value → Result ℤ) → Value → Value → Result String
unfolding limit_part
limit_and_offset_sql parse limit offset = do
  first ← limit_part parse "LIMIT" limit
  second ← limit_part parse "OFFSET" offset
  ok (concat (first ∷ second ∷ []))

-- selects
unfoldable pub source_columns : List String → List String → List String
source_columns (v ∷ row) (column ∷ columns) =
    concat (v ∷ " AS " ∷ column ∷ []) ∷ source_columns row columns
source_columns _ _ = []

abbrev pub source : String → String
source column = concat ("\"gorm_source\"." ∷ column ∷ [])

-- A loop over columns that have to be present, with the message for the first that is not.
unfoldable pub each_present :
    ℕ → String → (String → String) → List String → List String → Result (List String)
each_present fresh kind text columns [] = ok []
each_present fresh kind text columns (name ∷ names) = elim (contains columns name) [
  | false ↦ err (
      plain fresh (
        concat
          ("gorm: DM MERGE " ∷ kind ∷ " column " ∷ name ∷ " is missing from the source row" ∷ [])))
  | true ↦ do rest ← each_present fresh kind text columns names; ok (text name ∷ rest)
]

abbrev on_text : String → String
on_text column = concat ("\"gorm_target\"." ∷ column ∷ "=" ∷ source column ∷ [])

abbrev assignment : String → String
assignment column = concat (column ∷ "=" ∷ source column ∷ [])

abbrev sources : List String → List String
sources [] = []
sources (column ∷ columns) = source column ∷ sources columns

abbrev matched_text : List String → String
matched_text [] = ""
matched_text (a ∷ assignments) =
    concat (" WHEN MATCHED THEN UPDATE SET " ∷ join "," (a ∷ assignments) ∷ [])

-- The part of `BatchSaveSQL` behind its guard.
unfoldable pub merge_sql :
    ℕ → String → List String → List String → List String → List String → Result String
unfolding each_present source_columns
merge_sql fresh table columns conflicts updates row = do
  on ← each_present fresh "conflict" on_text columns conflicts
  assignments ← each_present fresh "update" assignment columns updates
  ok (
      concat (
        "MERGE INTO "
        ∷ table
        ∷ " \"gorm_target\" USING (SELECT "
        ∷ join "," (source_columns row columns)
        ∷ " FROM DUAL) \"gorm_source\" ON ("
        ∷ join " AND " on
        ∷ ")"
        ∷ matched_text assignments
        ∷ " WHEN NOT MATCHED THEN INSERT ("
        ∷ join "," columns
        ∷ ") VALUES ("
        ∷ join "," (sources columns)
        ∷ ")"
        ∷ []))

abbrev pub is_nil : List String → Bool
is_nil [] = true
is_nil (_ ∷ _) = false

abbrev refused : ℕ → Result String
refused fresh = err (plain fresh "gorm: DM MERGE requires one source row and a conflict target")

-- dmDialect.BatchSaveSQL; `fresh` is the identity of an error that is made now.
unfoldable pub batch_save_sql :
    ℕ → String → List String → List String → List String → List (List String) → Result String
unfolding merge_sql
batch_save_sql fresh table columns conflicts updates (row ∷ []) =
    if is_nil columns || not (nat_eq (length row) (length columns)) || is_nil conflicts
    then refused fresh
    else merge_sql fresh table columns conflicts updates row
batch_save_sql fresh table columns conflicts updates _ = refused fresh
