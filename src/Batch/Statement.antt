-- ===== src/Batch/Statement.antt =====
-- The statement that `executeBatchCreateRows` of batch_create.go sends for the rows of one group.
use Prim.Native.Char.{Char, code}
use gorm.Model.{
  Value, Scope, quote, make_error, Result, ok, err, ◌>>=◌, add_to_vars, add_extra_space_if_exist,
}
use gorm.Batch.Limits.{same_batch_columns}
use gorm.Batch.Rows.{Row, Statement, Txn, Env}
use gorm.Batch.Save.{statement_columns, generated_primary_insert}
use gorm.Batch.Suffix.{insert_option}
use gorm.Prelude.{
  ℕ, zero, suc, ◌+◌, ◌-◌, String, Bool, true, false, ◌&&◌, ◌||◌, not, Option, none, some, List, [],
  ◌∷◌, ◌==◌, map, length, ltb, leb, nat_eq, concat, join, if◌then◌else◌,
}

abbrev dollars : ℕ → String
dollars k = if nat_eq k 0 then "" else if nat_eq k 1 then "$" else "$$"

-- strings.Replace(sql, "$$$", "?", -1), where `k` dollars have been read and not been written.
unfoldable pub replace_dollars : ℕ → String → String
replace_dollars k String.[] = dollars k
replace_dollars k (String.◌∷◌ c s) =
    let dollar = nat_eq (code c) b'$' in
    let rest = replace_dollars (if dollar && ltb k 2 then k + 1 else 0) s in
    if dollar
    then (if ltb k 2 then rest else concat ("?" ∷ rest ∷ []))
    else concat (dollars k ∷ String.◌∷◌ c rest ∷ [])

-- The letter of an alphabet that `k` others stand before, or `c` behind its end.
abbrev pub letter : ℕ → String → Char → Char
letter k String.[] c = c
letter zero (String.◌∷◌ a s) c = a
letter (suc k) (String.◌∷◌ a s) c = letter k s c

-- strings.ToUpper, for a text in ASCII.
unfoldable pub to_upper : String → String
to_upper String.[] = ""
to_upper (String.◌∷◌ c s) =
    String.◌∷◌
      (if leb b'a' (code c) then letter (code c - b'a') "ABCDEFGHIJKLMNOPQRSTUVWXYZ" c else c)
      (to_upper s)

-- insertModifier
unfoldable pub modifier_of : Option String → String
unfolding to_upper
modifier_of none = ""
modifier_of (some value) = let upper = to_upper value in if upper == "INTO" then "" else upper

abbrev pub is_empty : List String → Bool
is_empty [] = true
is_empty (_ ∷ _) = false

abbrev option_or_empty : Option String → String
option_or_empty none = ""
option_or_empty (some value) = value

-- extraOption; `none` is a panic.
unfoldable pub extra_option :
    Env → Scope → Option (List String) → List String → Option (Result String)
extra_option env scope none columns = some (ok (option_or_empty env.insert_option))
extra_option env scope (some conflict) columns = elim scope.dialect.batch_save_sql [
  | some _ ↦ some (ok (option_or_empty env.insert_option))
  | none ↦
      if is_empty columns
      then some (ok (option_or_empty env.insert_option))
      else insert_option scope conflict columns
]

abbrev pub SaveSql : Type 0
SaveSql = String → List String → List String → List String → List (List String) → Result String

-- fullSave with quotedTarget and updates, after the guards on it.
unfoldable pub full_save :
    Scope
    → String
    → Option (List String)
    → List String
    → Result (Option (SaveSql × List String × List String))
full_save scope modifier none columns = ok none
full_save scope modifier (some conflict) columns = elim scope.dialect.batch_save_sql [
  | none ↦ ok none
  | some sql ↦
      if not (modifier == "")
      then err (
          make_error scope
            "gorm: SaveInBatches full-statement upsert cannot be combined with gorm:insert_modifier")
      else statement_columns scope conflict columns >>= λ (quoted, updates). ok (
          if generated_primary_insert scope conflict columns
          then none
          else some (sql, quoted, updates))
]

-- The inner loop: the placeholders of one row, and the variables with those of the row.
unfoldable pub bind_values : (ℕ → String) → List Value → List Value → List String × List Value
unfolding add_to_vars
bind_values bind_var [] vars = ([], vars)
bind_values bind_var (value ∷ values) vars =
    let (placeholder, vars') = add_to_vars false bind_var value vars in
    let (placeholders, vars'') = bind_values bind_var values vars' in
    (placeholder ∷ placeholders, vars'')

-- The loop over the rows.
unfoldable pub bind_rows :
    Scope → List String → List Row → List Value → Result (List (List String) × List Value)
unfolding bind_values
bind_rows scope columns [] vars = ok ([], vars)
bind_rows scope columns (row ∷ rows) vars =
    if not (same_batch_columns columns row.columns)
      || not (nat_eq (length row.values) (length columns))
    then err (make_error scope "gorm: inconsistent columns in CreateInBatches")
    else (let (placeholders, vars') = bind_values scope.dialect.bind_var row.values vars in
        bind_rows scope columns rows vars' >>= λ (rest, vars''). ok (placeholders ∷ rest, vars''))

-- An INSERT without columns.
unfoldable pub default_values : Scope → String → String → String → String
default_values scope modifier table extra = concat (
    "INSERT"
    ∷ add_extra_space_if_exist modifier
    ∷ " INTO "
    ∷ table
    ∷ " "
    ∷ scope.dialect.default_value_str
    ∷ add_extra_space_if_exist extra
    ∷ [])

-- The text of `placeholders`.
unfoldable pub values_text : List (List String) → String
values_text rows = join "," (map (λ r. concat ("(" ∷ join "," r ∷ ")" ∷ [])) rows)

unfoldable pub insert_values : String → String → String → List String → List (List String) → String
unfolding values_text
insert_values modifier table extra columns rows = concat (
    "INSERT"
    ∷ add_extra_space_if_exist modifier
    ∷ " INTO "
    ∷ table
    ∷ " ("
    ∷ join "," columns
    ∷ ") VALUES "
    ∷ values_text rows
    ∷ add_extra_space_if_exist extra
    ∷ [])

-- The two branches on `len(columns) == 0`, as the text given to `Raw` and its variables.
unfoldable pub statement_text :
    Scope
    → String
    → String
    → String
    → Option (SaveSql × List String × List String)
    → List String
    → List Row
    → Result (String × List Value)
unfolding default_values insert_values bind_rows
statement_text scope modifier table extra (some _) [] rows =
    err (make_error scope "gorm: SaveInBatches has no values for its conflict target")
statement_text scope modifier table extra none [] (row ∷ []) =
    ok (default_values scope modifier table extra, [])
statement_text scope modifier table extra none [] rows =
    err (make_error scope "gorm: cannot batch multiple DEFAULT VALUES rows")
statement_text scope modifier table extra (some (sql, quoted, updates)) (c ∷ columns) rows =
    bind_rows scope (c ∷ columns) rows [] >>= λ (sources, vars).
    sql table (c ∷ columns) quoted updates sources >>= λ text. ok (text, vars)
statement_text scope modifier table extra none (c ∷ columns) rows =
    bind_rows scope (c ∷ columns) rows [] >>= λ (sources, vars).
    ok (insert_values modifier table extra (c ∷ columns) sources, vars)

-- `executeBatchCreateRows` up to its `Exec`, for rows of which this is the first; `none` is a panic.
unfoldable pub build_statement :
    Env → Option (List String) → Row → List Row → Txn → Option (Result Statement)
unfolding extra_option full_save statement_text replace_dollars modifier_of
build_statement env save first more t =
    let scope = record (env.scope first.address) { fields = t.object first.address } in
    let table = quote scope (env.table_name first.address) in
    let modifier = modifier_of env.insert_modifier in
    elim (extra_option env scope save first.columns) [
      | none ↦ none
      | some (err e) ↦ some (err e)
      | some (ok extra) ↦ some (
          full_save scope modifier save first.columns >>= λ full.
          statement_text scope modifier table extra full first.columns (first ∷ more)
          >>= λ (text, vars). ok (record { sql = replace_dollars 0 text; vars = vars }))
    ]
