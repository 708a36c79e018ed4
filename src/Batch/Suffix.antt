-- ===== src/Batch/Suffix.antt =====
-- The text that `insertOption` of batch_save.go appends to an INSERT.
use gorm.Model.{Scope, make_error, Result, ok, err}
use gorm.Batch.Save.{target, statement_columns}
use gorm.Prelude.{
  String, ◌||◌, Option, none, some, List, [], ◌∷◌, map, ◌==◌, get_elem?, concat, join,
  if◌then◌else◌,
}

-- `quotedTarget[0]+"="+quotedTarget[0]`; `none` is the panic of an index out of range.
unfoldable pub keep_target : List String → Option String
keep_target target = elim (get_elem? target 0) [
  | none ↦ none
  | some column ↦ some (concat (column ∷ "=" ∷ column ∷ []))
]

unfoldable pub mysql_option : List String → List String → Option String
unfolding keep_target
mysql_option target [] = elim (keep_target target) [
  | none ↦ none
  | some assignment ↦ some (concat ("ON DUPLICATE KEY UPDATE " ∷ assignment ∷ []))
]
mysql_option target (u ∷ updates) = some (
    concat (
      "ON DUPLICATE KEY UPDATE "
      ∷ join "," (map (λ c. concat (c ∷ "=VALUES(" ∷ c ∷ ")" ∷ [])) (u ∷ updates))
      ∷ []))

unfoldable pub conflict_option : List String → List String → String
conflict_option target [] = concat ("ON CONFLICT(" ∷ join "," target ∷ ")" ∷ " DO NOTHING" ∷ [])
conflict_option target (u ∷ updates) = concat (
    "ON CONFLICT("
    ∷ join "," target
    ∷ ")"
    ∷ " DO UPDATE SET "
    ∷ join "," (map (λ c. concat (c ∷ "=excluded." ∷ c ∷ [])) (u ∷ updates))
    ∷ [])

-- The switch over the dialect.
unfoldable pub option_text : Scope → List String → List String → Option (Result String)
unfolding mysql_option conflict_option
option_text scope target updates =
    let name = scope.dialect.name in
    if name == "mysql"
    then (elim (mysql_option target updates) [ none ↦ none | some text ↦ some (ok text) ])
    else if name == "sqlite3" || name == "postgres"
    then some (ok (conflict_option target updates))
    else some (
        err (
          make_error scope (
            concat (
              "gorm: SaveInBatches does not support the "
              ∷ scope.show_quoted name
              ∷ " dialect"
              ∷ []))))

-- batchSave.insertOption
unfoldable pub insert_option : Scope → List String → List String → Option (Result String)
insert_option scope conflict columns = elim (statement_columns scope conflict columns) [
  | err e ↦ some (err e)
  | ok (quoted, updates) ↦ option_text scope quoted updates
]
