-- ===== src/OnConflict.antt =====
-- The clause of on_conflict.go, and the methods of `DB` that set it as `gorm:insert_option`.
pub mod Batches
pub mod Create
pub mod Closed
pub mod Rows
pub mod Mixed
mod Witnesses
use Prim.Native.String
use text.Mathlib.TextLemmas.{append-nil, append_assoc}
use gorm.Model.{Field}
use gorm.Batch.Suffix.{conflict_option}
use gorm.Prelude.{
  String, ◌≡◌, refl, sym, ap, ◌∙◌, Bool, true, false, ◌&&◌, not, List, [], ◌∷◌, map, ◌==◌, concat,
  join, arith, if◌then◌else◌,
}

pub record OnConflictClause : Type 0 where
  pub columns : String
  pub do_update : Bool
  pub update_columns : List String
  pub where_clause : String

abbrev updates_text : List String → String
updates_text [] = " *"
updates_text (c ∷ columns) =
    concat (" " ∷ join "," (map (λ col. concat (col ∷ "=excluded." ∷ col ∷ [])) (c ∷ columns)) ∷ [])

-- OnConflictClause.String
unfoldable pub clause_text : OnConflictClause → String
clause_text c =
    if c.columns == ""
    then ""
    else if c.do_update
    then concat (
        "ON CONFLICT("
        ∷ c.columns
        ∷ ") DO UPDATE SET"
        ∷ updates_text c.update_columns
        ∷ (if c.where_clause == "" then "" else concat (" WHERE " ∷ c.where_clause ∷ []))
        ∷ [])
    else concat ("ON CONFLICT(" ∷ c.columns ∷ ") DO NOTHING" ∷ [])

-- The option that DB.OnConflictDoNothing sets.
unfoldable pub on_conflict_do_nothing : String → String
on_conflict_do_nothing columns = concat ("ON CONFLICT(" ∷ columns ∷ ") DO NOTHING" ∷ [])

-- The option that DB.OnConflictDoUpdate sets.
unfoldable pub on_conflict_do_update : String → List String → String
unfolding clause_text
on_conflict_do_update columns update_columns = clause_text (record {
  columns = columns;
  do_update = true;
  update_columns = update_columns;
  where_clause = "";
})

-- The loop of DB.OnConflictUpdateAll.
unfoldable pub update_all_columns : List Field → List String
update_all_columns [] = []
update_all_columns (f ∷ fields) =
    let rest = update_all_columns fields in
    if f.is_normal && not f.is_ignored && not f.is_primary_key then f.db_name ∷ rest else rest

-- The option that DB.OnConflictUpdateAll sets.
unfoldable pub on_conflict_update_all : List Field → String → String
unfolding update_all_columns on_conflict_do_update
on_conflict_update_all fields columns = on_conflict_do_update columns (update_all_columns fields)

-- The text of an update list behind the target, with its blank in either place.
move_blank :
    (updates : String)
    → concat (") DO UPDATE SET" ∷ concat (" " ∷ updates ∷ []) ∷ "" ∷ [])
      ≡ concat (")" ∷ " DO UPDATE SET " ∷ updates ∷ [])
move_blank updates =
    let tail = concat (updates ∷ []) in
    ap (λ t. String.◌++◌ ") DO UPDATE SET" t) (append-nil (String.◌++◌ " " tail))
    ∙ sym (append_assoc ") DO UPDATE SET" " " tail)
    ∙ append_assoc ")" " DO UPDATE SET " tail

-- For a conflict target of columns that is not empty, OnConflictDoUpdate and SaveInBatches on
-- SQLite and PostgreSQL write the same clause for the same columns to update.
pub on_conflict_do_update-eq :
    (target : List String) (c : String) (columns : List String)
    → (join "," target == "") ≡ false
    → on_conflict_do_update (join "," target) (c ∷ columns) ≡ conflict_option target (c ∷ columns)
unfolding on_conflict_do_update clause_text conflict_option
on_conflict_do_update-eq target c columns h = rw h (
    ap (λ t. String.◌++◌ "ON CONFLICT(" (String.◌++◌ (join "," target) t))
      (move_blank (join "," (map (λ col. concat (col ∷ "=excluded." ∷ col ∷ [])) (c ∷ columns)))))
