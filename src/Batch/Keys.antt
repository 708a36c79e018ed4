-- ===== src/Batch/Keys.antt =====
-- The primary keys that an INSERT has generated: `assignSingleBatchPrimaryKey` and
-- `assignBatchPrimaryKeys` of batch_create.go. A result of `LastInsertId` is an argument.
use gorm.Errors.{Error, null}
use gorm.Model.{number, Field, set, Result, ok, err}
use gorm.Batch.Rows.{Row, Txn, Env, set_at, write_object}
use gorm.Prelude.Int.{ℤ, pos, ◌+ℤ◌, ◌-ℤ◌, is_non_positive, pos_part, neg_part}
use gorm.Prelude.{
  ℕ, suc, String, Bool, ◌&&◌, not, Option, none, some, List, [], ◌∷◌, ◌==◌, length, get_elem?,
  nat_eq, if◌then◌else◌,
}

-- a == b
abbrev pub int_eq : ℤ → ℤ → Bool
int_eq a b = nat_eq (pos_part a) (pos_part b) && nat_eq (neg_part a) (neg_part b)

-- The row's primary field, where there is one and it is blank, with its index.
abbrev pub blank_primary : Row → Option (ℕ × Field)
blank_primary row = elim row.primary_field [
  | none ↦ none
  | some index ↦ elim (get_elem? row.fields index) [
    | none ↦ none
    | some field ↦ if field.is_blank then some (index, field) else none
  ]
]

-- field.Set(id), which writes to the object of the row.
unfoldable pub set_key : Env → Row → ℕ × Field → ℤ → Txn → Txn × Error
unfolding set
set_key env row (index, field) id t =
    let (new, e) = set env.reflect t.fresh (number id) field in
    (write_object row.address (set_at index new (t.object row.address)) t, e)

-- assignSingleBatchPrimaryKey
unfoldable pub assign_single_batch_primary_key : Env → List Row → ℤ → Result ℤ → Txn → Txn × Error
unfolding set_key
assign_single_batch_primary_key env (row ∷ []) affected last t =
    if not (int_eq affected (pos 1)) then (t, null) else elim (blank_primary row) [
      | none ↦ (t, null)
      | some key ↦ elim last [ err e ↦ (t, e) | ok id ↦ set_key env row key id t ]
    ]
assign_single_batch_primary_key env rows affected last t = (t, null)

-- The switch over the dialect, for the id that the driver reports.
unfoldable pub first_id : String → ℤ → ℤ → Option ℤ
first_id dialect affected last =
    if dialect == "sqlite3"
    then some (last -ℤ (affected -ℤ pos 1))
    else if dialect == "mysql"
    then some last
    else none

-- The loop: the row at an index gets the first id plus the index.
unfoldable pub assign_keys : Env → ℤ → ℕ → List Row → Txn → Txn × Error
unfolding set_key
assign_keys env first index [] t = (t, null)
assign_keys env first index (row ∷ rows) t = elim (blank_primary row) [
  | none ↦ assign_keys env first (suc index) rows t
  | some key ↦
      let (t', e) = set_key env row key (first +ℤ pos index) t in
      elim e [ null ↦ assign_keys env first (suc index) rows t' | e' ↦ (t', e') ]
]

unfoldable pub assign_from : Env → String → List Row → ℤ → Result ℤ → Txn → Txn × Error
unfolding first_id assign_keys
assign_from env dialect rows affected last t = elim last [
  | err _ ↦ (t, null)
  | ok id ↦ elim (first_id dialect affected id) [
    | none ↦ (t, null)
    | some first ↦ if is_non_positive first then (t, null) else assign_keys env first 0 rows t
  ]
]

-- assignBatchPrimaryKeys
unfoldable pub assign_batch_primary_keys :
    Env → String → List Row → ℤ → Result ℤ → Txn → Txn × Error
unfolding assign_from
assign_batch_primary_keys env dialect [] affected last t = (t, null)
assign_batch_primary_keys env dialect (row ∷ rows) affected last t =
    if not (int_eq affected (pos (length (row ∷ rows))))
    then (t, null)
    else elim (blank_primary row) [
      | none ↦ (t, null)
      | some _ ↦ assign_from env dialect (row ∷ rows) affected last t
    ]
