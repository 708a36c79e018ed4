-- ===== src/Batch/Numbering.antt =====
-- The ids that `assignBatchPrimaryKeys` of batch_create.go gives the rows of a statement.
use mathlib.Core.Path.{subst}
use gorm.Errors.{Error, null}
use gorm.Model.{number, Field, set, ok}
use gorm.Batch.Keys.{
  blank_primary, set_key, int_eq, first_id, assign_keys, assign_from, assign_batch_primary_keys,
}
use gorm.Batch.Rows.{Row, Txn, Env, set_at, write_object}
use gorm.Prelude.Int.{ℤ, pos, ◌+ℤ◌, ◌-ℤ◌, is_non_positive}
use gorm.Prelude.{
  ℕ, zero, suc, ◌-◌, ◌<◌, String, length, ◌≡◌, refl, sym, ap, ◌∙◌, true, false, some, List, [], ◌∷◌,
  get_elem?, nat_eq, arith,
}

abbrev pub NotIn : ℕ → List Row → Type 0
NotIn address [] = Unit
NotIn address (row ∷ rows) = (nat_eq row.address address ≡ false) × NotIn address rows

-- No two rows are of one object.
abbrev pub AreDistinct : List Row → Type 0
AreDistinct [] = Unit
AreDistinct (row ∷ rows) = NotIn row.address rows × AreDistinct rows

module _ (env : Env) (fresh : ℕ) where
  -- The row has a blank primary field that can be set, and its object has the field.
  abbrev pub IsReady : Txn → Row → Type 0
  IsReady t row =
      (key : ℕ × Field) × (old : Field) × (blank_primary row ≡ some key)
      × (get_elem? (t.object row.address) key.0 ≡ some old)
      × ((id : ℤ) → (set env.reflect fresh (number id) key.1).1 ≡ null)

  abbrev pub AllReady : Txn → List Row → Type 0
  AllReady t [] = Unit
  AllReady t (row ∷ rows) = IsReady t row × AllReady t rows

  -- The object of the row has the primary field that `Set` leaves for this id.
  abbrev pub HasId : Txn → ℤ → Row → Type 0
  HasId t id row =
      (key : ℕ × Field) × (blank_primary row ≡ some key)
      × (get_elem? (t.object row.address) key.0 ≡ some (set env.reflect fresh (number id) key.1).0)

  -- The rows have the ids that follow `first`, from this index on.
  abbrev pub AreNumbered : Txn → ℤ → ℕ → List Row → Type 0
  AreNumbered t first index [] = Unit
  AreNumbered t first index (row ∷ rows) =
      HasId t (first +ℤ pos index) row × AreNumbered t first (suc index) rows

get_elem?-set_at :
    (k : ℕ) (f old : Field) (fields : List Field)
    → get_elem? fields k ≡ some old
    → get_elem? (set_at k f fields) k ≡ some f
get_elem?-set_at k f old [] h = absurd cc
get_elem?-set_at zero f old (g ∷ fields) h = refl
get_elem?-set_at (suc k) f old (g ∷ fields) h = get_elem?-set_at k f old fields h

-- The state after the key of one row is set.
abbrev keyed : Env → Row → ℕ × Field → ℤ → Txn → Txn
keyed env row key id t =
    write_object row.address
      (set_at key.0 (set env.reflect t.fresh (number id) key.1).0 (t.object row.address)) t

write_object-same :
    (a : ℕ) (fields : List Field) (t : Txn) → (write_object a fields t).object a ≡ fields
write_object-same a fields t = ground arith

write_object-other :
    (a b : ℕ) (fields : List Field) (t : Txn)
    → nat_eq b a ≡ false
    → (write_object b fields t).object a ≡ t.object a
write_object-other a b fields t h = ground arith

AllReady-keyed :
    (env : Env) (fresh : ℕ) (row : Row) (fields : List Field) (t : Txn) (rows : List Row)
    → NotIn row.address rows
    → AllReady env fresh t rows
    → AllReady env fresh (write_object row.address fields t) rows
AllReady-keyed env fresh row fields t [] apart ready = tt
AllReady-keyed env fresh row fields t (other ∷ rows) apart ready = (
  (ready.0.0, ready.0.1, ready.0.2, rw apart.0 ready.0.3, ready.0.4),
  AllReady-keyed env fresh row fields t rows apart.1 ready.1,
)

assign_keys-step :
    (env : Env) (first : ℤ) (index : ℕ) (row : Row) (rows : List Row) (t : Txn) (key : ℕ × Field)
    → blank_primary row ≡ some key
    → (set env.reflect t.fresh (number (first +ℤ pos index)) key.1).1 ≡ null
    → assign_keys env first index (row ∷ rows) t
      ≡ assign_keys env first (suc index) rows (keyed env row key (first +ℤ pos index) t)
unfolding assign_keys set_key
assign_keys-step env first index row rows t key blank works = rw (assign_keys, blank, works) refl

assign_keys-NotIn :
    (env : Env) (first : ℤ) (index : ℕ) (rows : List Row) (t : Txn) (address : ℕ)
    → AllReady env t.fresh t rows
    → AreDistinct rows
    → NotIn address rows
    → (assign_keys env first index rows t).0.object address ≡ t.object address
unfolding assign_keys
assign_keys-NotIn env first index [] t address ready apart out = refl
assign_keys-NotIn env first index (row ∷ rows) t address ready apart out =
    let key = ready.0.0 in
    let t1 = keyed env row key (first +ℤ pos index) t in
    let step =
      assign_keys-step env first index row rows t key ready.0.2 (ready.0.4 (first +ℤ pos index)) in
    let rest =
      assign_keys-NotIn env first (suc index) rows t1 address
        (AllReady-keyed env t.fresh row _ t rows apart.0 ready.1) apart.1 out.1 in
    rw step (rest ∙ write_object-other address row.address _ t out.0)

-- If the rows are of different objects, and each has a blank primary field that can be set, then the
-- loop ends without an error and the primary fields are what `Set` leaves for the ids `first`,
-- `first + 1` and so on, in the order of the rows.
pub assign_keys-AreNumbered :
    (env : Env) (first : ℤ) (index : ℕ) (rows : List Row) (t : Txn)
    → AllReady env t.fresh t rows
    → AreDistinct rows
    → ((assign_keys env first index rows t).1 ≡ null)
      × AreNumbered env t.fresh (assign_keys env first index rows t).0 first index rows
assign_keys-AreNumbered env first index [] t ready apart = unfold assign_keys in (refl, tt)
assign_keys-AreNumbered env first index (row ∷ rows) t ready apart =
    let id = first +ℤ pos index in
    let key = ready.0.0 in
    let t1 = keyed env row key id t in
    let step = assign_keys-step env first index row rows t key ready.0.2 (ready.0.4 id) in
    let still = AllReady-keyed env t.fresh row _ t rows apart.0 ready.1 in
    let (done, numbered) = assign_keys-AreNumbered env first (suc index) rows t1 still apart.1 in
    let kept = assign_keys-NotIn env first (suc index) rows t1 row.address still apart.1 apart.0 in
    let new = (set env.reflect t.fresh (number id) key.1).0 in
    let fields = set_at key.0 new (t.object row.address) in
    let found : get_elem? ((assign_keys env first (suc index) rows t1).0.object row.address) key.0
        ≡ some new =
      ap (λ (l : List Field). get_elem? l key.0) (kept ∙ write_object-same row.address fields t)
      ∙ get_elem?-set_at key.0 new ready.0.1 (t.object row.address) ready.0.3 in
    subst (λ (p : Txn × Error). (p.1 ≡ null) × AreNumbered env t.fresh p.0 first index (row ∷ rows))
      (sym step) (done, ((key, ready.0.2, found), numbered))

int_eq_refl : (n : ℕ) → int_eq (pos n) (pos n) ≡ true
int_eq_refl n = ground arith

-- Let a driver report one affected row for each row of the statement, and an id from which the
-- dialect derives a positive first id. If the rows are of different objects, and each has a blank
-- primary field that can be set, then assignBatchPrimaryKeys returns no error and has set the
-- primary fields to the first id and those that follow it, in the order of the rows.
pub assign_batch_primary_keys-AreNumbered :
    (env : Env) (dialect : String) (row : Row) (rows : List Row) (last first : ℤ) (t : Txn)
    → first_id dialect (pos (length (row ∷ rows))) last ≡ some first
    → is_non_positive first ≡ false
    → AllReady env t.fresh t (row ∷ rows)
    → AreDistinct (row ∷ rows)
    → ((assign_batch_primary_keys env dialect
          (row ∷ rows)
          (pos (length (row ∷ rows)))
          (ok last)
          t).1
        ≡ null)
      × AreNumbered env t.fresh
          (assign_batch_primary_keys env dialect
            (row ∷ rows)
            (pos (length (row ∷ rows)))
            (ok last)
            t).0
          first
          0
          (row ∷ rows)
unfolding assign_batch_primary_keys assign_keys
assign_batch_primary_keys-AreNumbered env dialect row rows last first t derived positive ready
      apart =
    let same : assign_batch_primary_keys env dialect (row ∷ rows) (pos (length (row ∷ rows)))
          (ok last) t
        ≡ assign_keys env first 0 (row ∷ rows) t =
      rw
        (
          assign_batch_primary_keys,
          int_eq_refl (length (row ∷ rows)),
          ready.0.2,
          assign_from,
          derived,
          positive,
        )
        refl in
    subst (λ (p : Txn × Error). (p.1 ≡ null) × AreNumbered env t.fresh p.0 first 0 (row ∷ rows))
      (sym same) (assign_keys-AreNumbered env first 0 (row ∷ rows) t ready apart)

sub-add_one : (n : ℕ) → pos (suc n) -ℤ pos 1 ≡ pos n
unfolding ◌-ℤ◌
sub-add_one n = ground arith

sub_pos : (a b : ℕ) → b < a → pos a -ℤ pos b ≡ pos (a - b)
unfolding ◌-ℤ◌
sub_pos a b h = ground arith

-- SQLite reports the id of the last row: for fewer rows than that id, the first id is positive and
-- the one from which the last row gets the reported id again.
pub first_id-last :
    (n last : ℕ)
    → n < last
    → (first : ℤ) × (first_id "sqlite3" (pos (suc n)) (pos last) ≡ some first)
      × (first +ℤ pos n ≡ pos last)
      × (is_non_positive first ≡ false)
unfolding first_id ◌+ℤ◌
first_id-last n last h =
    (pos (last - n), rw (sub-add_one n, sub_pos last n h) refl, ground arith, ground arith)
