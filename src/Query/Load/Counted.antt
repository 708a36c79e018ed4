-- ===== src/Query/Load/Counted.antt =====
-- What the loop over the rows of queryCallback of callback_query.go leaves.
use mathlib.Core.Path.{subst}
use gorm.Batch.Rows.{Statement}
use gorm.Errors.{Error, null}
use gorm.Errors.Field.{add_error}
use gorm.Model.{Value, Field}
use gorm.Query.Builder.{Builder, report}
use gorm.Query.Load.{
  Destination, into_slice, into_struct, unsupported, Loader, Loading, scan_with_plan, planned,
  put_row, row_fields, load_row, load_rows,
}
use gorm.Query.Scan.{build_scan_plan}
use gorm.Prelude.{
  ℕ, suc, ◌+◌, String, ◌≡◌, ap, ◌∙◌, Option, List, [], ◌∷◌, map, length, length-append, arith,
}

-- `Scan` has no error.
abbrev pub ScansAll : Loader → Type 0
ScansAll l =
    (fields : List (Option Field)) (values : List Value) → (l.scan_row fields values).1 ≡ null

-- So many elements for a slice.
abbrev pub Counts : Destination → ℕ → Loading → Type 0
Counts into_slice n s = length s.elements ≡ n
Counts _ n s = Unit

-- What the rows leave: no error, their number, and the statements as they were.
pub record Counted (d : Destination) (n : ℕ) (sent : List Statement) (s : Loading) : Type 0 where
  pub no_error : s.builder.error ≡ null
  pub counted : s.rows_affected ≡ n
  pub same_sent : s.sent ≡ sent
  pub elements_counted : Counts d n s

report-null : (b : Builder) (e : Error) → e ≡ null → b.error ≡ null → (report e b).error ≡ null
unfolding report add_error
report-null b e h k = ap (add_error b.error) h ∙ k

put_row-Counted :
    (d : Destination) (n : ℕ) (sent : List Statement) (fields : List Field) (e : Error)
    (s : Loading)
    → e ≡ null
    → Counted d n sent s
    → Counted d (suc n) sent (put_row d (fields, e) s)
put_row-Counted into_slice n sent fields e s h c = record {
  no_error = report-null s.builder e h c.no_error;
  counted = ap suc c.counted;
  same_sent = c.same_sent;
  elements_counted = omega (arith, length-append s.elements (fields ∷ []), c.elements_counted);
}
put_row-Counted into_struct n sent fields e s h c = record {
  no_error = report-null s.builder e h c.no_error;
  counted = ap suc c.counted;
  same_sent = c.same_sent;
  elements_counted = tt;
}
put_row-Counted unsupported n sent fields e s h c = record {
  no_error = report-null s.builder e h c.no_error;
  counted = ap suc c.counted;
  same_sent = c.same_sent;
  elements_counted = tt;
}

scanned :
    (l : Loader) (plan : List (Option ℕ)) (fields : List Field) (values : List Value)
    → ScansAll l
    → (scan_with_plan l plan fields values).1 ≡ null
unfolding scan_with_plan
scanned l plan fields values h = h (map (planned fields) plan) values

zero_plus : (n : ℕ) → n ≡ 0 + n
zero_plus n = omega arith

pub plus_zero : (n : ℕ) → n + 0 ≡ n
plus_zero n = omega arith

plus_suc : (m n : ℕ) → m + suc n ≡ suc m + n
plus_suc m n = omega arith

pub load_rows-Counted :
    (l : Loader) (d : Destination) (columns : List String) (rows : List (List Value)) (n : ℕ)
    (sent : List Statement) (s : Loading)
    → ScansAll l
    → Counted d n sent s
    → Counted d (length rows + n) sent (load_rows l d columns rows s)
unfolding load_rows load_row
load_rows-Counted l d columns [] n sent s h c = subst (λ k. Counted d k sent s) (zero_plus n) c
load_rows-Counted l d columns (values ∷ rows) n sent s h c =
    let fields = row_fields l d s in
    let plan = build_scan_plan columns fields in
    let s1 = load_row l d columns values s in
    let c1 : Counted d (suc n) sent s1 =
      put_row-Counted d n sent (scan_with_plan l plan fields values).0
        (scan_with_plan l plan fields values).1 s (scanned l plan fields values h) c in
    subst (λ k. Counted d k sent (load_rows l d columns rows s1)) (plus_suc (length rows) n)
      (load_rows-Counted l d columns rows (suc n) sent s1 h c1)
