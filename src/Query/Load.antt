-- ===== src/Query/Load.antt =====
-- callback_query.go but for its registration, callback_row_query.go, and scanWithPlan of scope.go.
pub mod Counted
pub mod Found
mod Witnesses
use gorm.Batch.Rows.{Statement, is_error, set_at}
use gorm.Errors.{Error, null, err_record_not_found}
use gorm.Model.{Value, nothing, Field, quote, Result, ok, err}
use gorm.Query.Builder.{Builder, QueryScope, report, report_new, primary_field, quoted_table_name}
use gorm.Query.Clauses.{prepare_query_sql}
use gorm.Query.Scan.{build_scan_plan}
use gorm.Query.Search.{order_by, by_text}
use gorm.Prelude.{
  ℕ, suc, String, Bool, true, false, ◌&&◌, ◌||◌, not, Option, none, some, List, [], ◌∷◌, ◌++◌,
  get_elem?, nat_eq, concat, map, if◌then◌else◌,
}

-- What the results are stored in: a slice of structs or of pointers to them, a struct, or neither.
pub data Destination : Type 0 where
  into_slice : Destination
  into_struct : Destination
  unsupported : Destination

-- The `sql.Rows` of a query: its columns, the values of each row, and `Err` behind the last.
pub record Rows : Type 0 where
  pub columns : List String
  pub rows : List (List Value)
  pub rows_error : Error

-- The settings that the callback reads, its destination, the fields of a new element, and what
-- stands outside: reflection's look at a field's kind, `AfterFind`, and `database/sql`, which answers
-- the statements so far, and whose `Scan` stores values at the fields that it is given, where a column
-- without a field is given another place.
pub record Loader : Type 0 where
  pub skip_query_callback : Bool
  pub only_preload : Bool
  pub order_by_primary_key : Option String
  pub query_hint : Option String
  pub destination : Destination
  pub new_fields : List Field
  pub is_pointer : Field → Bool
  pub query : List Statement → Result Rows
  pub scan_row : List (Option Field) → List Value → List (Option Value) × Error

-- What the callback reads and writes: the elements of a slice, or the fields of a struct.
pub record Loading : Type 0 where
  pub builder : Builder
  pub sent : List Statement
  pub rows_affected : ℕ
  pub elements : List (List Field)
  pub object : List Field

abbrev pub report_loading : Error → Loading → Loading
report_loading e s = record s { builder = report e s.builder }

-- The fields that a row is scanned into.
abbrev pub planned : List Field → Option ℕ → Option Field
planned fields none = none
planned fields (some index) = get_elem? fields index

-- A stored value: a pointer takes it also where it is NULL, another field does not.
unfoldable pub store : Loader → ℕ → Value → List Field → List Field
store l index v fields = elim (get_elem? fields index) [
  | none ↦ fields
  | some f ↦ elim v [
    | nothing ↦
        if l.is_pointer f then set_at index (record f { value = nothing }) fields else fields
    | stored ↦ set_at index (record f { value = stored }) fields
  ]
]

unfoldable pub store_all : Loader → List (Option ℕ) → List (Option Value) → List Field → List Field
unfolding store
store_all l (some index ∷ plan) (some v ∷ outs) fields =
    store_all l plan outs (store l index v fields)
store_all l (_ ∷ plan) (_ ∷ outs) fields = store_all l plan outs fields
store_all l _ _ fields = fields

-- scanWithPlan, for the values of a row: the fields, and the error of `Scan`.
unfoldable pub scan_with_plan :
    Loader → List (Option ℕ) → List Field → List Value → List Field × Error
unfolding store_all
scan_with_plan l plan fields values =
    let (outs, e) = l.scan_row (map (planned fields) plan) values in
    (store_all l plan outs fields, e)

-- One row, for its fields and the error of `Scan`: an element more, or the struct again.
abbrev pub put_row : Destination → List Field × Error → Loading → Loading
put_row into_slice (fields, e) s = record s {
  builder = report e s.builder;
  rows_affected = suc s.rows_affected;
  elements = s.elements ++ fields ∷ [];
}
put_row _ (fields, e) s = record s {
  builder = report e s.builder;
  rows_affected = suc s.rows_affected;
  object = fields;
}

abbrev pub row_fields : Loader → Destination → Loading → List Field
row_fields l into_slice s = l.new_fields
row_fields l _ s = s.object

-- The body of the loop over the rows. The plan is that of the first row's fields, which are those of
-- the same type.
unfoldable pub load_row : Loader → Destination → List String → List Value → Loading → Loading
unfolding scan_with_plan build_scan_plan
load_row l d columns values s =
    let fields = row_fields l d s in
    put_row d (scan_with_plan l (build_scan_plan columns fields) fields values) s

unfoldable pub load_rows :
    Loader → Destination → List String → List (List Value) → Loading → Loading
unfolding load_row
load_rows l d columns [] s = s
load_rows l d columns (values ∷ rows) s = load_rows l d columns rows (load_row l d columns values s)

abbrev pub is_slice : Destination → Bool
is_slice into_slice = true
is_slice _ = false

-- What follows the loop.
unfoldable pub after_rows : Destination → Error → Loading → Loading
after_rows d e s =
    if is_error e
    then report_loading e s
    else if nat_eq s.rows_affected 0 && not (is_slice d)
    then report_loading err_record_not_found s
    else s

abbrev pub load_result : Loader → Destination → Loading → Result Rows → Loading
load_result l d s (err e) = report_loading e s
load_result l d s (ok r) = after_rows d r.rows_error (load_rows l d r.columns r.rows s)

abbrev pub hinted : Option String → String → String
hinted none sql = sql
hinted (some hint) sql = concat (hint ∷ sql ∷ [])

-- The part behind `prepareQuerySQL`.
unfoldable pub run_query : Loader → Destination → String → Loading → Loading
unfolding after_rows load_rows
run_query l d sql s =
    if is_error s.builder.error
    then s
    else (let sent =
          s.sent ++ record { sql = hinted l.query_hint sql; vars = s.builder.vars } ∷ [] in
        load_result l d (record s { sent = sent; rows_affected = 0 }) (l.query sent))

-- The search, with the order by the primary key.
unfoldable pub ordered : Loader → QueryScope → QueryScope
unfolding quoted_table_name primary_field quote
ordered l qs = elim l.order_by_primary_key [
  | none ↦ qs
  | some direction ↦ elim (primary_field qs.scope) [
    | none ↦ qs
    | some f ↦ record qs {
      search =
          order_by qs.search
            (some (
              by_text (
                concat
                  (quoted_table_name qs ∷ "." ∷ quote qs.scope f.db_name ∷ " " ∷ direction ∷ []))))
            false;
    }
  ]
]

-- prepareQuerySQL and what follows it; `none` is its panic.
abbrev pub and_run : Loader → Destination → Loading → Option String × Builder → Option Loading
and_run l d s (none, b) = none
and_run l d s (some sql, b) = some (run_query l d sql (record s { builder = b }))

-- The part behind the two guards.
unfoldable pub load : Loader → Destination → QueryScope → Loading → Option Loading
unfolding prepare_query_sql run_query ordered
load l unsupported qs s = some (record s {
  builder = report_new "unsupported destination, should be slice or struct" s.builder;
})
load l into_slice qs s =
    and_run l into_slice (record s { elements = [] }) (prepare_query_sql (ordered l qs) s.builder)
load l into_struct qs s = and_run l into_struct s (prepare_query_sql (ordered l qs) s.builder)

-- queryCallback
unfoldable pub query_callback : Loader → QueryScope → Loading → Option Loading
unfolding load
query_callback l qs s =
    if l.skip_query_callback || l.only_preload then some s else load l l.destination qs s

-- afterQueryCallback, for what `AfterFind` does.
unfoldable pub after_query_callback : (Loading → Loading) → Loading → Loading
after_query_callback after_find s = if is_error s.builder.error then s else after_find s

-- The statement that rowQueryCallback sends.
abbrev pub and_send : Loader → Loading → Option String × Builder → Option Loading
and_send l s (none, b) = none
and_send l s (some sql, b) = some (record s {
  builder = b;
  sent = s.sent ++ record { sql = hinted l.query_hint sql; vars = b.vars } ∷ [];
})

-- rowQueryCallback, where `requested` says whether a result is waiting: its rows are read by the
-- caller. It does not look at the error.
unfoldable pub row_query_callback : Loader → Bool → QueryScope → Loading → Option Loading
unfolding prepare_query_sql
row_query_callback l requested qs s =
    if requested then and_send l s (prepare_query_sql qs s.builder) else some s
