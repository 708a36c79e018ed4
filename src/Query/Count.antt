-- ===== src/Query/Count.antt =====
-- What `count` and `pluck` of scope.go make of a search before the statement is built.
mod Witnesses
use gorm.Model.{fold_code, nothing, Scope, quote}
use gorm.Naming.{to_lower}
use gorm.Query.Builder.{Builder, QueryScope}
use gorm.Query.Clauses.{prepare_query_sql}
use gorm.Query.Search.{Search, Selection, column, empty_search, select, set_table}
use Prim.Native.Char.{code}
use gorm.Prelude.{
  ℕ, String, Bool, true, false, ◌&&◌, ◌||◌, not, Option, none, some, List, [], ◌∷◌, ◌==◌, concat,
  nat_eq, if◌then◌else◌,
}

-- .+$
abbrev any_line : String → Bool
any_line String.[] = false
any_line (String.◌∷◌ c String.[]) = not (nat_eq (code c) 10)
any_line (String.◌∷◌ c (String.◌∷◌ d s)) = not (nat_eq (code c) 10) && any_line (String.◌∷◌ d s)

-- The letters of a word in lower case, up to simple folding, and the rest of a text on one line.
abbrev starts_fold : String → String → Bool
starts_fold String.[] s = any_line s
starts_fold (String.◌∷◌ a p) String.[] = false
starts_fold (String.◌∷◌ a p) (String.◌∷◌ b s) =
    nat_eq (fold_code (code b)) (code a) && starts_fold p s

-- countingQueryRegexp
unfoldable pub is_counting : String → Bool
unfolding fold_code
is_counting s = starts_fold "count" s

-- The search of a scope.
abbrev with_search : Search → QueryScope → QueryScope
with_search search qs = record qs { search = search }

abbrev is_none : {A : Type 0} → List A → Bool
is_none [] = true
is_none (_ ∷ _) = false

-- &search{}, whose limit and offset are nil.
abbrev pub new_search : Search
new_search = record empty_search { limit = nothing; offset = nothing }

abbrev pub count_all : Selection
count_all = column "count(*)"

abbrev and_count : QueryScope → Option String × Builder → Option QueryScope × Builder
and_count qs (none, b) = (none, b)
and_count qs (some sql, b) = (
  some (
      with_search
        (set_table (select new_search count_all [])
          (concat ("( " ∷ sql ∷ " ) AS count_table" ∷ [])))
        qs),
  b,
)

-- The branch of `count` for a search that does not count yet; `none` is a panic.
unfoldable pub counting_scope : QueryScope → Builder → Option QueryScope × Builder
unfolding prepare_query_sql
counting_scope qs b =
    if qs.search.group == ""
    then (some (with_search (select qs.search count_all []) qs), b)
    else if is_none qs.search.having_conditions
    then (
      some (
          with_search
            (record (select qs.search (column "count(*) FROM ( SELECT count(*) as name ") []) {
              group = concat (qs.search.group ∷ " ) AS count_table" ∷ []);
            })
            qs),
      b,
    )
    else and_count qs (prepare_query_sql qs b)

-- Whether the search selects a count, for the verb %v of what it selects.
abbrev pub counts_already : (Selection → String) → QueryScope → Bool
counts_already show qs = elim qs.search.selects [
  | none ↦ false
  | some (selection, _) ↦ is_counting (show selection)
]

abbrev unordered : Option QueryScope × Builder → Option QueryScope × Builder
unordered (none, b) = (none, b)
unordered (some qs, b) = (some (with_search (record qs.search { ignore_order_query = true }) qs), b)

-- Scope.count, up to its query of the one row.
unfoldable pub count_scope :
    (Selection → String) → QueryScope → Builder → Option QueryScope × Builder
unfolding is_counting counting_scope
count_scope show qs b =
    unordered (if counts_already show qs then (some qs, b) else counting_scope qs b)

-- strings.HasSuffix, with the suffix first.
abbrev ends_with : String → String → Bool
ends_with p String.[] = p == ""
ends_with p (String.◌∷◌ c s) = String.◌∷◌ c s == p || ends_with p s

-- Scope.isQueryForColumn, for the verb %v of the query.
unfoldable pub is_query_for_column : Scope → String → String → Bool
unfolding to_lower quote
is_query_for_column scope query name =
    let query_str = to_lower query in
    query_str == name
    || ends_with (concat ("as " ∷ name ∷ [])) query_str
    || ends_with (concat ("as " ∷ quote scope name ∷ [])) query_str

-- The selection of Scope.pluck.
unfoldable pub pluck_scope : (Selection → String) → String → QueryScope → QueryScope
unfolding is_query_for_column
pluck_scope show name qs = elim qs.search.selects [
  | none ↦ with_search (select qs.search (column name) []) qs
  | some (selection, _) ↦
      if is_query_for_column qs.scope (show selection) name
      then qs
      else with_search (select qs.search (column name) []) qs
]
