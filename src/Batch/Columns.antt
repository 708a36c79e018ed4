-- ===== src/Batch/Columns.antt =====
-- The columns of one row in `prepareBatchCreateRow` of batch_create.go. Where a row has the columns of
-- the row before it, the code reuses that slice and allocates none.
use mathlib.Core.List.{append-nil, append_assoc}
use native.Mathlib.Nat.{add-zero}
use mathlib.Core.Path.{subst, subst₃}
use gorm.Model.{Value}
use gorm.Prelude.{
  ℕ, suc, ◌+◌, String, ◌≡◌, refl, sym, ap, ==_sound, ◌∙◌, Bool, true, false, ◌&&◌, ◌||◌, not, inl,
  inr, none, some, List, [], ◌∷◌, ◌++◌, ◌==◌, map, arith, leb, nat_eq, length, get_elem?, take,
  length-append, if◌then◌else◌, Bool-cases,
}

-- The variables that the closure `appendColumn` captures.
pub record Collector : Type 0 where
  pub columns : List String
  pub values : List Value
  pub columns_match : Bool
  pub column_index : ℕ

-- expected[index] != column, where the index is in range
abbrev differs_at : List String → ℕ → String → Bool
differs_at expected index column = elim (get_elem? expected index) [
  | none ↦ true
  | some c ↦ not (c == column)
]

abbrev mismatch : List String → String → Collector → Bool
mismatch expected column st =
    st.columns_match
    && (leb (length expected) st.column_index || differs_at expected st.column_index column)

-- appendColumn
unfoldable pub append_column : List String → String × Value → Collector → Collector
append_column expected (column, value) st =
    let failed = mismatch expected column st in
    let columns = if failed then st.columns ++ take st.column_index expected else st.columns in
    let columns_match = st.columns_match && not failed in
    record {
      columns = if columns_match then columns else columns ++ column ∷ [];
      values = st.values ++ value ∷ [];
      columns_match = columns_match;
      column_index = st.column_index + 1;
    }

-- `expectedColumns != nil`: a slice of column names is nil exactly if it is empty, since it is made
-- by appending to nil.
unfoldable pub start_collector : List String → Collector
start_collector expected = record {
  columns = [];
  values = [];
  columns_match = elim expected [ [] ↦ false | _ ∷ _ ↦ true ];
  column_index = 0;
}

unfoldable pub append_columns : List String → List (String × Value) → Collector → Collector
append_columns expected [] st = st
append_columns expected (entry ∷ entries) st =
    append_columns expected entries (append_column expected entry st)

-- The `if columnsMatch` behind the loop.
unfoldable pub finish_columns : List String → Collector → List String
finish_columns expected st =
    if st.columns_match
    then (if nat_eq st.column_index (length expected)
        then expected
        else st.columns ++ take st.column_index expected)
    else st.columns

take-append_length : (xs ys : List String) → take (length xs) (xs ++ ys) ≡ xs
take-append_length [] ys = refl
take-append_length (x ∷ xs) ys = ap (λ l. x ∷ l) (take-append_length xs ys)

get_elem?-append_length :
    (xs : List String) (y : String) (ys : List String)
    → get_elem? (xs ++ y ∷ ys) (length xs) ≡ some y
get_elem?-append_length [] y ys = refl
get_elem?-append_length (x ∷ xs) y ys = get_elem?-append_length xs y ys

abbrev columns_of : List (String × Value) → List String
columns_of entries = map (λ e. e.0) entries

abbrev values_of : List (String × Value) → List Value
values_of entries = map (λ e. e.1) entries

-- The columns were copied.
abbrev copied : List String → List Value → ℕ → Collector
copied names vs k = record { columns = names; values = vs; columns_match = false; column_index = k }

-- The columns so far are the first expected ones, and none was copied.
abbrev matching : List Value → ℕ → Collector
matching vs k = record { columns = []; values = vs; columns_match = true; column_index = k }

add_assoc_suc : (k n : ℕ) → k + 1 + n ≡ k + suc n
add_assoc_suc k n = omega arith

append_columns-copied :
    (expected : List String) (entries : List (String × Value)) (names : List String)
    (vs : List Value) (k : ℕ)
    → append_columns expected entries (copied names vs k)
      ≡ copied (names ++ columns_of entries) (vs ++ values_of entries) (k + length entries)
unfolding append_columns append_column
append_columns-copied expected [] names vs k = cc (append-nil names, append-nil vs, add-zero k)
append_columns-copied expected ((c, v) ∷ entries) names vs k =
    append_columns-copied expected entries (names ++ c ∷ []) (vs ++ v ∷ []) (k + 1)
    ∙ cc (
      append_assoc names (c ∷ []) (columns_of entries),
      append_assoc vs (v ∷ []) (values_of entries),
      add_assoc_suc k (length entries),
    )

-- One more column, where the expected ones are used up or differ, and where they go on alike.
append_column-end :
    (names : List String) (c : String) (v : Value) (vs : List Value)
    → append_column (names ++ []) (c, v) (matching vs (length names))
      ≡ copied (names ++ c ∷ []) (vs ++ v ∷ []) (length names + 1)
unfolding append_column
append_column-end names c v vs =
    let failed : mismatch (names ++ []) c (matching vs (length names)) ≡ true =
      ground (arith, length-append names []) in
    rw (failed, take-append_length)

append_column-differs :
    (names rest : List String) (r c : String) (v : Value) (vs : List Value)
    → (r == c) ≡ false
    → append_column (names ++ r ∷ rest) (c, v) (matching vs (length names))
      ≡ copied (names ++ c ∷ []) (vs ++ v ∷ []) (length names + 1)
unfolding append_column
append_column-differs names rest r c v vs h =
    let failed : mismatch (names ++ r ∷ rest) c (matching vs (length names)) ≡ true =
      ground (arith, get_elem?-append_length names r rest) in
    rw (failed, take-append_length)

append_column-same :
    (names rest : List String) (r c : String) (v : Value) (vs : List Value)
    → (r == c) ≡ true
    → append_column (names ++ r ∷ rest) (c, v) (matching vs (length names))
      ≡ matching (vs ++ v ∷ []) (length names + 1)
unfolding append_column
append_column-same names rest r c v vs h =
    let failed : mismatch (names ++ r ∷ rest) c (matching vs (length names)) ≡ false =
      ground (arith, length-append names (r ∷ rest), get_elem?-append_length names r rest) in
    rw failed

-- What the closure has collected, once the columns are finished: `ns` and the entries.
abbrev Collects :
    List String → List (String × Value) → List String → List Value → Collector → Type 0
Collects expected entries ns vs st =
    (finish_columns expected (append_columns expected entries st) ≡ ns ++ columns_of entries)
    × ((append_columns expected entries st).values ≡ vs ++ values_of entries)

Collects-copied :
    (expected : List String) (entries : List (String × Value)) (ns : List String) (vs : List Value)
    (k : ℕ)
    → Collects expected entries ns vs (copied ns vs k)
unfolding finish_columns
Collects-copied expected entries ns vs k =
    rw (append_columns-copied expected entries ns vs k) (refl, refl)

finish_columns-matching :
    (ns rest : List String) (vs : List Value)
    → finish_columns (ns ++ rest) (matching vs (length ns)) ≡ ns
unfolding finish_columns
finish_columns-matching ns [] vs = ground (arith, length-append ns [], append-nil ns)
finish_columns-matching ns (r ∷ rest) vs =
    ground (arith, length-append ns (r ∷ rest), take-append_length ns (r ∷ rest))

Collects-cons :
    (expected : List String) (entries : List (String × Value)) (ns : List String) (c : String)
    (vs : List Value) (v : Value) (st st' : Collector)
    → append_column expected (c, v) st ≡ st'
    → Collects expected entries (ns ++ c ∷ []) (vs ++ v ∷ []) st'
    → Collects expected ((c, v) ∷ entries) ns vs st
unfolding append_columns
Collects-cons expected entries ns c vs v st st' e p =
    let q = subst (Collects expected entries (ns ++ c ∷ []) (vs ++ v ∷ [])) (sym e) p in
    (
      q.0 ∙ append_assoc ns (c ∷ []) (columns_of entries),
      q.1 ∙ append_assoc vs (v ∷ []) (values_of entries),
    )

Collects-matching :
    (entries : List (String × Value)) (ns rest : List String) (vs : List Value)
    → Collects (ns ++ rest) entries ns vs (matching vs (length ns))
Collects-matching [] ns rest vs =
    unfold append_columns in
    (finish_columns-matching ns rest vs ∙ sym (append-nil ns), sym (append-nil vs))
Collects-matching ((c, v) ∷ entries) ns [] vs =
    Collects-cons (ns ++ []) entries ns c vs v _ _ (append_column-end ns c v vs)
      (Collects-copied (ns ++ []) entries (ns ++ c ∷ []) (vs ++ v ∷ []) (length ns + 1))
Collects-matching ((c, v) ∷ entries) ns (r ∷ rest) vs = elim (Bool-cases (r == c)) [
  | inr differs ↦
      Collects-cons (ns ++ r ∷ rest) entries ns c vs v _ _
        (append_column-differs ns rest r c v vs differs)
        (Collects-copied (ns ++ r ∷ rest) entries (ns ++ c ∷ []) (vs ++ v ∷ []) (length ns + 1))
  | inl same ↦
      let ih = Collects-matching entries (ns ++ r ∷ []) rest (vs ++ v ∷ []) in
      let longer = length-append ns (r ∷ []) in
      Collects-cons (ns ++ r ∷ rest) entries ns c vs v _ _
        (append_column-same ns rest r c v vs same)
        (subst₃
          (λ (l : List String) (k : ℕ) (x : String).
            Collects l entries (ns ++ x ∷ []) (vs ++ v ∷ []) (matching (vs ++ v ∷ []) k))
          (append_assoc ns (r ∷ []) rest) longer (==_sound r c same) ih)
]

-- Whatever columns the row before had, a row gets one column and one value for each entry, in
-- order: the reuse of the expected columns does not show.
pub finish_columns-eq :
    (expected : List String) (entries : List (String × Value))
    → (finish_columns expected (append_columns expected entries (start_collector expected))
        ≡ map (λ e. e.0) entries)
      × ((append_columns expected entries (start_collector expected)).values
          ≡ map (λ e. e.1) entries)
unfolding start_collector
finish_columns-eq [] entries = Collects-copied [] entries [] [] 0
finish_columns-eq (e ∷ expected) entries = Collects-matching entries [] (e ∷ expected) []
