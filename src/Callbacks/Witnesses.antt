-- ===== src/Callbacks/Witnesses.antt =====
-- The theorems on the callback registry, at registrations of a few plugins.
use gorm.Prelude.{
  ℕ, zero, suc, ◌<◌, String, ◌≡◌, ◌≢◌, refl, true, Option, none, some, List, [], ◌∷◌, ◌==◌, arith,
  ne_of_test, contains, if◌then◌else◌,
}
use gorm.Callbacks.Objects.{CallbackProcessor, Callback}
use gorm.Callbacks.Sort.{
  get_r_index, State, names, latest, sort_each, sorted_funcs, sort_processors,
}
use gorm.Callbacks.Rule.{contains_address}
use gorm.Callbacks.Growth.{SameFields, precedes}
use gorm.Callbacks.Termination.{IsAcyclic}
use gorm.Callbacks.Outcome.{start, sort_processors_returns}
use gorm.Callbacks.Single.{IsDistinct, NoAfters, sort_each-IsDistinct}
use gorm.Callbacks.Select.{choose, get-latest}
use gorm.Callbacks.Before.{before-precedes}
use gorm.Callbacks.Plain.{sort_each-plain}
use gorm.Callbacks.Registry.{of_kind, get}
use gorm.Callbacks.Samples.{cells, processor}

-- "q" after "a".
abbrev after_cell : ℕ → CallbackProcessor
after_cell = cells (processor "q" "" "a" 1 ∷ processor "a" "" "" 2 ∷ [])

abbrev after_rank : String → ℕ
after_rank s = if s == "q" then 1 else 0

after_falls :
    (c : ℕ)
    → contains_address (0 ∷ 1 ∷ []) c ≡ true
    → (after_cell c).after ≢ ""
    → contains (names after_cell (0 ∷ 1 ∷ [])) (after_cell c).after ≡ true
    → after_rank (after_cell c).after < after_rank (after_cell c).name
after_falls zero m named known = omega arith
after_falls (suc zero) m named known = absurd (named refl)
after_falls (suc (suc c)) m named known = absurd (named refl)

after_acyclic : IsAcyclic after_cell (0 ∷ 1 ∷ []) after_rank 1
after_acyclic = record { bounded = λ s m. ground arith; falls = after_falls }

sort_processors_returns_example :
    (st : State) × (funcs : List (Option ℕ)) × (sort_processors 6 after_cell (0 ∷ 1 ∷ [])
      ≡ some (st.cell, funcs))
    × (sorted_funcs st.cell (0 ∷ 1 ∷ []) st.sorted ≡ some funcs)
    × ((s : String) → contains st.sorted s ≡ contains (names after_cell (0 ∷ 1 ∷ [])) s)
    × ((c : ℕ) → SameFields (st.cell c) (after_cell c))
sort_processors_returns_example =
    sort_processors_returns after_cell (0 ∷ 1 ∷ []) after_rank 1 after_acyclic 6 (omega arith)

-- "a", "b", and "p" before "b".
abbrev before_cell : ℕ → CallbackProcessor
before_cell = cells (processor "a" "" "" 1 ∷ processor "b" "" "" 2 ∷ processor "p" "b" "" 3 ∷ [])

before_NoAfters : NoAfters before_cell (0 ∷ 1 ∷ 2 ∷ [])
before_NoAfters zero m = refl
before_NoAfters (suc zero) m = refl
before_NoAfters (suc (suc zero)) m = refl
before_NoAfters (suc (suc (suc c))) m = refl

sort_each-IsDistinct_example :
    (st : State) × (sort_each
        (0 ∷ 1 ∷ 2 ∷ [])
        ("a" ∷ "b" ∷ "p" ∷ [])
        4
        (0 ∷ 1 ∷ 2 ∷ [])
        (start before_cell)
      ≡ some st)
    × IsDistinct st.sorted
sort_each-IsDistinct_example =
    sort_each-IsDistinct before_cell (0 ∷ 1 ∷ 2 ∷ []) before_NoAfters 4 (omega arith)

before_acyclic : IsAcyclic before_cell (0 ∷ 1 ∷ 2 ∷ []) (λ _. 0) 0
before_acyclic = record {
  bounded = λ s m. omega arith;
  falls = λ c m named known. absurd (named (before_NoAfters c m));
}

abbrev sorted_a_b : State
sorted_a_b = record { cell = before_cell; sorted = "a" ∷ "b" ∷ [] }

before-precedes_example :
    (final : State) × (sort_each
        (0 ∷ 1 ∷ 2 ∷ [])
        ("a" ∷ "b" ∷ "p" ∷ [])
        4
        (0 ∷ 1 ∷ 2 ∷ [])
        (start before_cell)
      ≡ some final)
    × (precedes "p" "b" final.sorted ≡ true)
unfolding sort_each get_r_index
before-precedes_example =
    before-precedes before_cell (0 ∷ 1 ∷ []) [] 2 (λ _. 0) 0 before_acyclic 3 (omega arith)
      sorted_a_b refl refl (ne_of_test "b" "" refl) refl

sort_each-plain_example :
    sort_each (0 ∷ 1 ∷ []) ("a" ∷ "b" ∷ []) 1 (0 ∷ 1 ∷ []) (start before_cell)
    ≡ some (record { cell = before_cell; sorted = "a" ∷ "b" ∷ [] })
sort_each-plain_example = sort_each-plain before_cell (0 ∷ 1 ∷ []) 0 (refl, refl, (refl, refl, tt))

abbrev registry : Callback
registry = record {
  creates = [];
  updates = [];
  deletes = [];
  queries = [];
  row_queries = [];
  processors = 0 ∷ 1 ∷ 2 ∷ [];
}

get-latest_example :
    get 0 "b" (record { cell = before_cell; next = 3 }, registry)
    ≡ some (
        choose before_cell
          (latest before_cell (of_kind before_cell "create" (0 ∷ 1 ∷ 2 ∷ [])) "b")
          none)
get-latest_example =
    get-latest 0 "b" (record { cell = before_cell; next = 3 }) registry (ne_of_test "b" "" refl)
      (λ _ e. cc, (λ _ e. cc, (λ _ e. cc, tt)))
