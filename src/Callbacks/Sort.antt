-- ===== src/Callbacks/Sort.antt =====
-- `getRIndex` and `sortProcessors` of callback.go.
use gorm.Prelude.{
  ℕ, zero, suc, ◌+◌, String, Bool, false, Option, none, some, List, [], ◌∷◌, ◌++◌, ◌==◌, length,
  get_elem?, take, drop, map, if◌then◌else◌,
}
use gorm.Callbacks.Objects.{CallbackProcessor, write}

-- strs[i] == str
abbrev pub matches_at : List String → String → ℕ → Bool
matches_at strs str i = elim (get_elem? strs i) [ none ↦ false | some s ↦ s == str ]

-- The loop of `getRIndex`, with `i` rounds left.
unfoldable pub scan : List String → String → ℕ → Option ℕ
scan strs str zero = none
scan strs str (suc i) = let rest = scan strs str i in if matches_at strs str i then some i else rest

-- getRIndex; `none` is -1.
unfoldable pub get_r_index : List String → String → Option ℕ
unfolding scan
get_r_index strs str = scan strs str (length strs)

-- append(strs[:index], append([]string{name}, strs[index:]...)...)
abbrev pub insert_at : ℕ → String → List String → List String
insert_at index name strs = take index strs ++ (name ∷ drop index strs)

-- What the closure `sortCallbackProcessor` writes: the processors and `sortedNames`.
pub record State : Type 0 where
  pub cell : ℕ → CallbackProcessor
  pub sorted : List String

-- A call that returns, or `none` for one that does not: the recursion does not end, or an index is
-- out of range.
abbrev pub Call : Type 0
Call = ℕ → State → Option State

abbrev pub and_then : Option State → (State → Option State) → Option State
and_then none f = none
and_then (some st) f = f st

-- if cp.before == "" { cp.before = c.name }
abbrev pub set_before_if_empty : ℕ → String → State → State
set_before_if_empty cp name st =
    if (st.cell cp).before == ""
    then record st { cell = write st.cell cp (record (st.cell cp) { before = name }) }
    else st

-- sortCallbackProcessor(cps[index])
abbrev pub call_at : List ℕ → Call → ℕ → State → Option State
call_at cps rec index st = elim (get_elem? cps index) [ none ↦ none | some cp ↦ rec cp st ]

-- The append at the end of the closure.
abbrev pub append_last : ℕ → State → State
append_last c st = elim (get_r_index st.sorted (st.cell c).name) [
  | some _ ↦ st
  | none ↦ record st { sorted = st.sorted ++ (st.cell c).name ∷ [] }
]

module _ (cps : List ℕ) (all_names : List String) where
  -- if c.before != "" { … }
  unfoldable pub sort_before : Call → Call
  sort_before rec c st =
      let name = (st.cell c).name in
      let before = (st.cell c).before in
      if before == "" then some st else elim (get_r_index st.sorted before) [
        | some index ↦ some (record st { sorted = insert_at index name st.sorted })
        | none ↦ elim (get_r_index all_names before) [
          | some index ↦ call_at cps rec index (record st { sorted = st.sorted ++ name ∷ [] })
          | none ↦ some st
        ]
      ]

  -- if c.after != "" { … }
  unfoldable pub sort_after : Call → Call
  sort_after rec c st =
      let name = (st.cell c).name in
      let after = (st.cell c).after in
      if after == "" then some st else elim (get_r_index st.sorted after) [
        | some index ↦ some (record st { sorted = insert_at (index + 1) name st.sorted })
        | none ↦ elim (get_r_index all_names after) [
          | some index ↦ call_at cps (λ cp s. rec cp (set_before_if_empty cp name s)) index st
          | none ↦ some st
        ]
      ]

  -- The body of the closure, whose recursive calls are `rec`.
  unfoldable pub sort_body : Call → Call
  unfolding sort_before sort_after
  sort_body rec c st = elim (get_r_index st.sorted (st.cell c).name) [
    | some _ ↦ some st
    | none ↦
        and_then (sort_before rec c st)
          λ st1. and_then (sort_after rec c st1) λ st2. some (append_last c st2)
  ]

  -- sortCallbackProcessor
  unfoldable pub sort_callback_processor : ℕ → Call
  unfolding sort_body
  sort_callback_processor zero c st = none
  sort_callback_processor (suc fuel) c st = sort_body (sort_callback_processor fuel) c st

  -- for _, cp := range cps { sortCallbackProcessor(cp) }
  unfoldable pub sort_each : ℕ → List ℕ → State → Option State
  unfolding sort_callback_processor
  sort_each fuel [] st = some st
  sort_each fuel (cp ∷ rest) st =
      and_then (sort_callback_processor fuel cp st) (sort_each fuel rest)

-- allNames
abbrev pub names : (ℕ → CallbackProcessor) → List ℕ → List String
names cell cps = map (λ cp. (cell cp).name) cps

-- The last of `cps` that is named so: cps[getRIndex(allNames, name)].
unfoldable pub latest : (ℕ → CallbackProcessor) → List ℕ → String → Option ℕ
latest cell cps name = elim (get_r_index (names cell cps) name) [
  | none ↦ none
  | some index ↦ get_elem? cps index
]

-- The loop that fills `sortedFuncs`.
unfoldable pub sorted_funcs :
    (ℕ → CallbackProcessor) → List ℕ → List String → Option (List (Option ℕ))
unfolding latest
sorted_funcs cell cps [] = some []
sorted_funcs cell cps (name ∷ rest) = elim (latest cell cps name) [
  | none ↦ none
  | some cp ↦ elim (sorted_funcs cell cps rest) [
    | none ↦ none
    | some funcs ↦ some (if (cell cp).remove then funcs else (cell cp).processor ∷ funcs)
  ]
]

-- sortProcessors: the processors as it leaves them, and the handlers in order.
unfoldable pub sort_processors :
    ℕ → (ℕ → CallbackProcessor) → List ℕ → Option ((ℕ → CallbackProcessor) × List (Option ℕ))
unfolding sort_each sorted_funcs
sort_processors fuel cell cps =
    elim (sort_each cps (names cell cps) fuel cps (record { cell = cell; sorted = [] })) [
      | none ↦ none
      | some st ↦ elim (sorted_funcs st.cell cps st.sorted) [
        | none ↦ none
        | some funcs ↦ some (st.cell, funcs)
      ]
    ]
