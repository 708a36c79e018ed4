-- ===== src/Callbacks/Select.antt =====
-- `Get` and the last loop of `sortProcessors` choose the same processor for a name.
use gorm.Prelude.{
  ℕ, String, ◌≡◌, ◌≢◌, Bool, false, Option, none, some, List, [], ◌∷◌, inl, inr, ◌==◌, eq_iff,
  arith, get_elem?, if◌then◌else◌, Option-cases,
}
use gorm.Callbacks.Objects.{CallbackProcessor, Heap, Callback}
use gorm.Callbacks.Index.{get_r_index-nil, get_r_index-cons, get_elem?-get_r_index}
use gorm.Callbacks.Sort.{get_r_index, names, latest}
use gorm.Callbacks.Context.{get_elem?-names-none}
use gorm.Callbacks.Registry.{of_kind, get_loop, get}

abbrev later : Option ℕ → Bool → ℕ → Option ℕ
later (some q) b p = some q
later none b p = if b then some p else none

latest-nil : (cell : ℕ → CallbackProcessor) (name : String) → latest cell [] name ≡ none
unfolding latest
latest-nil cell name = ground (arith, get_r_index-nil name)

latest-cons :
    (cell : ℕ → CallbackProcessor) (p : ℕ) (ps : List ℕ) (name : String)
    → latest cell (p ∷ ps) name ≡ later (latest cell ps name) ((cell p).name == name) p
unfolding latest
latest-cons cell p ps name = elim (Option-cases (get_r_index (names cell ps) name)) [
  | inl absent ↦ ground (arith, get_r_index-cons (cell p).name (names cell ps) name)
  | inr (i, found) ↦ elim (Option-cases (get_elem? ps i)) [
    | inl missing ↦ absurd (
        ground
          (arith, get_elem?-names-none cell ps i, get_elem?-get_r_index (names cell ps) name i))
    | inr (c, here) ↦ ground (arith, get_r_index-cons (cell p).name (names cell ps) name)
  ]
]

-- A processor that is not a removal has a handler, as `Register` and `Replace` give it one.
abbrev pub HasHandlers : (ℕ → CallbackProcessor) → List ℕ → Type 0
HasHandlers cell [] = Unit
HasHandlers cell (p ∷ ps) =
    ((cell p).remove ≡ false → (cell p).processor ≢ none) × HasHandlers cell ps

-- What a processor puts in force: nothing if it removes.
abbrev pub choose : (ℕ → CallbackProcessor) → Option ℕ → Option ℕ → Option ℕ
choose cell none callback = callback
choose cell (some p) callback = if (cell p).remove then none else (cell p).processor

get_loop-latest :
    (cell : ℕ → CallbackProcessor) (name kind : String) (ps : List ℕ) (callback : Option ℕ)
    → name ≢ ""
    → HasHandlers cell ps
    → get_loop cell name kind ps callback
      ≡ some (choose cell (latest cell (of_kind cell kind ps) name) callback)
unfolding get_loop of_kind
get_loop-latest cell name kind [] callback named h = ground (arith, latest-nil cell name)
get_loop-latest cell name kind (p ∷ ps) callback named h = ground (
  arith,
  h.0,
  eq_iff (cell p).name name,
  eq_iff (cell p).name "",
  latest-cons cell p (of_kind cell kind ps) name,
  get_loop-latest cell name kind ps callback named h.1,
  get_loop-latest cell name kind ps none named h.1,
  get_loop-latest cell name kind ps (cell p).processor named h.1,
)

-- Where every processor that is not a removal has a handler, Get of a name that is not empty
-- returns the handler of the last processor that sortProcessors finds for this name among those of
-- the kind, and none if that one is a removal or there is none.
pub get-latest :
    (cp : ℕ) (name : String) (h : Heap) (c : Callback)
    → name ≢ ""
    → HasHandlers h.cell c.processors
    → get cp name (h, c)
      ≡ some
          (choose h.cell (latest h.cell (of_kind h.cell (h.cell cp).kind c.processors) name) none)
unfolding get
get-latest cp name h c named good =
    get_loop-latest h.cell name (h.cell cp).kind c.processors none named good
