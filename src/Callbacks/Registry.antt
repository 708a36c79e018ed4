-- ===== src/Callbacks/Registry.antt =====
-- `Register`, `Remove`, `Replace`, `Get` and `reorder` of callback.go, over one `Callback`.
use gorm.Prelude.{
  ℕ, String, true, ◌&&◌, Option, none, some, List, [], ◌∷◌, ◌++◌, ◌==◌, if◌then◌else◌, not,
}
use gorm.Callbacks.Objects.{CallbackProcessor, Heap, Callback, write}
use gorm.Callbacks.Sort.{sort_processors}

-- The processors that have a name and are of the kind.
unfoldable pub of_kind : (ℕ → CallbackProcessor) → String → List ℕ → List ℕ
of_kind cell kind [] = []
of_kind cell kind (p ∷ rest) =
    let others = of_kind cell kind rest in
    if not ((cell p).name == "") && (cell p).kind == kind then p ∷ others else others

abbrev pub World : Type 0
World = Heap × Callback

-- One line `c.creates = sortProcessors(creates)` of `reorder`, and the rest of it.
abbrev pub sort_kind : ℕ → List ℕ → Heap → (Heap → List (Option ℕ) → Option World) → Option World
sort_kind fuel cps h k = elim (sort_processors fuel h.cell cps) [
  | none ↦ none
  | some (cell, funcs) ↦ k (record h { cell = cell }) funcs
]

-- Callback.reorder
unfoldable pub reorder : ℕ → World → Option World
unfolding of_kind sort_processors
reorder fuel (h, c) =
    let kind = λ (k : String). of_kind h.cell k c.processors in
    sort_kind fuel (kind "create") h λ h1 creates. sort_kind fuel (kind "update") h1 λ h2 updates.
      sort_kind fuel (kind "delete") h2 λ h3 deletes. sort_kind fuel (kind "query") h3 λ h4 queries.
        sort_kind fuel (kind "row_query") h4 λ h5 row_queries. some (
          h5,
          record c {
            creates = creates;
            updates = updates;
            deletes = deletes;
            queries = queries;
            row_queries = row_queries;
          },
        )

-- cp.parent.processors = append(cp.parent.processors, cp); cp.parent.reorder()
unfoldable pub enlist : ℕ → ℕ → CallbackProcessor → World → Option World
unfolding reorder
enlist fuel cp v (h, c) =
    reorder fuel
      (record h { cell = write h.cell cp v }, record c { processors = c.processors ++ cp ∷ [] })

-- The default order of a row query callback that names none.
abbrev pub default_before : String → CallbackProcessor → String
default_before name p =
    if p.kind == "row_query" && p.before == "" && p.after == "" && not (name == "gorm:row_query")
    then "gorm:row_query"
    else p.before

-- CallbackProcessor.Register
unfoldable pub register : ℕ → ℕ → String → ℕ → World → Option World
unfolding enlist
register fuel cp name callback (h, c) =
    let p = h.cell cp in
    enlist fuel cp
      (record p { before = default_before name p; name = name; processor = some callback }) (h, c)

-- CallbackProcessor.Remove
unfoldable pub remove : ℕ → ℕ → String → World → Option World
unfolding enlist
remove fuel cp name (h, c) =
    enlist fuel cp (record (h.cell cp) { name = name; remove = true }) (h, c)

-- CallbackProcessor.Replace
unfoldable pub replace : ℕ → ℕ → String → ℕ → World → Option World
unfolding enlist
replace fuel cp name callback (h, c) =
    enlist fuel cp (record (h.cell cp) { name = name; processor = some callback; replace = true })
      (h, c)

-- One round of the loop of `Get`; `none` is the panic of reading through a nil handler.
unfoldable pub get_step : CallbackProcessor → String → String → Option ℕ → Option (Option ℕ)
get_step p name kind callback =
    if p.name == name && p.kind == kind
    then (if p.remove then some none else elim p.processor [ none ↦ none | some f ↦ some (some f) ])
    else some callback

-- The loop: a later processor of the name and kind overwrites an earlier one.
unfoldable pub get_loop :
    (ℕ → CallbackProcessor) → String → String → List ℕ → Option ℕ → Option (Option ℕ)
unfolding get_step
get_loop cell name kind [] callback = some callback
get_loop cell name kind (p ∷ rest) callback = elim (get_step (cell p) name kind callback) [
  | none ↦ none
  | some found ↦ get_loop cell name kind rest found
]

-- CallbackProcessor.Get
unfoldable pub get : ℕ → String → World → Option (Option ℕ)
unfolding get_loop
get cp name (h, c) = get_loop h.cell name (h.cell cp).kind c.processors none
