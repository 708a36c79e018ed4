-- ===== src/Callbacks/Samples.antt =====
-- The registrations of callback_create.go and of a few plugins, run.
use gorm.Prelude.{ℕ, zero, suc, String, ◌≡◌, refl, Option, none, some, List, [], ◌∷◌}
use gorm.Callbacks.Objects.{CallbackProcessor, blank}
use gorm.Callbacks.Sort.{get_r_index, sort_processors}
use gorm.Callbacks.Registry.{register, remove, replace, get, reorder}

-- Processors at the addresses 0, 1, …, each with a handler that has the address plus 100.
abbrev pub processor : String → String → String → ℕ → CallbackProcessor
processor name before after handler = record (blank "create") {
  name = name;
  before = before;
  after = after;
  processor = some handler;
}

abbrev pub cells : List CallbackProcessor → ℕ → CallbackProcessor
cells [] n = blank ""
cells (p ∷ ps) zero = p
cells (p ∷ ps) (suc n) = cells ps n

abbrev defaults : List CallbackProcessor
defaults =
    processor "gorm:begin_transaction" "" "" 1
    ∷ processor "gorm:before_create" "" "" 2
    ∷ processor "gorm:create" "" "" 3
    ∷ []

program : Unit {0}
unfolding sort_processors get_r_index register remove replace get reorder
program = tt

abbrev handlers : List CallbackProcessor → List ℕ → Option (List (Option ℕ))
handlers ps cps = elim (sort_processors 20 (cells ps) cps) [ none ↦ none | some (_, f) ↦ some f ]

abbrev addresses : List ℕ
addresses = 0 ∷ 1 ∷ 2 ∷ 3 ∷ []

sort_defaults : handlers defaults (0 ∷ 1 ∷ 2 ∷ []) ≡ some (some 1 ∷ some 2 ∷ some 3 ∷ [])
unfolding program
sort_defaults = refl

-- Before with a callback that is sorted already.
sort_before_first :
    handlers
      (processor "a" "" "" 1 ∷ processor "b" "" "" 2 ∷ processor "p" "b" "" 3 ∷ [])
      (0 ∷ 1 ∷ 2 ∷ [])
    ≡ some (some 1 ∷ some 3 ∷ some 2 ∷ [])
unfolding program
sort_before_first = refl

-- Before and After at once: the handler stands in the list twice.
sort_twice :
    handlers
      (processor "a" "" "" 1 ∷ processor "b" "" "" 2 ∷ processor "p" "b" "a" 3 ∷ [])
      (0 ∷ 1 ∷ 2 ∷ [])
    ≡ some (some 1 ∷ some 3 ∷ some 3 ∷ some 2 ∷ [])
unfolding program
sort_twice = refl

-- A chain of Afters, registered with its last link first: the middle handler stands there twice.
sort_chain :
    handlers
      (processor "c" "" "" 1 ∷ processor "a" "" "b" 2 ∷ processor "b" "" "c" 3 ∷ [])
      (0 ∷ 1 ∷ 2 ∷ [])
    ≡ some (some 1 ∷ some 3 ∷ some 3 ∷ some 2 ∷ [])
unfolding program
sort_chain = refl

-- A callback before "b", and "b" before "d": it runs after "b".
sort_misplaced :
    handlers
      (processor "d" "" "" 1 ∷ processor "c" "b" "" 2 ∷ processor "b" "d" "" 3 ∷ [])
      (0 ∷ 1 ∷ 2 ∷ [])
    ≡ some (some 3 ∷ some 1 ∷ some 2 ∷ [])
unfolding program
sort_misplaced = refl
