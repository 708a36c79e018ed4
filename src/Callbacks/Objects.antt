-- ===== src/Callbacks/Objects.antt =====
-- The objects of callback.go: `CallbackProcessor`, `Callback`, and the methods that only fill fields.
-- A `*CallbackProcessor` is an address in a heap, since sorting writes through the pointers it is
-- given and one pointer may be registered twice. A handler is known by its address alone.
use gorm.Prelude.{ℕ, ◌+◌, String, Bool, false, Option, none, List, nat_eq, if◌then◌else◌}

pub record CallbackProcessor : Type 0 where
  pub name : String
  pub before : String
  pub after : String
  pub replace : Bool
  pub remove : Bool
  pub kind : String
  pub processor : Option ℕ

pub record Heap : Type 0 where
  pub cell : ℕ → CallbackProcessor
  pub next : ℕ

pub record Callback : Type 0 where
  pub creates : List (Option ℕ)
  pub updates : List (Option ℕ)
  pub deletes : List (Option ℕ)
  pub queries : List (Option ℕ)
  pub row_queries : List (Option ℕ)
  pub processors : List ℕ

-- Callback.clone
unfoldable pub clone : Callback → Callback
clone c = record {
  creates = c.creates;
  updates = c.updates;
  deletes = c.deletes;
  queries = c.queries;
  row_queries = c.row_queries;
  processors = c.processors;
}

-- *p = v
abbrev pub write : (ℕ → CallbackProcessor) → ℕ → CallbackProcessor → ℕ → CallbackProcessor
write cell p v q = if nat_eq p q then v else cell q

abbrev pub blank : String → CallbackProcessor
blank kind = record {
  name = "";
  before = "";
  after = "";
  replace = false;
  remove = false;
  kind = kind;
  processor = none;
}

-- Callback.Create, Update, Delete, Query and RowQuery: a new processor of the kind, and its address.
unfoldable pub new_processor : String → Heap → Heap × ℕ
new_processor kind h =
    (record { cell = write h.cell h.next (blank kind); next = h.next + 1 }, h.next)

-- CallbackProcessor.After
unfoldable pub set_after : ℕ → String → Heap → Heap
set_after cp name h = record h { cell = write h.cell cp (record (h.cell cp) { after = name }) }

-- CallbackProcessor.Before
unfoldable pub set_before : ℕ → String → Heap → Heap
set_before cp name h = record h { cell = write h.cell cp (record (h.cell cp) { before = name }) }
