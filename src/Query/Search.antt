-- ===== src/Query/Search.antt =====
-- The search of search.go: the conditions that the methods of `DB` collect, and `clone`. A slice that
-- is cloned has no spare room, so that an append to the clone leaves the original alone; here lists
-- are values. The back reference `db` matters only to `Group` and is left out there.
use gorm.Errors.{Error}
use gorm.Model.{Value, nothing, Values, Field}
use gorm.Prelude.Int.{ℤ}
use gorm.Prelude.{
  String, Bool, true, false, not, Option, none, some, List, [], ◌∷◌, ◌++◌, ◌==◌, if◌then◌else◌,
}

-- An argument of a condition, as reflection sees it: a value, a `driver.Valuer` with what its `Value`
-- returns, or a slice, by its elements. Of a slice that is bound as one, `whole` is that value.
pub data Arg : Type 0 where
  scalar : Value → Arg
  valuer : Value → Error → Arg
  list : List Value → Arg
  bytes : (elements : List Value) (whole : Value) → Arg
  valuer_list : (elements : List Value) (whole : Value) → Error → Arg
  tuples : List (Value × List Value) → Arg

-- A struct that is given as a condition: the fields and the quoted table of its scope, and how it is
-- printed.
pub record Target : Type 0 where
  pub fields : List Field
  pub quoted_table : String
  pub shown : String

-- clause["query"]. The pairs of a map stand in the order in which the loop over the map meets them.
pub data Query : Type 0 where
  integer : ℤ → Query
  keys : Arg → Query
  sql : String → Query
  mapping : List (String × Value) → Query
  model : Target → Query
  no_query : Query

pub record Condition : Type 0 where
  pub query : Query
  pub args : List Arg

-- What `Select` is called with: a text, texts, a slice of any values, as they are printed, or
-- something else.
pub data Selection : Type 0 where
  column : String → Selection
  columns : List String → Selection
  printed : List String → Selection
  unknown : Selection

pub record Preload : Type 0 where
  pub schema : String
  pub conditions : List Arg

-- An element of `orders`.
pub data Order : Type 0 where
  by_text : String → Order
  by_expr : String → Values → Order
  by_other : Order

pub record Search : Type 0 where
  pub where_conditions : List Condition
  pub or_conditions : List Condition
  pub not_conditions : List Condition
  pub having_conditions : List Condition
  pub join_conditions : List Condition
  pub init_attrs : List Value
  pub assign_attrs : List Value
  pub selects : Option (Selection × List Arg)
  pub omits : List String
  pub orders : List Order
  pub preload : List Preload
  pub offset : Value
  pub limit : Value
  pub group : String
  pub table_name : String
  pub raw : Bool
  pub unscoped : Bool
  pub ignore_order_query : Bool

-- &search{}
abbrev pub empty_search : Search
empty_search = record {
  where_conditions = [];
  or_conditions = [];
  not_conditions = [];
  having_conditions = [];
  join_conditions = [];
  init_attrs = [];
  assign_attrs = [];
  selects = none;
  omits = [];
  orders = [];
  preload = [];
  offset = nothing;
  limit = nothing;
  group = "";
  table_name = "";
  raw = false;
  unscoped = false;
  ignore_order_query = false;
}

module _ (s : Search) where
  -- search.Where, Not, Or and Joins
  abbrev pub add_where : Query → List Arg → Search
  add_where q args = record s {
    where_conditions = s.where_conditions ++ record { query = q; args = args } ∷ [];
  }

  abbrev pub add_not : Query → List Arg → Search
  add_not q args = record s {
    not_conditions = s.not_conditions ++ record { query = q; args = args } ∷ [];
  }

  abbrev pub add_or : Query → List Arg → Search
  add_or q args = record s {
    or_conditions = s.or_conditions ++ record { query = q; args = args } ∷ [];
  }

  abbrev pub add_joins : String → List Arg → Search
  add_joins q args = record s {
    join_conditions = s.join_conditions ++ record { query = sql q; args = args } ∷ [];
  }

  -- search.Having, for a query that is no expression; an expression comes as its text and arguments.
  abbrev pub add_having : Query → List Arg → Search
  add_having q args = record s {
    having_conditions = s.having_conditions ++ record { query = q; args = args } ∷ [];
  }

  -- search.Attrs and Assign, of a value that `toSearchableMap` has made.
  abbrev pub add_attrs : Value → Search
  add_attrs v = record s { init_attrs = s.init_attrs ++ v ∷ [] }

  abbrev pub add_assign : Value → Search
  add_assign v = record s { assign_attrs = s.assign_attrs ++ v ∷ [] }

  -- value != nil && value != "", for the kinds of value that `Order` is given.
  abbrev pub is_order : Option Order → Bool
  is_order none = false
  is_order (some (by_text t)) = not (t == "")
  is_order (some _) = true

  abbrev pub appended : List Order → Option Order → List Order
  appended orders none = orders
  appended orders (some o) = if is_order (some o) then orders ++ o ∷ [] else orders

  -- search.Order
  abbrev pub order_by : Option Order → Bool → Search
  order_by value reorder = record s { orders = appended (if reorder then [] else s.orders) value }

  -- search.Select, Omit, Limit, Offset, Raw, unscoped and Table
  abbrev pub select : Selection → List Arg → Search
  select q args = record s { selects = some (q, args) }

  abbrev pub omit : List String → Search
  omit names = record s { omits = names }

  abbrev pub limit_to : Value → Search
  limit_to v = record s { limit = v }

  abbrev pub offset_by : Value → Search
  offset_by v = record s { offset = v }

  abbrev pub set_raw : Bool → Search
  set_raw b = record s { raw = b }

  abbrev pub set_unscoped : Search
  set_unscoped = record s { unscoped = true }

  abbrev pub set_table : String → Search
  set_table name = record s { table_name = name }

  -- search.Group, whose argument is always a text: `getInterfaceAsSQL` then drops "-1".
  abbrev pub group_by : String → Search
  group_by q = record s { group = if q == "-1" then "" else q }

-- The loop of `Preload`: the preloads of other schemas.
unfoldable pub other_preloads : String → List Preload → List Preload
other_preloads schema [] = []
other_preloads schema (p ∷ preloads) =
    let rest = other_preloads schema preloads in if p.schema == schema then rest else p ∷ rest

-- search.Preload
unfoldable pub add_preload : Search → String → List Arg → Search
unfolding other_preloads
add_preload s schema args = record s {
  preload = other_preloads schema s.preload ++ record { schema = schema; conditions = args } ∷ [];
}
