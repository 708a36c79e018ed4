-- ===== src/Write/Reload.antt =====
-- forceReloadAfterCreateCallback of callback_create.go: the query that reads back the columns which the
-- database has filled in.
use gorm.Model.{Field}
use gorm.Query.Builder.{QueryScope}
use gorm.Query.Load.{Loader, Loading, query_callback}
use gorm.Query.Search.{Search, columns, empty_search, add_where, select, set_table, sql, scalar}
use gorm.Prelude.{
  String, Bool, false, ◌&&◌, ◌||◌, not, Option, none, some, List, [], ◌∷◌, concat, if◌then◌else◌,
}

abbrev pub is_set_key : Field → Bool
is_set_key f = f.is_primary_key && not f.is_blank

-- The loop over the fields: the conditions on the primary keys.
unfoldable pub key_search : List Field → Search → Search
key_search [] s = s
key_search (f ∷ fields) s = key_search fields (
    if is_set_key f
    then add_where s (sql (concat (f.db_name ∷ " = ?" ∷ []))) (scalar f.value ∷ [])
    else s)

-- shouldScan
unfoldable pub has_set_key : List Field → Bool
has_set_key [] = false
has_set_key (f ∷ fields) = is_set_key f || has_set_key fields

-- The search of the query, for the setting `gorm:blank_columns_with_default_value` and the name of the
-- table, if there is a query.
unfoldable pub reload_search : Option (List String) → String → List Field → Option Search
unfolding key_search has_set_key
reload_search none table fields = none
reload_search (some names) table fields =
    if has_set_key fields
    then some (key_search fields (select (set_table empty_search table) (columns names) []))
    else none

-- The callback: `Scan` into the value, on the scope that `loader` has it as the destination of. Its
-- errors stay with the handle of the query; `none` is a panic.
unfoldable pub force_reload_after_create_callback :
    Loader → Option (List String) → String → QueryScope → Loading → Option Loading
unfolding reload_search query_callback
force_reload_after_create_callback loader blank_columns table qs s =
    elim (reload_search blank_columns table qs.scope.fields) [
      | none ↦ some s
      | some search ↦ query_callback loader (record qs { search = search }) s
    ]
