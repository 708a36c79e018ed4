-- ===== src/Write/Attributes/Allowed.antt =====
-- Which columns an update through `updatedAttrsWithValues` of scope.go may write.
use gorm.Model.{Value}
use gorm.Query.Builder.{QueryScope}
use gorm.Query.Search.{Search}
use gorm.Write.{Run, Outside, fields_of, select_attrs}
use gorm.Write.Attributes.{Updating}
use gorm.Write.Attributes.Names.{names_of, is_allowed, IsNoField}
use gorm.Prelude.{ℕ, String, ◌≡◌, ◌⊎◌, Bool, true, false, Option, some, List, [], ◌∷◌, get_elem?}

-- A column that an update may write: that of a field which the search selects and does not omit, or
-- one that no field has.
abbrev pub IsPermitted : Outside → QueryScope → String → Type 0
IsPermitted out qs key =
    ((i : ℕ) × (n : String) × (get_elem? (names_of qs.scope.fields) i ≡ some (n, key))
      × (is_allowed (select_attrs out qs) qs.search.omits (n, key) ≡ true))
    ⊎ IsNoField key (names_of qs.scope.fields)

abbrev pub AllPermitted : Outside → QueryScope → List (String × Value) → Type 0
AllPermitted out qs [] = Unit
AllPermitted out qs ((key, v) ∷ attrs) = IsPermitted out qs key × AllPermitted out qs attrs

module _ (out : Outside) (qs : QueryScope) (old : Option (List (String × Value))) where
  -- The run has the names of the fields, the search and the attributes that it began with.
  abbrev pub Keeps : Run → Type 0
  Keeps run =
      (names_of (fields_of run) ≡ names_of qs.scope.fields)
      × (run.query.search ≡ qs.search)
      × (run.update_attrs ≡ old)

  abbrev pub Permits : Updating → Type 0
  Permits st = Keeps st.run × AllPermitted out qs st.results

-- What the callback leaves: the attributes of the update, or the rest skipped.
abbrev pub IsAssigned : Outside → Run → Run × Bool → Type 0
IsAssigned out before (run, skipped) =
    ((skipped ≡ true) × (run.update_attrs ≡ before.update_attrs))
    ⊎ ((skipped ≡ false)
        × (attrs : List (String × Value)) × (run.update_attrs ≡ some attrs)
        × AllPermitted out before.query attrs)
