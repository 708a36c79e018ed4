-- ===== src/Prelude/Texts.antt =====
-- Texts put together the way `fmt.Sprintf` and `strings.Join` do.
use Prim.Native.String.{String, ◌++◌}
use mathlib.Core.List.{List, [], ◌∷◌}

abbrev pub concat : List String → String
concat [] = ""
concat (s ∷ rest) = s ++ concat rest

-- strings.Join, with the separator first.
abbrev pub join : String → List String → String
join sep [] = ""
join sep (s ∷ []) = s
join sep (s ∷ t ∷ rest) = s ++ (sep ++ join sep (t ∷ rest))

-- Three texts, one behind the other.
abbrev pub glue : String → String → String → String
glue s t rest = s ++ (t ++ rest)

-- A text behind another one, by recursion on the first.
abbrev pub behind : String → String → String
behind String.[] t = t
behind (String.◌∷◌ c s) t = String.◌∷◌ c (behind s t)
