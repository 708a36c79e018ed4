-- ===== src/Dameng/Identifiers.antt =====
-- The Dameng dialect reads back the identifiers that it quotes.
use Prim.Native.Char.{Char}
use gorm.Dameng.{
  is_quote, double, closed, quote_identifier, halve, before_quote, inner_name, index_identifier,
  index_identifier_quoted, normalize_index_and_column,
}
use gorm.Prelude.{String, ◌≡◌, refl, false, some, Bool-cases, inl, inr, behind}

halve-double : (s : String) → halve false (double s) ≡ s
unfolding halve double
halve-double String.[] = refl
halve-double (String.◌∷◌ c s) = elim (Bool-cases (is_quote c)) [
  | inl quote_here ↦ rw (double, halve, quote_here, quote_here, halve-double s) refl
  | inr plain_char ↦ rw (double, halve, plain_char, plain_char, halve-double s) refl
]

before_quote-closed : (c : Char) (s : String) → before_quote c (closed s) ≡ some (String.◌∷◌ c s)
unfolding before_quote closed
before_quote-closed c String.[] = refl
before_quote-closed c (String.◌∷◌ d s) = rw (before_quote-closed d s)

inner_name-quote_identifier :
    (name : String) → inner_name (quote_identifier name) ≡ some (double name)
unfolding quote_identifier inner_name closed before_quote
inner_name-quote_identifier name = go (double name)
  where
    go : (s : String) → inner_name (behind "\"" (closed s)) ≡ some s
    go String.[] = refl
    go (String.◌∷◌ c s) = before_quote-closed c s

-- Both functions on index names give back the name that was quoted, quotes inside it included, and
-- NormalizeIndexAndColumn leaves a quoted name as it is.
pub index_identifier-quote_identifier :
    (name column : String)
    → (index_identifier (quote_identifier name) ≡ name)
      × (index_identifier_quoted (quote_identifier name) ≡ name)
      × (normalize_index_and_column (quote_identifier name) column
          ≡ (quote_identifier name, column))
unfolding index_identifier index_identifier_quoted normalize_index_and_column
index_identifier-quote_identifier name column =
    let found = inner_name-quote_identifier name in
    (
      rw (index_identifier, found) (halve-double name),
      rw (index_identifier_quoted, found) (halve-double name),
      rw (normalize_index_and_column, index_identifier_quoted, found, halve-double name) refl,
    )
