-- ===== src/Callbacks/Index.antt =====
-- `getRIndex` by recursion on the list, and what it finds.
use gorm.Prelude.{
  ℕ, zero, suc, String, ◌≡◌, refl, Bool, true, false, ◌||◌, Option, none, some, List, [], ◌∷◌, ◌++◌,
  ◌==◌, eq_iff, arith, length, get_elem?, contains, if◌then◌else◌,
}
use gorm.Callbacks.Sort.{scan, get_r_index, insert_at}

-- The index in `x ∷ xs`, from the index in `xs` and whether `x` matches.
abbrev pub shift : Option ℕ → Bool → Option ℕ
shift (some i) b = some (suc i)
shift none b = if b then some 0 else none

scan-cons :
    (x : String) (xs : List String) (str : String) (n : ℕ)
    → scan (x ∷ xs) str (suc n) ≡ shift (scan xs str n) (x == str)
unfolding scan
scan-cons x xs str zero = ground arith
scan-cons x xs str (suc n) = ground (arith, scan-cons x xs str n)

pub get_r_index-nil : (str : String) → get_r_index [] str ≡ none
unfolding get_r_index
get_r_index-nil str = refl

pub get_r_index-cons :
    (x : String) (xs : List String) (str : String)
    → get_r_index (x ∷ xs) str ≡ shift (get_r_index xs str) (x == str)
unfolding get_r_index
get_r_index-cons x xs str = scan-cons x xs str (length xs)

abbrev pub is_some : Option ℕ → Bool
is_some none = false
is_some (some i) = true

-- `getRIndex` finds a name exactly if the list holds it.
pub is_some-get_r_index :
    (xs : List String) (str : String) → is_some (get_r_index xs str) ≡ contains xs str
is_some-get_r_index [] str = ground (arith, get_r_index-nil str)
is_some-get_r_index (x ∷ xs) str =
    ground (arith, get_r_index-cons x xs str, is_some-get_r_index xs str)

-- What stands at the index is the name.
pub get_elem?-get_r_index :
    (xs : List String) (str : String) (i : ℕ)
    → get_r_index xs str ≡ some i
    → get_elem? xs i ≡ some str
get_elem?-get_r_index [] str i h = ground (arith, get_r_index-nil str)
get_elem?-get_r_index (x ∷ xs) str zero h = ground (arith, get_r_index-cons x xs str, eq_iff x str)
get_elem?-get_r_index (x ∷ xs) str (suc i) h =
    ground (arith, get_r_index-cons x xs str, get_elem?-get_r_index xs str i)

pub contains-append :
    (xs ys : List String) (s : String) → contains (xs ++ ys) s ≡ (contains xs s || contains ys s)
contains-append [] ys s = refl
contains-append (x ∷ xs) ys s = ground (arith, contains-append xs ys s)

pub contains-insert_at :
    (i : ℕ) (n : String) (xs : List String) (s : String)
    → contains (insert_at i n xs) s ≡ (n == s || contains xs s)
contains-insert_at zero n xs s = refl
contains-insert_at (suc i) n [] s = refl
contains-insert_at (suc i) n (x ∷ xs) s = ground (arith, contains-insert_at i n xs s)
