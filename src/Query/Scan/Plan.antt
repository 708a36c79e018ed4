-- ===== src/Query/Scan/Plan.antt =====
-- A scan plan stays in range, and no two columns are scanned into the same field.
use mathlib.Core.Path.{subst}
use gorm.Model.{Field}
use gorm.Query.Scan.{pick, selected, offset_of, field_for, remember, plan_from, build_scan_plan}
use gorm.Prelude.{
  ℕ, zero, suc, ◌+◌, ◌≤◌, ◌<◌, String, ◌≡◌, ◌≢◌, refl, sym, ap, ◌∙◌, ◌⊎◌, inl, inr, true, Option,
  none, some, List, [], ◌∷◌, ◌==◌, ==_sound, ==_refl, get_elem?, drop, arith, Bool-cases,
}

some_injective : {A : Type 0} (a b : A) → some a ≡ some b → a ≡ b
some_injective a b h = cc h

-- The field at an index has the column, and the index is not below `from`.
abbrev pub Fits : String → ℕ → List Field → ℕ → Type 0
Fits column from fields i =
    (k : ℕ) × (f : Field) × (i ≡ from + k)
    × (get_elem? fields k ≡ some f)
    × ((f.db_name == column) ≡ true)

Fits-cons :
    (column : String) (from : ℕ) (f : Field) (fields : List Field) (i : ℕ)
    → Fits column (suc from) fields i
    → Fits column from (f ∷ fields) i
Fits-cons column from f fields i (k, g, at, found, same) =
    (suc k, g, omega (arith, at), found, same)

pick-Fits :
    (column : String) (from : ℕ) (found : Option ℕ) (fields : List Field) (i : ℕ)
    → pick column from found fields ≡ some i
    → (found ≡ some i) ⊎ Fits column from fields i
unfolding pick
pick-Fits column from found [] i h = inl h
pick-Fits column from found (f ∷ fields) i h = elim (Bool-cases (f.db_name == column)) [
  | inr other_column ↦
      elim (pick-Fits column (suc from) found fields i (ground (arith, h, other_column))) [
        | inl old ↦ inl old
        | inr fits ↦ inr (Fits-cons column from f fields i fits)
      ]
  | inl same ↦
      let here : some from ≡ some i → Fits column from (f ∷ fields) i =
        λ e. (zero, f, omega (arith, some_injective from i e), refl, same) in
      elim (Bool-cases f.is_normal) [
        | inl normal ↦ inr (here (ground (arith, h, same, normal)))
        | inr relation ↦
            elim (pick-Fits column (suc from) (some from) fields i
              (ground (arith, h, same, relation))) [
                | inl this ↦ inr (here this)
                | inr fits ↦ inr (Fits-cons column from f fields i fits)
              ]
      ]
]

zero_plus : (k : ℕ) → k ≡ 0 + k
zero_plus k = omega arith

suc_plus : (n k : ℕ) → suc (n + k) ≡ suc n + k
suc_plus n k = omega arith

get_elem?-drop :
    (n k : ℕ) (fields : List Field) → get_elem? (drop n fields) k ≡ get_elem? fields (n + k)
get_elem?-drop zero k fields = ap (λ i. get_elem? fields i) (zero_plus k)
get_elem?-drop (suc n) k [] = refl
get_elem?-drop (suc n) k (f ∷ fields) =
    get_elem?-drop n k fields ∙ ap (λ i. get_elem? (f ∷ fields) i) (suc_plus n k)

-- The field at an index has the column.
abbrev pub Matches : String → List Field → ℕ → Type 0
Matches column fields i =
    (f : Field) × (get_elem? fields i ≡ some f) × ((f.db_name == column) ≡ true)

field_for-Matches :
    (entries : List (String × ℕ)) (column : String) (fields : List Field) (i : ℕ)
    → field_for entries column fields ≡ some i
    → (offset_of (selected entries column) ≤ i) × Matches column fields i
unfolding field_for
field_for-Matches entries column fields i h =
    let offset = offset_of (selected entries column) in
    elim (pick-Fits column offset none (drop offset fields) i h) [
      | inl absent ↦ absurd (cc absent)
      | inr (k, f, at, found, same) ↦ (
        omega (arith, at),
        (f, ap (λ n. get_elem? fields n) at ∙ sym (get_elem?-drop offset k fields) ∙ found, same),
      )
    ]

plan_from-Matches :
    (entries : List (String × ℕ)) (columns : List String) (fields : List Field) (k i : ℕ)
    → get_elem? (plan_from entries columns fields) k ≡ some (some i)
    → (column : String) × (get_elem? columns k ≡ some column) × Matches column fields i
unfolding plan_from
plan_from-Matches entries [] fields k i h = absurd (cc h)
plan_from-Matches entries (column ∷ columns) fields zero i h =
    (column, refl, (field_for-Matches entries column fields i (some_injective _ _ h)).1)
plan_from-Matches entries (column ∷ columns) fields (suc k) i h =
    plan_from-Matches (remember column (field_for entries column fields) entries) columns fields k i
      h

-- What the map has for a column after one more column.
selected-remember :
    (column c : String) (found : Option ℕ) (entries : List (String × ℕ)) (i : ℕ)
    → selected entries c ≡ some i
    → ((j : ℕ) → found ≡ some j → (column == c) ≡ true → i < j)
    → (i' : ℕ) × (selected (remember column found entries) c ≡ some i') × (i ≤ i')
unfolding selected
selected-remember column c none entries i h later = (i, h, omega arith)
selected-remember column c (some j) entries i h later = elim (Bool-cases (column == c)) [
  | inl same ↦ (j, rw (selected, same) refl, omega (arith, later j refl same))
  | inr different ↦ (i, rw (selected, different) h, omega arith)
]

field_for-later :
    (entries : List (String × ℕ)) (column c : String) (fields : List Field) (i : ℕ)
    → selected entries c ≡ some i
    → (j : ℕ) → field_for entries column fields ≡ some j
    → (column == c) ≡ true
    → i < j
field_for-later entries column c fields i known j found same =
    let stored = ap (λ x. selected entries x) (==_sound column c same) ∙ known in
    let low : suc i ≤ j =
      subst (λ o. offset_of o ≤ j) stored (field_for-Matches entries column fields j found).0 in
    omega (arith, low)

-- A later column of the same name is scanned into a later field.
plan_from-later :
    (entries : List (String × ℕ)) (columns : List String) (fields : List Field) (c : String)
    (l i j : ℕ)
    → selected entries c ≡ some i
    → get_elem? columns l ≡ some c
    → get_elem? (plan_from entries columns fields) l ≡ some (some j)
    → i < j
unfolding plan_from
plan_from-later entries [] fields c l i j known here h = absurd (cc here)
plan_from-later entries (column ∷ columns) fields c zero i j known here h =
    let same = some_injective column c here in
    let bound = (field_for-Matches entries column fields j (some_injective _ _ h)).0 in
    let stored = ap (λ x. selected entries x) same ∙ known in
    let low : suc i ≤ j = subst (λ o. offset_of o ≤ j) stored bound in omega (arith, low)
plan_from-later entries (column ∷ columns) fields c (suc l) i j known here h =
    let found = field_for entries column fields in
    let (i', kept, above) =
      selected-remember column c found entries i known
        (field_for-later entries column c fields i known) in
    let low = plan_from-later (remember column found entries) columns fields c l i' j kept here h in
    omega (arith, low, above)

selected-first :
    (column c : String) (found : Option ℕ) (entries : List (String × ℕ)) (i : ℕ)
    → found ≡ some i
    → (column == c) ≡ true
    → selected (remember column found entries) c ≡ some i
unfolding selected
selected-first column c none entries i h same = absurd (cc h)
selected-first column c (some j) entries i h same = rw (selected, same) h

one_column :
    (fields : List Field) (a b : String) (i j : ℕ)
    → i ≡ j
    → Matches a fields i
    → Matches b fields j
    → (a == b) ≡ true
one_column fields a b i j same (f, found, is_a) (g, found', is_b) =
    let one : some f ≡ some g = sym found ∙ ap (λ n. get_elem? fields n) same ∙ found' in
    let names : f.db_name ≡ g.db_name = ap (λ h. h.db_name) (some_injective f g one) in
    let both : a ≡ b = sym (==_sound f.db_name a is_a) ∙ names ∙ ==_sound g.db_name b is_b in
    subst (λ x. (a == x) ≡ true) both (==_refl a)

plan_from-distinct :
    (entries : List (String × ℕ)) (columns : List String) (fields : List Field) (k l i j : ℕ)
    → k < l
    → get_elem? (plan_from entries columns fields) k ≡ some (some i)
    → get_elem? (plan_from entries columns fields) l ≡ some (some j)
    → i ≢ j
unfolding plan_from
plan_from-distinct entries [] fields k l i j below first second = absurd (cc first)
plan_from-distinct entries (column ∷ columns) fields k zero i j below first second =
    absurd (omega (arith, below))
plan_from-distinct entries (column ∷ columns) fields zero (suc l) i j below first second =
    let found = field_for entries column fields in
    let rest = remember column found entries in
    let picked = some_injective _ _ first in
    let (c, here, matches) = plan_from-Matches rest columns fields l j second in
    λ same. elim (Bool-cases (column == c)) [
      | inl equal ↦
          let known = selected-first column c found entries i picked equal in
          let low = plan_from-later rest columns fields c l i j known here second in
          omega (arith, low, same)
      | inr different ↦
          let equal =
            one_column fields column c i j same (field_for-Matches entries column fields i picked).1
              matches in
          cc (equal, different)
    ]
plan_from-distinct entries (column ∷ columns) fields (suc k) (suc l) i j below first second =
    plan_from-distinct (remember column (field_for entries column fields) entries) columns fields k
      l i j (omega (arith, below)) first second

-- The plan for two columns of a result, where it has a field for both: each index is in range, the
-- field at it has the name of its column, and the two columns get different fields, also when they
-- have the same name.
pub build_scan_plan-Matches :
    (columns : List String) (fields : List Field) (k l i j : ℕ)
    → k < l
    → get_elem? (build_scan_plan columns fields) k ≡ some (some i)
    → get_elem? (build_scan_plan columns fields) l ≡ some (some j)
    → ((column : String) × (get_elem? columns k ≡ some column) × Matches column fields i)
      × ((column : String) × (get_elem? columns l ≡ some column) × Matches column fields j)
      × (i ≢ j)
unfolding build_scan_plan
build_scan_plan-Matches columns fields k l i j below first second = (
  plan_from-Matches [] columns fields k i first,
  plan_from-Matches [] columns fields l j second,
  plan_from-distinct [] columns fields k l i j below first second,
)
