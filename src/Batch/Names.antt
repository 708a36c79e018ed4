-- ===== src/Batch/Names.antt =====
-- The conflict target as the caller spells it: `newBatchSave` of batch_save.go.
use Prim.Native.Char.{Char, code}
use gorm.Model.{has_char, push, split_on}
use gorm.Prelude.{
  ℕ, String, ◌≡◌, refl, Bool, false, ◌&&◌, ◌||◌, List, [], ◌∷◌, ◌++◌, ◌==◌, arith, inl, inr, leb,
  nat_eq, Bool-cases, if◌then◌else◌,
}

-- unicode.IsSpace
is_space : ℕ → Bool
is_space c =
    (leb 9 c && leb c 13)
    || nat_eq c 32
    || nat_eq c 0x85
    || nat_eq c 0xa0
    || nat_eq c 0x1680
    || (leb 0x2000 c && leb c 0x200a)
    || nat_eq c 0x2028
    || nat_eq c 0x2029
    || nat_eq c 0x202f
    || nat_eq c 0x205f
    || nat_eq c 0x3000

trim_left : String → String
trim_left String.[] = ""
trim_left (String.◌∷◌ c s) =
    let rest = trim_left s in if is_space (code c) then rest else String.◌∷◌ c s

trim_right : String → String
trim_right String.[] = ""
trim_right (String.◌∷◌ c s) =
    let rest = trim_right s in if is_space (code c) && rest == "" then "" else String.◌∷◌ c rest

-- strings.TrimSpace
unfoldable pub trim_space : String → String
unfolding is_space trim_left trim_right
trim_space s = trim_right (trim_left s)

-- The inner loop, over the parts of one argument.
unfoldable pub trimmed_names : List String → List String
unfolding trim_space
trimmed_names [] = []
trimmed_names (part ∷ parts) =
    let rest = trimmed_names parts in
    let name = trim_space part in if name == "" then rest else name ∷ rest

-- newBatchSave; the value is the field `conflict`.
unfoldable pub new_batch_save : List String → List String
unfolding trimmed_names
new_batch_save [] = []
new_batch_save (arg ∷ args) = trimmed_names (split_on b',' arg) ++ new_batch_save args

has_char-trim_left :
    (sep : ℕ) (s : String) → has_char sep s ≡ false → has_char sep (trim_left s) ≡ false
unfolding trim_left has_char
has_char-trim_left sep String.[] h = refl
has_char-trim_left sep (String.◌∷◌ c s) h = ground (arith, has_char-trim_left sep s)

has_char-trim_right :
    (sep : ℕ) (s : String) → has_char sep s ≡ false → has_char sep (trim_right s) ≡ false
unfolding trim_right has_char
has_char-trim_right sep String.[] h = refl
has_char-trim_right sep (String.◌∷◌ c s) h =
    elim (Bool-cases (is_space (code c) && trim_right s == "")) [
      | inl e ↦ rw e refl
      | inr e ↦ rw e (ground (arith, has_char-trim_right sep s))
    ]

-- No part holds the separator.
abbrev pub NoneHas : ℕ → List String → Type 0
NoneHas sep [] = Unit
NoneHas sep (s ∷ rest) = (has_char sep s ≡ false) × NoneHas sep rest

push-NoneHas :
    (sep : ℕ) (c : Char) (parts : List String)
    → nat_eq (code c) sep ≡ false
    → NoneHas sep parts
    → NoneHas sep (push c parts)
unfolding has_char
push-NoneHas sep c [] h p = tt
push-NoneHas sep c (part ∷ parts) h p = (ground (arith, p.0), p.1)

split_on-NoneHas : (sep : ℕ) (s : String) → NoneHas sep (split_on sep s)
unfolding split_on has_char
split_on-NoneHas sep String.[] = (refl, tt)
split_on-NoneHas sep (String.◌∷◌ c s) = elim (Bool-cases (nat_eq (code c) sep)) [
  | inl e ↦ rw e (refl, split_on-NoneHas sep s)
  | inr e ↦ rw e (push-NoneHas sep c (split_on sep s) e (split_on-NoneHas sep s))
]

-- A name of the conflict target: not empty, and without a comma.
abbrev pub AllNames : List String → Type 0
AllNames [] = Unit
AllNames (s ∷ rest) = ((s == "") ≡ false) × (has_char b',' s ≡ false) × AllNames rest

trimmed_names-AllNames : (parts : List String) → NoneHas b',' parts → AllNames (trimmed_names parts)
unfolding trimmed_names
trimmed_names-AllNames [] h = tt
trimmed_names-AllNames (part ∷ parts) h = elim (Bool-cases (trim_space part == "")) [
  | inl e ↦ rw e (trimmed_names-AllNames parts h.1)
  | inr e ↦ rw e (
    e,
    has_char-trim_right b',' (trim_left part) (has_char-trim_left b',' part h.0),
    trimmed_names-AllNames parts h.1,
  )
]

append-AllNames : (xs ys : List String) → AllNames xs → AllNames ys → AllNames (xs ++ ys)
append-AllNames [] ys p q = q
append-AllNames (x ∷ xs) ys p q = (p.0, p.1, append-AllNames xs ys p.2 q)

-- Whatever the arguments are, every name of the conflict target is not empty and holds no comma.
pub new_batch_save-AllNames : (args : List String) → AllNames (new_batch_save args)
unfolding new_batch_save
new_batch_save-AllNames [] = tt
new_batch_save-AllNames (arg ∷ args) =
    append-AllNames (trimmed_names (split_on b',' arg)) (new_batch_save args)
      (trimmed_names-AllNames (split_on b',' arg) (split_on-NoneHas b',' arg))
      (new_batch_save-AllNames args)
