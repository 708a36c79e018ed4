-- ===== src/Dialects/Keys.antt =====
-- The names that MySQL gets for keys fit, and are made of the characters of a word.
use Prim.Native.Char.{code}
use gorm.Dialects.{
  is_alphanumeric, clean, build_key_name, rune_count, take_runes, mysql_build_key_name,
}
use gorm.Model.{is_word, all_word}
use gorm.Prelude.{
  ℕ, zero, suc, ◌+◌, ◌≤◌, String, ◌≡◌, refl, Bool, true, false, List, [], ◌∷◌, leb, behind, concat,
  join, arith, Bool-cases, inl, inr,
}

rune_count-behind : (s t : String) → rune_count (behind s t) ≡ rune_count s + rune_count t
rune_count-behind String.[] t = omega arith
rune_count-behind (String.◌∷◌ c s) t = omega (arith, rune_count-behind s t)

rune_count-take_runes : (n : ℕ) (s : String) → rune_count (take_runes n s) ≤ n
unfolding take_runes
rune_count-take_runes zero s = omega arith
rune_count-take_runes (suc n) String.[] = omega arith
rune_count-take_runes (suc n) (String.◌∷◌ c s) = omega (arith, rune_count-take_runes n s)

all_word-behind :
    (s t : String) → all_word s ≡ true → all_word t ≡ true → all_word (behind s t) ≡ true
unfolding all_word
all_word-behind String.[] t h k = k
all_word-behind (String.◌∷◌ c s) t h k = ground (arith, h, all_word-behind s t)

all_word-take_runes : (n : ℕ) (s : String) → all_word s ≡ true → all_word (take_runes n s) ≡ true
unfolding all_word take_runes
all_word-take_runes zero s h = refl
all_word-take_runes (suc n) String.[] h = refl
all_word-take_runes (suc n) (String.◌∷◌ c s) h = ground (arith, h, all_word-take_runes n s)

alphanumeric_word : (c : ℕ) → is_alphanumeric c ≡ true → is_word c ≡ true
unfolding is_alphanumeric is_word
alphanumeric_word c h = ground (arith, h)

clean-Word : (pending : Bool) (s : String) → all_word (clean pending s) ≡ true
unfolding all_word clean is_word
clean-Word false String.[] = refl
clean-Word true String.[] = refl
clean-Word false (String.◌∷◌ c s) = elim (Bool-cases (is_alphanumeric (code c))) [
  | inl kept ↦
      rw (clean, kept) (ground (arith, alphanumeric_word (code c) kept, clean-Word false s))
  | inr dropped ↦ rw (clean, dropped) (clean-Word true s)
]
clean-Word true (String.◌∷◌ c s) = elim (Bool-cases (is_alphanumeric (code c))) [
  | inl kept ↦
      rw (clean, kept) (ground (arith, alphanumeric_word (code c) kept, clean-Word false s))
  | inr dropped ↦ rw (clean, dropped) (clean-Word true s)
]

-- For a digest of forty characters, all of a word, a key name of MySQL has at most 64 characters,
-- which are letters, digits and underscores, whatever the kind, the table and the fields are.
pub mysql_build_key_name-bounds :
    (sha1 : String → String) (kind table field : String) (fields : List String)
    → ((s : String) → rune_count (sha1 s) ≡ 40)
    → ((s : String) → all_word (sha1 s) ≡ true)
    → (rune_count (mysql_build_key_name sha1 kind table field fields) ≤ 64)
      × (all_word (mysql_build_key_name sha1 kind table field fields) ≡ true)
unfolding mysql_build_key_name build_key_name
mysql_build_key_name-bounds sha1 kind table field fields sized hex =
    let key_name = build_key_name kind table (field ∷ fields) in
    let start = take_runes 24 (clean false field) in
    elim (Bool-cases (leb (rune_count key_name) 64)) [
      | inl fits ↦
          rw (mysql_build_key_name, fits)
            (
              ground (arith, fits),
              clean-Word false (concat (kind ∷ "_" ∷ table ∷ "_" ∷ join "_" (field ∷ fields) ∷ [])),
            )
      | inr long ↦
          rw (mysql_build_key_name, long)
            (
              omega (
                arith,
                rune_count-behind start (sha1 key_name),
                rune_count-take_runes 24 (clean false field),
                sized key_name,
              ),
              all_word-behind start (sha1 key_name)
                  (all_word-take_runes 24 (clean false field) (clean-Word false field))
                  (hex key_name),
            )
    ]
