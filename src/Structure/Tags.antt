-- ===== src/Structure/Tags.antt =====
-- What `parseTagSetting` of model_struct.go reads back from a tag that was written part by part.
use Prim.Native.Char.{Char, char, code}
use Prim.Native.String
use Prim.Native.String.append
use text.Mathlib.TextEquality.{Char-path}
use gorm.Model.{has_char, push, split_on}
use gorm.Structure.{Settings, put_setting, part_key, put_part, put_parts}
use gorm.Prelude.{
  ℕ, String, ◌≡◌, refl, sym, ap, ◌∙◌, Bool, true, false, ◌||◌, List, [], ◌∷◌, join, behind, nat_eq,
  arith, Bool-cases, inl, inr,
}

abbrev colon : Char
colon = char b':' tt

abbrev semicolon : Char
semicolon = char b';' tt

-- A setting, and settings, as a tag has them.
abbrev pub write_setting : String × String → String
write_setting (key, value) = behind key (String.◌∷◌ colon value)

abbrev pub write_settings : Settings → String
write_settings [] = ""
write_settings (p ∷ []) = write_setting p
write_settings (p ∷ q ∷ settings) =
    behind (write_setting p) (String.◌∷◌ semicolon (write_settings (q ∷ settings)))

split_on-behind :
    (sep : ℕ) (mark : Char) (a rest : String)
    → nat_eq (code mark) sep ≡ true
    → has_char sep a ≡ false
    → split_on sep (behind a (String.◌∷◌ mark rest)) ≡ a ∷ split_on sep rest
unfolding split_on has_char
split_on-behind sep mark String.[] rest is h = ground (arith, is)
split_on-behind sep mark (String.◌∷◌ c a) rest is h =
    ground (arith, h, split_on-behind sep mark a rest is)

split_on-none : (sep : ℕ) (a : String) → has_char sep a ≡ false → split_on sep a ≡ a ∷ []
unfolding split_on has_char
split_on-none sep String.[] h = refl
split_on-none sep (String.◌∷◌ c a) h = ground (arith, h, split_on-none sep a)

has_char-behind :
    (sep : ℕ) (a b : String) → has_char sep (behind a b) ≡ (has_char sep a || has_char sep b)
unfolding has_char
has_char-behind sep String.[] b = refl
has_char-behind sep (String.◌∷◌ c a) b = ground (arith, has_char-behind sep a b)

is_colon : (c : Char) → nat_eq (code c) b':' ≡ true → c ≡ colon
is_colon c h = Char-path c colon (ground (arith, h))

append-cons :
    (c : Char) (s t : String) → String.◌++◌ (String.◌∷◌ c s) t ≡ String.◌∷◌ c (String.◌++◌ s t)
append-cons c s t = λ i. append.cons c s t i

append-empty : (t : String) → String.◌++◌ "" t ≡ t
append-empty t = λ i. append.nil t i

append-colon : (t : String) → String.◌++◌ "" (String.◌++◌ ":" t) ≡ String.◌∷◌ colon t
append-colon t =
    append-empty (String.◌++◌ ":" t)
    ∙ append-cons colon "" t
    ∙ ap (λ u. String.◌∷◌ colon u) (append-empty t)

join-push :
    (c : Char) (part : String) (parts : List String)
    → join ":" (push c (part ∷ parts)) ≡ String.◌∷◌ c (join ":" (part ∷ parts))
join-push c part [] = refl
join-push c part (next ∷ parts) = append-cons c part (String.◌++◌ ":" (join ":" (next ∷ parts)))

-- Joining undoes the split at the colons, which is never empty.
join-split_on :
    (s : String)
    → (part : String) × (parts : List String) × (split_on b':' s ≡ part ∷ parts)
      × (join ":" (part ∷ parts) ≡ s)
unfolding split_on
join-split_on String.[] = ("", [], refl, refl)
join-split_on (String.◌∷◌ c s) =
    let (part, parts, split, joined) = join-split_on s in
    elim (Bool-cases (nat_eq (code c) b':')) [
      | inl is ↦ (
        "",
        part ∷ parts,
        rw is (ap (λ l. "" ∷ l) split),
        append-colon (join ":" (part ∷ parts))
            ∙ ap (λ t. String.◌∷◌ colon t) joined
            ∙ ap (λ d. String.◌∷◌ d s) (sym (is_colon c is)),
      )
      | inr other ↦ (
        String.◌∷◌ c part,
        parts,
        rw other (ap (push c) split),
        join-push c part parts ∙ ap (λ t. String.◌∷◌ c t) joined,
      )
    ]

-- A setting that a tag can hold: its key is in capitals, without blanks around it, and has neither a
-- colon nor a semicolon, and its value has no semicolon.
pub record IsSetting (p : String × String) : Type 0 where
  pub key_same : part_key p.0 ≡ p.0
  pub no_colon : has_char b':' p.0 ≡ false
  pub no_semicolon : has_char b';' p.0 ≡ false
  pub value_no_semicolon : has_char b';' p.1 ≡ false

abbrev pub AllSettings : Settings → Type 0
AllSettings [] = Unit
AllSettings (p ∷ settings) = IsSetting p × AllSettings settings

put_part-setting :
    (p : String × String) (settings : Settings)
    → IsSetting p
    → put_part (split_on b':' (write_setting p)) settings ≡ put_setting p.0 p.1 settings
unfolding put_part
put_part-setting (key, value) settings h =
    let (part, parts, split, joined) = join-split_on value in
    ap (λ l. put_part l settings)
      (split_on-behind b':' colon key value refl h.no_colon ∙ ap (λ l. key ∷ l) split)
    ∙ cc (h.key_same, joined)

write_setting-no_semicolon :
    (p : String × String) → IsSetting p → has_char b';' (write_setting p) ≡ false
write_setting-no_semicolon (key, value) h =
    has_char-behind b';' key (String.◌∷◌ colon value)
    ∙ (unfold has_char in ground (arith, h.no_semicolon, h.value_no_semicolon))

-- The settings, put one after the other.
unfoldable pub put_settings : Settings → Settings → Settings
put_settings [] settings = settings
put_settings (p ∷ more) settings = put_settings more (put_setting p.0 p.1 settings)

pub put_parts-settings :
    (p : String × String) (more settings : Settings)
    → AllSettings (p ∷ more)
    → put_parts (split_on b';' (write_settings (p ∷ more))) settings
      ≡ put_settings (p ∷ more) settings
unfolding put_parts put_settings
put_parts-settings p [] settings (h, _) =
    ap (λ l. put_parts l settings)
      (split_on-none b';' (write_setting p) (write_setting-no_semicolon p h))
    ∙ put_part-setting p settings h
put_parts-settings p (q ∷ more) settings (h, hs) =
    ap (λ l. put_parts l settings)
      (split_on-behind b';' semicolon (write_setting p) (write_settings (q ∷ more)) refl
        (write_setting-no_semicolon p h))
    ∙ ap (put_parts (split_on b';' (write_settings (q ∷ more)))) (put_part-setting p settings h)
    ∙ put_parts-settings q more (put_setting p.0 p.1 settings) hs

or_true : (b : Bool) → (b || true) ≡ true
or_true true = refl
or_true false = refl

true_or : (b c : Bool) → b ≡ true → (b || c) ≡ true
true_or b c h = rw h refl

write_setting-colon : (p : String × String) → has_char b':' (write_setting p) ≡ true
write_setting-colon (key, value) =
    has_char-behind b':' key (String.◌∷◌ colon value)
    ∙ (unfold has_char in or_true (has_char b':' key))

-- Settings that are not empty are written with a colon.
pub write_settings-colon :
    (p : String × String) (settings : Settings)
    → has_char b':' (write_settings (p ∷ settings)) ≡ true
write_settings-colon p [] = write_setting-colon p
write_settings-colon p (q ∷ settings) =
    has_char-behind b':' (write_setting p) (String.◌∷◌ semicolon (write_settings (q ∷ settings)))
    ∙ true_or (has_char b':' (write_setting p)) _ (write_setting-colon p)
