-- ===== src/Structure/RoundTrip.antt =====
-- `parseTagSetting` of model_struct.go undoes the writing of a tag.
use mathlib.Core.List.{append-nil, append_assoc}
use gorm.Model.{has_char}
use gorm.Structure.{Settings, put_setting, put_tag, parse_tag_setting}
use gorm.Structure.Tags.{
  AllSettings, write_settings, put_settings, put_parts-settings, write_settings-colon,
}
use gorm.Prelude.{
  String, ◌≡◌, refl, sym, ap, ◌∙◌, true, false, [], ◌∷◌, ◌++◌, ◌==◌, ==_sound, Bool-cases, inl, inr,
}

-- A key that no setting has.
abbrev IsNew : String → Settings → Type 0
IsNew key [] = Unit
IsNew key ((k, v) ∷ settings) = ((k == key) ≡ false) × IsNew key settings

-- The keys differ from each other and from those before.
abbrev pub AreDistinct : Settings → Settings → Type 0
AreDistinct before [] = Unit
AreDistinct before (p ∷ settings) = IsNew p.0 before × AreDistinct (before ++ p ∷ []) settings

put_setting-new :
    (key value : String) (settings : Settings)
    → IsNew key settings
    → put_setting key value settings ≡ settings ++ (key, value) ∷ []
unfolding put_setting
put_setting-new key value [] h = refl
put_setting-new key value ((k, v) ∷ settings) (differs, h) =
    rw differs (ap (λ l. (k, v) ∷ l) (put_setting-new key value settings h))

put_settings-distinct :
    (settings before : Settings)
    → AreDistinct before settings
    → put_settings settings before ≡ before ++ settings
unfolding put_settings
put_settings-distinct [] before h = sym (append-nil before)
put_settings-distinct (p ∷ settings) before (new, h) =
    ap (put_settings settings) (put_setting-new p.0 p.1 before new)
    ∙ put_settings-distinct settings (before ++ p ∷ []) h
    ∙ append_assoc before (p ∷ []) settings

false_true : {A : Type 0} → false ≡ true → A
false_true h = absurd (cc h)

not_empty : (s : String) → has_char b':' s ≡ true → (s == "") ≡ false
unfolding has_char
not_empty s h = elim (Bool-cases (s == "")) [
  | inr differs ↦ differs
  | inl empty ↦ false_true (sym (ap (has_char b':') (==_sound s "" empty)) ∙ h)
]

-- Settings with distinct keys, which are in capitals without blanks around them and hold neither a
-- colon nor a semicolon, and with values that hold no semicolon, though they may hold colons, come
-- back in their order from the tag that writes them as key:value, joined by semicolons, whether it
-- is the gorm tag or the sql tag of a field that has only one of the two.
pub parse_tag_setting-write_settings :
    (settings : Settings)
    → AllSettings settings
    → AreDistinct [] settings
    → (parse_tag_setting "" (write_settings settings) ≡ settings)
      × (parse_tag_setting (write_settings settings) "" ≡ settings)
unfolding parse_tag_setting put_tag
parse_tag_setting-write_settings [] all distinct = (refl, refl)
parse_tag_setting-write_settings (p ∷ settings) all distinct =
    let some_text = not_empty (write_settings (p ∷ settings)) (write_settings-colon p settings) in
    let parsed =
      put_parts-settings p settings [] all ∙ put_settings-distinct (p ∷ settings) [] distinct in
    (rw some_text parsed, rw some_text parsed)
