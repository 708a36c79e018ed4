-- ===== src/Naming/Cache.antt =====
-- The cache of `defaultNamer` does not show, whatever the order of the calls is.
use gorm.Naming.{db_name_of, SafeMap, get, set, default_namer}
use gorm.Prelude.{
  String, ◌≡◌, refl, sym, ap, ◌∙◌, ◌⊎◌, inl, inr, true, false, [], ◌==◌, ==_sound, ==_refl,
  Bool-cases,
}

-- What calls of `defaultNamer` on several goroutines do to the map: each of its two accesses is under
-- the lock, and a call writes the name that it computed, at any later time.
pub data Step : SafeMap → SafeMap → Type 0 where
  read : (m : SafeMap) → Step m m
  write : (m : SafeMap) (name : String) → Step m (set m name (db_name_of name))

pub data Steps : SafeMap → SafeMap → Type 0 where
  none_yet : (m : SafeMap) → Steps m m
  and_then : (a b c : SafeMap) → Steps a b → Step b c → Steps a c

-- Each entry is the name that is computed for its key.
abbrev pub IsFaithful : SafeMap → Type 0
IsFaithful m = (name : String) → (get m name ≡ "") ⊎ (get m name ≡ db_name_of name)

Step-IsFaithful : (a b : SafeMap) → Step a b → IsFaithful a → IsFaithful b
Step-IsFaithful a b (read _) f name = f name
Step-IsFaithful a b (write _ key) f name = elim (Bool-cases (key == name)) [
  | inl same ↦ inr (unfold get in rw same (ap db_name_of (==_sound key name same)))
  | inr different ↦ unfold get in rw different (f name)
]

pub Steps-IsFaithful : (a b : SafeMap) → Steps a b → IsFaithful a → IsFaithful b
Steps-IsFaithful a b (none_yet _) f = f
Steps-IsFaithful a b (and_then _ m _ steps last) f =
    Step-IsFaithful m b last (Steps-IsFaithful a m steps f)

start_IsFaithful : IsFaithful []
unfolding get
start_IsFaithful name = inl refl

empty_name : db_name_of "" ≡ ""
unfolding db_name_of
empty_name = refl

module _ (m : SafeMap) (name : String) where
  default_namer-found : (get m name == "") ≡ false → default_namer m name ≡ (get m name, m)
  unfolding default_namer
  default_namer-found full = rw (default_namer, full) refl

  default_namer-empty :
      (get m name == "") ≡ true → (name == "") ≡ true → default_namer m name ≡ ("", m)
  unfolding default_namer
  default_namer-empty missing none_given = rw (default_namer, missing, none_given) refl

  default_namer-new :
      (get m name == "") ≡ true
      → (name == "") ≡ false
      → default_namer m name ≡ (db_name_of name, set m name (db_name_of name))
  unfolding default_namer
  default_namer-new missing given = rw (default_namer, missing, given) refl

  found_name : IsFaithful m → (get m name == "") ≡ false → get m name ≡ db_name_of name
  found_name faithful full = elim (faithful name) [
    | inl empty ↦ absurd (cc (sym full, ap (λ s. s == "") empty, ==_refl ""))
    | inr same ↦ same
  ]

  -- The cache of defaultNamer does not show: on any map that calls have left, in whatever order
  -- their accesses came, a call gives the name that is computed without the cache, and leaves such
  -- a map.
  pub default_namer-Steps :
      Steps [] m → ((default_namer m name).0 ≡ db_name_of name) × Steps [] (default_namer m name).1
  default_namer-Steps steps = elim (Bool-cases (get m name == "")) [
    | inr full ↦
        rw (default_namer-found full)
          (found_name (Steps-IsFaithful [] m steps start_IsFaithful) full, steps)
    | inl missing ↦ elim (Bool-cases (name == "")) [
      | inl none_given ↦
          rw (default_namer-empty missing none_given)
            (sym empty_name ∙ ap db_name_of (sym (==_sound name "" none_given)), steps)
      | inr given ↦
          rw (default_namer-new missing given) (refl, and_then [] m _ steps (write m name))
    ]
  ]
