-- ===== src/Callbacks/Plain.antt =====
-- Callbacks registered with neither Before nor After, as all of gorm's own are, run in the order of
-- their registration.
use gorm.Prelude.{
  ℕ, suc, String, ◌≡◌, refl, true, false, some, List, [], ◌∷◌, ◌++◌, eq_iff, arith, contains, inl,
  inr, Option-cases, if◌then◌else◌,
}
use gorm.Callbacks.Objects.{CallbackProcessor}
use gorm.Callbacks.Index.{is_some-get_r_index}
use gorm.Callbacks.Sort.{
  get_r_index, State, names, sort_each, sort_before, sort_after, sort_body, append_last,
  sort_callback_processor,
}
use gorm.Callbacks.Rule.{name_of, put}
use gorm.Callbacks.Outcome.{start}

-- The names in order, each where it stands first.
abbrev pub first_names : List String → List String → List String
first_names done [] = done
first_names done (s ∷ rest) = first_names (if contains done s then done else done ++ s ∷ []) rest

abbrev pub AllPlain : (ℕ → CallbackProcessor) → List ℕ → Type 0
AllPlain cell [] = Unit
AllPlain cell (c ∷ cps) = ((cell c).before ≡ "") × ((cell c).after ≡ "") × AllPlain cell cps

module _ (cps : List ℕ) (all : List String) (fuel : ℕ) where
  sort_plain :
      (c : ℕ) (st : State)
      → (st.cell c).before ≡ ""
      → (st.cell c).after ≡ ""
      → sort_callback_processor cps all (suc fuel) c st
        ≡ some (
            put st (
              if contains st.sorted (name_of st c)
              then st.sorted
              else st.sorted ++ name_of st c ∷ []))
  unfolding sort_callback_processor
  sort_plain c st b a = elim (Option-cases (get_r_index st.sorted (name_of st c))) [
    | inr (i, found) ↦
        let present : contains st.sorted (name_of st c) ≡ true =
          ground (arith, is_some-get_r_index st.sorted (name_of st c)) in
        rw (sort_body, found, present)
    | inl absent ↦
        let missing : contains st.sorted (name_of st c) ≡ false =
          ground (arith, is_some-get_r_index st.sorted (name_of st c)) in
        rw (
          sort_body,
          absent,
          sort_before,
          (eq_iff (st.cell c).before "").1 b,
          sort_after,
          (eq_iff (st.cell c).after "").1 a,
          append_last,
          absent,
          missing,
        )
  ]

  sort_each_plain :
      (cell : ℕ → CallbackProcessor) (rest : List ℕ) (done : List String)
      → AllPlain cell rest
      → sort_each cps all (suc fuel) rest (record { cell = cell; sorted = done })
        ≡ some (record { cell = cell; sorted = first_names done (names cell rest) })
  unfolding sort_each
  sort_each_plain cell [] done plain = refl
  sort_each_plain cell (c ∷ rest) done plain =
      rw (sort_plain c (record { cell = cell; sorted = done }) plain.0 plain.1)
        (sort_each_plain cell rest _ plain.2)

-- If no processor has a Before or an After, one call each is enough: the sort ends with the names
-- in the order of their first registrations, and writes to no processor.
pub sort_each-plain :
    (cell : ℕ → CallbackProcessor) (cps : List ℕ) (fuel : ℕ)
    → AllPlain cell cps
    → sort_each cps (names cell cps) (suc fuel) cps (start cell)
      ≡ some (record { cell = cell; sorted = first_names [] (names cell cps) })
sort_each-plain cell cps fuel plain = sort_each_plain cps (names cell cps) fuel cell cps [] plain
