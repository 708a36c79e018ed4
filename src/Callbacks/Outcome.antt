-- ===== src/Callbacks/Outcome.antt =====
-- What `sortProcessors` returns: with Afters that have no cycle it ends, and sorts every name.
use gorm.Prelude.{
  ℕ, ◌+◌, ◌*◌, ◌<◌, String, ◌≡◌, refl, sym, Bool, true, false, inl, inr, Option, none, some, List,
  [], ◌∷◌, eq_iff, ==_refl, arith, length, get_elem?, contains, if◌then◌else◌, Option-cases,
}
use gorm.Callbacks.Objects.{CallbackProcessor}
use gorm.Callbacks.Index.{get_elem?-get_r_index, is_some-get_r_index}
use gorm.Callbacks.Sort.{
  get_r_index, State, names, sort_each, latest, sorted_funcs, sort_processors,
}
use gorm.Callbacks.Rule.{Ends, nowhere, at, name_of, IsDone, AllDone, sort_each-Ends}
use gorm.Callbacks.Growth.{SameFields, Extends, Extends-refl}
use gorm.Callbacks.Context.{names_same, get_elem?-names-none, IsInside, context_rule}
use gorm.Callbacks.Termination.{IsAcyclic, bounds, start_Bound}

abbrev pub start : (ℕ → CallbackProcessor) → State
start cell = record { cell = cell; sorted = [] }

pub returns :
    {Q : State → Type 0} (o : Option State) → Ends ⊥ Q o → (st : State) × (o ≡ some st) × Q st
returns none (nowhere n) = absurd n
returns (some st) (at q) = (st, refl, q)

latest-some :
    (cell : ℕ → CallbackProcessor) (cps : List ℕ) (name : String)
    → contains (names cell cps) name ≡ true
    → (c : ℕ) × (latest cell cps name ≡ some c)
unfolding latest
latest-some cell cps name h = elim (Option-cases (get_r_index (names cell cps) name)) [
  | inl absent ↦ absurd (ground (arith, is_some-get_r_index (names cell cps) name))
  | inr (i, found) ↦ elim (Option-cases (get_elem? cps i)) [
    | inl missing ↦ absurd (
        ground
          (arith, get_elem?-names-none cell cps i, get_elem?-get_r_index (names cell cps) name i))
    | inr (c, here) ↦ (c, rw (found, latest) here)
  ]
]

sorted_funcs-some :
    (cell : ℕ → CallbackProcessor) (cps : List ℕ) (sorted : List String)
    → ((s : String) → contains sorted s ≡ true → contains (names cell cps) s ≡ true)
    → (funcs : List (Option ℕ)) × (sorted_funcs cell cps sorted ≡ some funcs)
unfolding sorted_funcs
sorted_funcs-some cell cps [] h = ([], refl)
sorted_funcs-some cell cps (s ∷ rest) h =
    let (c, found) = latest-some cell cps s (h s (ground (arith, ==_refl s))) in
    let (funcs, more) = sorted_funcs-some cell cps rest (λ t m. h t (ground arith)) in
    (if (cell c).remove then funcs else (cell c).processor ∷ funcs, rw (found, more, sorted_funcs))

done_names :
    (cell : ℕ → CallbackProcessor) (cps : List ℕ) (st : State)
    → ((c : ℕ) → SameFields (st.cell c) (cell c))
    → AllDone cps st
    → (s : String) → contains (names cell cps) s ≡ true
    → contains st.sorted s ≡ true
done_names cell [] st f d s h = ground arith
done_names cell (c ∷ cps) st f d s h =
    ground (arith, eq_iff (cell c).name s, (f c).name, d.0, done_names cell cps st f d.1 s)

pub keep-IsDone :
    (all : List String) (c : ℕ) (a b : State) → Extends all a b → IsDone c a → IsDone c b
keep-IsDone all c a b r d = rw (r.fields c).name (r.keeps (name_of a c) d)

same_test : (a b : Bool) → (a ≡ true → b ≡ true) → (b ≡ true → a ≡ true) → a ≡ b
same_test true b f g = sym (f refl)
same_test false true f g = g refl
same_test false false f g = refl

module _ (cell : ℕ → CallbackProcessor) (cps : List ℕ) (rank : String → ℕ) (top : ℕ)
    (acyclic : IsAcyclic cell cps rank top) (fuel : ℕ)
    (enough : length cps * (top + 1) + top < fuel) where
  sort_each_returns :
      (st : State) × (sort_each cps (names cell cps) fuel cps (start cell) ≡ some st)
      × Extends (names cell cps) (start cell) st
      × AllDone cps st
  sort_each_returns =
      let (st, ended, both) = returns _ (
        sort_each-Ends (context_rule (bounds cell cps rank top acyclic)) fuel cps (start cell)
          (start cell) (keep-IsDone (names cell cps)) (Extends-refl (start cell))
          λ c s m r.
            let inside : IsInside cps cell c s = record { fields = r.fields; member = m } in
            (inside, start_Bound cell cps rank top acyclic fuel c s inside enough)) in
      (st, ended, both.0, both.1)

  -- If the Afters of the callbacks have no cycle and there is enough fuel, sortProcessors returns:
  -- the sorted names are exactly the registered ones, the handlers are looked up from them, and of
  -- a processor only its Before may have changed.
  pub sort_processors_returns :
      (st : State) × (funcs : List (Option ℕ)) × (sort_processors fuel cell cps
        ≡ some (st.cell, funcs))
      × (sorted_funcs st.cell cps st.sorted ≡ some funcs)
      × ((s : String) → contains st.sorted s ≡ contains (names cell cps) s)
      × ((c : ℕ) → SameFields (st.cell c) (cell c))
  unfolding sort_processors
  sort_processors_returns =
      let (st, ended, grown, done) = sort_each_returns in
      let same = names_same cell st.cell cps grown.fields in
      let (funcs, filled) =
        sorted_funcs-some st.cell cps st.sorted (λ s m. rw same (ground (arith, grown.only s m))) in
      (
        st,
        funcs,
        rw (sort_processors, ended, filled),
        filled,
        λ s.
            same_test _ _ (λ m. ground (arith, grown.only s m))
              (λ m. done_names cell cps st grown.fields done s m),
        grown.fields,
      )
