-- ===== src/Callbacks/Termination.antt =====
-- The recursion of `sortCallbackProcessor` ends if the Afters have no cycle: each call that
-- `before` makes has one more name sorted, and each call that `after` makes goes up one link.
use gorm.Prelude.{
  ℕ, suc, ◌+◌, ◌*◌, ◌≤◌, ◌<◌, String, ◌≡◌, ◌≢◌, refl, ◌∙◌, true, false, List, [], ◌∷◌, ◌++◌, eq_iff,
  ==_refl, arith, length, contains, if◌then◌else◌,
}
use gorm.Callbacks.Objects.{CallbackProcessor}
use gorm.Callbacks.Index.{contains-append}
use gorm.Callbacks.Sort.{State, names}
use gorm.Callbacks.Rule.{name_of, contains_address}
use gorm.Callbacks.Growth.{Extends, Extends-set_before_if_empty}
use gorm.Callbacks.Context.{IsInside, Bounds, contains-names}

-- How many of the names are not sorted yet.
pub remaining : List String → List String → ℕ
remaining [] sorted = 0
remaining (s ∷ rest) sorted =
    if contains sorted s then remaining rest sorted else suc (remaining rest sorted)

remaining-nil : (all : List String) → remaining all [] ≡ length all
unfolding remaining
remaining-nil [] = refl
remaining-nil (s ∷ rest) = omega (arith, remaining-nil rest)

length-names : (cell : ℕ → CallbackProcessor) (cps : List ℕ) → length (names cell cps) ≡ length cps
length-names cell [] = refl
length-names cell (c ∷ cps) = omega (arith, length-names cell cps)

abbrev Within : List String → List String → Type 0
Within a b = (s : String) → contains a s ≡ true → contains b s ≡ true

remaining_mono : (all a b : List String) → Within a b → remaining all b ≤ remaining all a
unfolding remaining
remaining_mono [] a b h = omega arith
remaining_mono (s ∷ rest) a b h = ground (arith, remaining_mono rest a b h, h s)

remaining_less :
    (all a b : List String) (n : String)
    → Within a b
    → contains all n ≡ true
    → contains a n ≡ false
    → contains b n ≡ true
    → remaining all b < remaining all a
unfolding remaining
remaining_less [] a b n h m absent present = ground arith
remaining_less (s ∷ rest) a b n h m absent present =
    ground (arith, remaining_mono rest a b h, remaining_less rest a b n h, h s, eq_iff s n)

-- `rank` goes up along the Afters among the names, and is at most `top` there.
pub record IsAcyclic (cell : ℕ → CallbackProcessor) (cps : List ℕ) (rank : String → ℕ) (top : ℕ)
    : Type 0 where
  pub bounded : (s : String) → contains (names cell cps) s ≡ true → rank s ≤ top
  pub falls :
      (c : ℕ)
      → contains_address cps c ≡ true
      → (cell c).after ≢ ""
      → contains (names cell cps) (cell c).after ≡ true
      → rank (cell c).after < rank (cell c).name

module _ (cell : ℕ → CallbackProcessor) (cps : List ℕ) (rank : String → ℕ) (top : ℕ)
    (acyclic : IsAcyclic cell cps rank top) where
  abbrev pub all : List String
  all = names cell cps

  abbrev pub Bound : ℕ → ℕ → State → Type 0
  Bound fuel c st = remaining all st.sorted * (top + 1) + rank (name_of st c) < fuel

  step_down :
      (r r' k k' f : ℕ) → r' < r → k' ≤ top → r * (top + 1) + k < suc f → r' * (top + 1) + k' < f
  step_down r r' k k' f less fits h = grind arith

  step_up :
      (r r' k k' f : ℕ) → r' ≤ r → k' < k → r * (top + 1) + k < suc f → r' * (top + 1) + k' < f
  step_up r r' k k' f fits less h = grind arith

  go_up :
      (fuel c cp : ℕ) (st st1 st2 : State)
      → IsInside cps cell c st
      → Bound (suc fuel) c st
      → Extends all st st1
      → Extends all st1 st2
      → (st1.cell c).after ≢ ""
      → contains_address cps cp ≡ true
      → name_of st1 cp ≡ (st1.cell c).after
      → Bound fuel cp st2
  go_up fuel c cp st st1 st2 inside h r w named member here =
      let after = (r.fields c).after ∙ (inside.fields c).after in
      let name = (w.fields cp).name ∙ here ∙ after in
      let inside_name = (r.fields cp).name ∙ (inside.fields cp).name in
      let less =
        acyclic.falls c inside.member (λ e. named (after ∙ e))
          (ground (arith, contains-names cell cps cp member, here, after, inside_name)) in
      step_up (remaining all st.sorted) (remaining all st2.sorted) (rank (name_of st c))
        (rank (name_of st2 cp)) fuel
        (remaining_mono all st.sorted st2.sorted (λ s m. w.keeps s (r.keeps s m)))
        (rw (name, (inside.fields c).name) less) h

  pub bounds : Bounds cps cell ⊥ Bound
  bounds = record {
    used_up = λ c st inside h. omega arith;
    before = λ fuel c cp st inside h new own other.
        let n = name_of st c in
        step_down (remaining all st.sorted) (remaining all (st.sorted ++ n ∷ [])) (rank n)
          (rank (name_of st cp)) fuel
          (remaining_less all st.sorted (st.sorted ++ n ∷ []) n
            (λ s m. ground (arith, contains-append st.sorted (n ∷ []) s)) own new
            (ground (arith, contains-append st.sorted (n ∷ []) n, ==_refl n)))
          (acyclic.bounded (name_of st cp) other) h;
    after = λ fuel c cp st st1 inside h r named member here.
        go_up fuel c cp st st1 _ inside h r (Extends-set_before_if_empty st1 cp (name_of st1 c))
          named member here;
  }

  enough_fuel : (r k n f : ℕ) → r ≤ n → k ≤ top → n * (top + 1) + top < f → r * (top + 1) + k < f
  enough_fuel r k n f few fits h = grind arith

  -- The fuel that `sortProcessors` needs for each of its calls.
  pub start_Bound :
      (fuel c : ℕ) (st : State)
      → IsInside cps cell c st
      → length cps * (top + 1) + top < fuel
      → Bound fuel c st
  start_Bound fuel c st inside h =
      let some_left = remaining_mono all [] st.sorted (λ s m. ground arith) in
      let fits =
        acyclic.bounded (name_of st c)
          (ground (arith, contains-names cell cps c inside.member, (inside.fields c).name)) in
      enough_fuel (remaining all st.sorted) (rank (name_of st c)) (length cps) fuel
        (omega (arith, some_left, remaining-nil all, length-names cell cps)) fits h
