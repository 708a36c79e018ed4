-- ===== src/Callbacks/Single.antt =====
-- Without Afters every name is sorted once.
use gorm.Prelude.{
  ℕ, zero, suc, ◌<◌, String, ◌≡◌, ◌≢◌, refl, ◌∙◌, true, false, some, List, [], ◌∷◌, ◌++◌, eq_iff,
  arith, length, contains,
}
use gorm.Callbacks.Objects.{CallbackProcessor}
use gorm.Callbacks.Index.{contains-append, contains-insert_at}
use gorm.Callbacks.Sort.{insert_at, State, names, sort_each}
use gorm.Callbacks.Rule.{Rule, name_of, contains_address, sort_each-Ends}
use gorm.Callbacks.Growth.{Extends}
use gorm.Callbacks.Context.{IsInside, context_rule, absent}
use gorm.Callbacks.Termination.{IsAcyclic, Bound, bounds, start_Bound}
use gorm.Callbacks.Outcome.{start, returns, keep-IsDone}

abbrev pub IsDistinct : List String → Type 0
IsDistinct [] = Unit
IsDistinct (x ∷ xs) = (contains xs x ≡ false) × IsDistinct xs

IsDistinct-append :
    (n : String) (xs : List String)
    → contains xs n ≡ false
    → IsDistinct xs
    → IsDistinct (xs ++ n ∷ [])
IsDistinct-append n [] h d = (refl, tt)
IsDistinct-append n (x ∷ xs) h d = (
  ground (arith, contains-append xs (n ∷ []) x, eq_iff n x, eq_iff x n, d.0),
  IsDistinct-append n xs (ground arith) d.1,
)

IsDistinct-insert_at :
    (i : ℕ) (n : String) (xs : List String)
    → contains xs n ≡ false
    → IsDistinct xs
    → IsDistinct (insert_at i n xs)
IsDistinct-insert_at zero n xs h d = (h, d)
IsDistinct-insert_at (suc i) n [] h d = (refl, tt)
IsDistinct-insert_at (suc i) n (x ∷ xs) h d = (
  ground (arith, contains-insert_at i n xs x, eq_iff n x, eq_iff x n, d.0),
  IsDistinct-insert_at i n xs (ground arith) d.1,
)

record Single (all : List String) (a b : State) : Type 0 where
  grown : Extends all a b
  distinct : IsDistinct a.sorted → IsDistinct b.sorted

-- No processor names an After.
abbrev pub NoAfters : (ℕ → CallbackProcessor) → List ℕ → Type 0
NoAfters cell cps = (c : ℕ) → contains_address cps c ≡ true → (cell c).after ≡ ""

NoAfters-IsAcyclic :
    (cell : ℕ → CallbackProcessor) (cps : List ℕ)
    → NoAfters cell cps
    → IsAcyclic cell cps (λ _. 0) 0
NoAfters-IsAcyclic cell cps h = record {
  bounded = λ s m. omega arith;
  falls = λ c m named known. absurd (named (h c m));
}

module _ (cell : ℕ → CallbackProcessor) (cps : List ℕ) (no_afters : NoAfters cell cps) where
  acyclic : IsAcyclic cell cps (λ _. 0) 0
  acyclic = NoAfters-IsAcyclic cell cps no_afters

  base :
      Rule cps
        (names cell cps)
        ⊥
        (Extends (names cell cps))
        (λ fuel c st. IsInside cps cell c st × Bound cell cps (λ _. 0) 0 acyclic fuel c st)
  base = context_rule (bounds cell cps (λ _. 0) 0 acyclic)

  no_after_named :
      (c : ℕ) (st st1 : State)
      → IsInside cps cell c st
      → Single (names cell cps) st st1
      → (st1.cell c).after ≢ ""
      → ⊥
  no_after_named c st st1 inside r named =
      named ((r.grown.fields c).after ∙ (inside.fields c).after ∙ no_afters c inside.member)

  Single-rule :
      Rule cps
        (names cell cps)
        ⊥
        (Single (names cell cps))
        (λ fuel c st. IsInside cps cell c st × Bound cell cps (λ _. 0) 0 acyclic fuel c st)
  Single-rule = record {
    reflexive = λ st. record { grown = base.reflexive st; distinct = λ d. d };
    transitive = λ a b c r s. record {
      grown = base.transitive a b c r.grown s.grown;
      distinct = λ d. s.distinct (r.distinct d);
    };
    no_fuel = base.no_fuel;
    out_of_range = base.out_of_range;
    insert_before = λ fuel c index st ok new named found. record {
      grown = base.insert_before fuel c index st ok new named found;
      distinct =
          IsDistinct-insert_at index (name_of st c) st.sorted (absent st.sorted (name_of st c) new);
    };
    append_before = λ fuel c st ok new. record {
      grown = base.append_before fuel c st ok new;
      distinct = IsDistinct-append (name_of st c) st.sorted (absent st.sorted (name_of st c) new);
    };
    call_before = base.call_before;
    insert_after =
        λ fuel c index st st1 ok r named found. absurd (no_after_named c st st1 ok.0 r named);
    write_after = λ fuel c cp st st1 ok r named. absurd (no_after_named c st st1 ok.0 r named);
    call_after = λ fuel c index cp st st1 ok r named found here.
        absurd (no_after_named c st st1 ok.0 r named);
    append_after = λ fuel c st st2 ok r new. record {
      grown = base.append_after fuel c st st2 ok r.grown new;
      distinct =
          IsDistinct-append (name_of st2 c) st2.sorted (absent st2.sorted (name_of st2 c) new);
    };
  }

  -- If no processor has an After, then with more fuel than processors the sort ends, and no name
  -- stands among the sorted names twice.
  pub sort_each-IsDistinct :
      (fuel : ℕ)
      → length cps < fuel
      → (st : State) × (sort_each cps (names cell cps) fuel cps (start cell) ≡ some st)
        × IsDistinct st.sorted
  sort_each-IsDistinct fuel enough =
      let (st, ended, both) = returns _ (
        sort_each-Ends Single-rule fuel cps (start cell) (start cell)
          (λ c a b r. keep-IsDone (names cell cps) c a b r.grown)
          (Single-rule.reflexive (start cell))
          λ c s m r.
            let inside : IsInside cps cell c s = record { fields = r.grown.fields; member = m } in
            (inside, start_Bound cell cps (λ _. 0) 0 acyclic fuel c s inside (omega arith))) in
      (st, ended, both.0.distinct tt)
