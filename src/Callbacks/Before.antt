-- ===== src/Callbacks/Before.antt =====
-- `Before` puts a callback in front of a callback that is sorted already.
use mathlib.Core.Path.{fun_ext, subst}
use gorm.Prelude.{
  ℕ, zero, suc, ◌+◌, ◌*◌, ◌<◌, String, ◌≡◌, ◌≢◌, refl, ap, true, false, Option, none, some, List,
  [], ◌∷◌, ◌++◌, ◌==◌, eq_iff, ==_refl, arith, length, contains, inl, inr, Option-cases, get_elem?,
}
use gorm.Callbacks.Objects.{CallbackProcessor}
use gorm.Callbacks.Index.{get_elem?-get_r_index, is_some-get_r_index}
use gorm.Callbacks.Sort.{
  get_r_index, insert_at, State, names, and_then, sort_each, sort_before, sort_after, sort_body,
  append_last, sort_callback_processor,
}
use gorm.Callbacks.Rule.{
  Rule, Ends, nowhere, at, Ends-mono, Ends-and_then, name_of, put, contains_address,
  sort_after-Ends, append_last-Ends, sort_callback_processor-Ends, sort_each-Ends,
}
use gorm.Callbacks.Growth.{Extends, Extends-refl, Extends-trans, precedes}
use gorm.Callbacks.Context.{IsInside, context_rule}
use gorm.Callbacks.Termination.{IsAcyclic, Bound, bounds, start_Bound}
use gorm.Callbacks.Outcome.{start, returns, keep-IsDone}

contains_of_get_elem? :
    (xs : List String) (i : ℕ) (s : String) → get_elem? xs i ≡ some s → contains xs s ≡ true
contains_of_get_elem? [] i s h = ground arith
contains_of_get_elem? (x ∷ xs) zero s h = ground (arith, eq_iff x s)
contains_of_get_elem? (x ∷ xs) (suc i) s h = ground (arith, contains_of_get_elem? xs i s h)

precedes-insert_at_self :
    (xs : List String) (i : ℕ) (n s : String)
    → get_elem? xs i ≡ some s
    → precedes n s (insert_at i n xs) ≡ true
precedes-insert_at_self [] i n s h = ground arith
precedes-insert_at_self (x ∷ xs) zero n s h = ground (arith, eq_iff x s, ==_refl n)
precedes-insert_at_self (x ∷ xs) (suc i) n s h = ground (arith, precedes-insert_at_self xs i n s h)

and_then-and_then :
    (o : Option State) (f g : State → Option State)
    → and_then (and_then o f) g ≡ and_then o (λ s. and_then (f s) g)
and_then-and_then none f g = refl
and_then-and_then (some st) f g = refl

sort_each-append :
    (cps : List ℕ) (all : List String) (fuel : ℕ) (front rest : List ℕ) (st : State)
    → sort_each cps all fuel (front ++ rest) st
      ≡ and_then (sort_each cps all fuel front st) (sort_each cps all fuel rest)
unfolding sort_each
sort_each-append cps all fuel [] rest st = refl
sort_each-append cps all fuel (c ∷ front) rest st =
    rw (and_then-and_then (sort_callback_processor cps all fuel c st)) (
      ap (and_then (sort_callback_processor cps all fuel c st))
        (fun_ext (sort_each-append cps all fuel front rest)))

contains_address_right :
    (front rest : List ℕ) (c : ℕ)
    → contains_address rest c ≡ true
    → contains_address (front ++ rest) c ≡ true
contains_address_right [] rest c h = h
contains_address_right (p ∷ front) rest c h = ground (arith, contains_address_right front rest c h)

module _ (cell : ℕ → CallbackProcessor) (cps : List ℕ) (rank : String → ℕ) (top : ℕ)
    (acyclic : IsAcyclic cell cps rank top) where
  rule :
      Rule cps
        (names cell cps)
        ⊥
        (Extends (names cell cps))
        (λ fuel c st. IsInside cps cell c st × Bound cell cps rank top acyclic fuel c st)
  rule = context_rule (bounds cell cps rank top acyclic)

  after_insertion :
      (fuel c i : ℕ) (st : State)
      → get_r_index st.sorted (name_of st c) ≡ none
      → ((st.cell c).before == "") ≡ false
      → get_r_index st.sorted (st.cell c).before ≡ some i
      → sort_callback_processor cps (names cell cps) (suc fuel) c st
        ≡ and_then
            (sort_after cps
              (names cell cps)
              (sort_callback_processor cps (names cell cps) fuel)
              c
              (put st (insert_at i (name_of st c) st.sorted)))
            (λ st2. some (append_last c st2))
  unfolding sort_callback_processor
  after_insertion fuel c i st unsorted untested found =
      rw (sort_body, unsorted, sort_before, untested, found)

  sort_before_target :
      (fuel c i : ℕ) (st : State)
      → IsInside cps cell c st × Bound cell cps rank top acyclic (suc fuel) c st
      → get_r_index st.sorted (name_of st c) ≡ none
      → (st.cell c).before ≢ ""
      → get_r_index st.sorted (st.cell c).before ≡ some i
      → Ends ⊥
          (λ s.
            Extends (names cell cps) st s
            × (precedes (name_of st c) (st.cell c).before s.sorted ≡ true))
          (sort_callback_processor cps (names cell cps) (suc fuel) c st)
  sort_before_target fuel c i st ok unsorted named found =
      let name = name_of st c in
      let st1 = put st (insert_at i name st.sorted) in
      let r1 = rule.insert_before fuel c i st ok unsorted named found in
      let first =
        precedes-insert_at_self st.sorted i name (st.cell c).before
          (get_elem?-get_r_index st.sorted (st.cell c).before i found) in
      let ih = sort_callback_processor-Ends rule fuel in
      rw (after_insertion fuel c i st unsorted (ground (arith, eq_iff (st.cell c).before "")) found)
        (Ends-and_then _ _
          (sort_after-Ends rule fuel c st st1 _ (λ cp s o. Ends-mono _ (λ t p. p.0) (ih cp s o)) ok
            r1)
          λ st2 r2.
            let r = rule.transitive st st1 st2 r1 r2 in
            let r3 = append_last-Ends rule fuel c st st2 ok r in
            at (
              rule.transitive st st2 _ r r3,
              r3.order name (st.cell c).before (r2.order name (st.cell c).before first),
            ))

at_some : {Q : State → Type 0} {st : State} (o : Option State) → o ≡ some st → Ends ⊥ Q o → Q st
at_some none e (nowhere n) = absurd n
at_some {Q} {st} (some s) e (at q) = let same : s ≡ st = cc in subst Q same q

contains_address_middle :
    (front rest : List ℕ) (c : ℕ) → contains_address (front ++ c ∷ rest) c ≡ true
contains_address_middle [] rest c = ground arith
contains_address_middle (p ∷ front) rest c = ground (arith, contains_address_middle front rest c)

contains_address_left :
    (front rest : List ℕ) (c : ℕ)
    → contains_address front c ≡ true
    → contains_address (front ++ rest) c ≡ true
contains_address_left [] rest c h = ground arith
contains_address_left (p ∷ front) rest c h = ground (arith, contains_address_left front rest c)

module _ (cell : ℕ → CallbackProcessor) (front rest : List ℕ) (c : ℕ) (rank : String → ℕ) (top : ℕ)
    (acyclic : IsAcyclic cell (front ++ c ∷ rest) rank top) (fuel : ℕ)
    (enough : length (front ++ c ∷ rest) * (top + 1) + top < suc fuel) where
  abbrev all : List String
  all = names cell (front ++ c ∷ rest)

  abbrev Ok : ℕ → State → Type 0
  Ok p s =
      IsInside (front ++ c ∷ rest) cell p s
      × Bound cell (front ++ c ∷ rest) rank top acyclic (suc fuel) p s

  inside-Ok :
      (p : ℕ) (s : State)
      → contains_address (front ++ c ∷ rest) p ≡ true
      → Extends all (start cell) s
      → Ok p s
  inside-Ok p s m r =
      let inside : IsInside (front ++ c ∷ rest) cell p s = record {
        fields = r.fields;
        member = m;
      } in
      (inside, start_Bound cell (front ++ c ∷ rest) rank top acyclic (suc fuel) p s inside enough)

  run :
      (part : List ℕ) (st : State)
      → ((p : ℕ) → contains_address part p ≡ true → contains_address (front ++ c ∷ rest) p ≡ true)
      → Extends all (start cell) st
      → Ends ⊥ (Extends all st) (sort_each (front ++ c ∷ rest) all (suc fuel) part st)
  run part st inner r =
      Ends-mono _ (λ s p. p.0)
        (sort_each-Ends (rule cell (front ++ c ∷ rest) rank top acyclic) (suc fuel) part
          (start cell) st (keep-IsDone all) r (λ p s m r1. inside-Ok p s (inner p m) r1))

  -- A callback whose Before names one that is sorted already, and whose own name is not sorted
  -- yet, stands before its target when the sort has ended, for Afters without a cycle and enough
  -- fuel.
  pub before-precedes :
      (st : State)
      → sort_each (front ++ c ∷ rest) all (suc fuel) front (start cell) ≡ some st
      → contains st.sorted (name_of st c) ≡ false
      → (st.cell c).before ≢ ""
      → contains st.sorted (st.cell c).before ≡ true
      → (final : State) × (sort_each
            (front ++ c ∷ rest)
            all
            (suc fuel)
            (front ++ c ∷ rest)
            (start cell)
          ≡ some final)
        × (precedes (name_of st c) (st.cell c).before final.sorted ≡ true)
  unfolding sort_each
  before-precedes st ran new named target =
      elim (Option-cases (get_r_index st.sorted (st.cell c).before)) [
        | inl missing ↦ absurd (ground (arith, is_some-get_r_index st.sorted (st.cell c).before))
        | inr (i, found) ↦
            let r = at_some _ ran (
              run front (start cell) (contains_address_left front (c ∷ rest))
                (Extends-refl (start cell))) in
            let ok = inside-Ok c st (contains_address_middle front rest c) r in
            let body =
              sort_before_target cell (front ++ c ∷ rest) rank top acyclic fuel c i st ok
                (ground (arith, is_some-get_r_index st.sorted (name_of st c))) named found in
            returns _ (
              rw
                (
                  sort_each-append (front ++ c ∷ rest) all (suc fuel) front (c ∷ rest) (start cell),
                  ran,
                )
                (Ends-and_then _ _ body λ s (r1, first).
                  Ends-mono _ (λ t r2. r2.order (name_of st c) (st.cell c).before first)
                    (run rest s (λ p m. contains_address_right front (c ∷ rest) p (ground arith))
                      (Extends-trans (start cell) st s r r1))))
      ]
