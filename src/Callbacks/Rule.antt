-- ===== src/Callbacks/Rule.antt =====
-- A proof rule for the recursion of `sortCallbackProcessor`: a relation between the states before
-- and after a call, from one fact for each place where the closure writes.
use gorm.Prelude.{
  ℕ, zero, suc, ◌+◌, String, ◌≡◌, ◌≢◌, Bool, true, false, ◌||◌, inl, inr, Option, none, some, List,
  [], ◌∷◌, ◌++◌, ◌==◌, ne_of_test, arith, nat_eq, get_elem?, contains, ==_refl, Bool-cases,
  Option-cases,
}
use gorm.Callbacks.Index.{is_some-get_r_index, contains-append}
use gorm.Callbacks.Sort.{
  get_r_index, insert_at, State, Call, and_then, call_at, sort_before, set_before_if_empty,
  sort_after, append_last, sort_body, sort_callback_processor, sort_each,
}

-- A call ends in a state with `Q`, or it does not end and `N` holds.
pub data Ends (N : Type 0) (Q : State → Type 0) : Option State → Type 0 where
  nowhere : N → Ends N Q none
  at : {st : State} → Q st → Ends N Q (some st)

abbrev pub put : State → List String → State
put st l = record st { sorted = l }

abbrev pub name_of : State → ℕ → String
name_of st c = (st.cell c).name

-- `Ok fuel c st` is what a call of `c` at `st` with this fuel may assume.
pub record Rule (cps : List ℕ) (all_names : List String) (N : Type 0) (R : State → State → Type 0)
    (Ok : ℕ → ℕ → State → Type 0) : Type 0 where
  pub reflexive : (st : State) → R st st
  pub transitive : (a b c : State) → R a b → R b c → R a c
  pub no_fuel : (c : ℕ) (st : State) → Ok zero c st → N
  pub out_of_range :
      (index : ℕ) (name : String)
      → get_r_index all_names name ≡ some index
      → get_elem? cps index ≡ none
      → N
  pub insert_before :
      (fuel c index : ℕ) (st : State)
      → Ok (suc fuel) c st
      → get_r_index st.sorted (name_of st c) ≡ none
      → (st.cell c).before ≢ ""
      → get_r_index st.sorted (st.cell c).before ≡ some index
      → R st (put st (insert_at index (name_of st c) st.sorted))
  pub append_before :
      (fuel c : ℕ) (st : State)
      → Ok (suc fuel) c st
      → get_r_index st.sorted (name_of st c) ≡ none
      → R st (put st (st.sorted ++ name_of st c ∷ []))
  pub call_before :
      (fuel c index cp : ℕ) (st : State)
      → Ok (suc fuel) c st
      → get_r_index st.sorted (name_of st c) ≡ none
      → (st.cell c).before ≢ ""
      → get_r_index all_names (st.cell c).before ≡ some index
      → get_elem? cps index ≡ some cp
      → Ok fuel cp (put st (st.sorted ++ name_of st c ∷ []))
  pub insert_after :
      (fuel c index : ℕ) (st st1 : State)
      → Ok (suc fuel) c st
      → R st st1
      → (st1.cell c).after ≢ ""
      → get_r_index st1.sorted (st1.cell c).after ≡ some index
      → R st1 (put st1 (insert_at (index + 1) (name_of st1 c) st1.sorted))
  pub write_after :
      (fuel c cp : ℕ) (st st1 : State)
      → Ok (suc fuel) c st
      → R st st1
      → (st1.cell c).after ≢ ""
      → R st1 (set_before_if_empty cp (name_of st1 c) st1)
  pub call_after :
      (fuel c index cp : ℕ) (st st1 : State)
      → Ok (suc fuel) c st
      → R st st1
      → (st1.cell c).after ≢ ""
      → get_r_index all_names (st1.cell c).after ≡ some index
      → get_elem? cps index ≡ some cp
      → Ok fuel cp (set_before_if_empty cp (name_of st1 c) st1)
  pub append_after :
      (fuel c : ℕ) (st st2 : State)
      → Ok (suc fuel) c st
      → R st st2
      → get_r_index st2.sorted (name_of st2 c) ≡ none
      → R st2 (put st2 (st2.sorted ++ name_of st2 c ∷ []))

pub Ends-mono :
    {N : Type 0} {P Q : State → Type 0} (o : Option State)
    → ((st : State) → P st → Q st)
    → Ends N P o
    → Ends N Q o
Ends-mono none f (nowhere n) = nowhere n
Ends-mono (some st) f (at q) = at (f st q)

pub Ends-and_then :
    {N : Type 0} {P Q : State → Type 0} (o : Option State) (f : State → Option State)
    → Ends N P o
    → ((st : State) → P st → Ends N Q (f st))
    → Ends N Q (and_then o f)
Ends-and_then none f (nowhere n) k = nowhere n
Ends-and_then (some st) f (at p) k = k st p

-- The name of `c` stands among the sorted names.
abbrev pub IsDone : ℕ → State → Type 0
IsDone c st = contains st.sorted (name_of st c) ≡ true

abbrev pub AllDone : List ℕ → State → Type 0
AllDone [] st = Unit
AllDone (c ∷ cs) st = IsDone c st × AllDone cs st

IsDone-of_found :
    (c : ℕ) (st : State) {i : ℕ} → get_r_index st.sorted (name_of st c) ≡ some i → IsDone c st
IsDone-of_found c st h = ground (arith, is_some-get_r_index st.sorted (name_of st c))

append_last-IsDone : (c : ℕ) (st : State) → IsDone c (append_last c st)
append_last-IsDone c st = ground (
  arith,
  is_some-get_r_index st.sorted (name_of st c),
  contains-append st.sorted (name_of st c ∷ []) (name_of st c),
  ==_refl (name_of st c),
)

abbrev pub contains_address : List ℕ → ℕ → Bool
contains_address [] a = false
contains_address (x ∷ xs) a = nat_eq x a || contains_address xs a

module _ {cps : List ℕ} {all_names : List String} {N : Type 0} {R : State → State → Type 0}
    {Ok : ℕ → ℕ → State → Type 0} (rule : Rule cps all_names N R Ok) where
  call_at-Ends :
      (rec : Call) (index : ℕ) (name : String) (a st : State)
      → get_r_index all_names name ≡ some index
      → R a st
      → ((cp : ℕ) → get_elem? cps index ≡ some cp → Ends N (R st) (rec cp st))
      → Ends N (R a) (call_at cps rec index st)
  call_at-Ends rec index name a st found r k = elim (Option-cases (get_elem? cps index)) [
    | inl missing ↦ rw (missing, call_at) (nowhere (rule.out_of_range index name found missing))
    | inr (cp, here) ↦
        rw (here, call_at) (Ends-mono (rec cp st) (λ s. rule.transitive a st s r) (k cp here))
  ]

  sort_before-Ends :
      (fuel c : ℕ) (st : State) (rec : Call)
      → ((cp : ℕ) (s : State) → Ok fuel cp s → Ends N (R s) (rec cp s))
      → Ok (suc fuel) c st
      → get_r_index st.sorted (name_of st c) ≡ none
      → Ends N (R st) (sort_before cps all_names rec c st)
  unfolding sort_before
  sort_before-Ends fuel c st rec ih good new = elim (Bool-cases ((st.cell c).before == "")) [
    | inl e ↦ rw e (at (rule.reflexive st))
    | inr e ↦
        let named = ne_of_test (st.cell c).before "" e in
        rw e (elim (Option-cases (get_r_index st.sorted (st.cell c).before)) [
          | inr (index, found) ↦
              rw found (at (rule.insert_before fuel c index st good new named found))
          | inl absent ↦ rw absent (elim (Option-cases (get_r_index all_names (st.cell c).before)) [
            | inl unknown ↦ rw unknown (at (rule.reflexive st))
            | inr (index, found) ↦ rw found (
                call_at-Ends rec index (st.cell c).before st _ found
                  (rule.append_before fuel c st good new)
                  λ cp here.
                    ih cp _ (rule.call_before fuel c index cp st good new named found here))
          ])
        ])
  ]

  pub sort_after-Ends :
      (fuel c : ℕ) (st st1 : State) (rec : Call)
      → ((cp : ℕ) (s : State) → Ok fuel cp s → Ends N (R s) (rec cp s))
      → Ok (suc fuel) c st
      → R st st1
      → Ends N (R st1) (sort_after cps all_names rec c st1)
  unfolding sort_after
  sort_after-Ends fuel c st st1 rec ih good r = elim (Bool-cases ((st1.cell c).after == "")) [
    | inl e ↦ rw e (at (rule.reflexive st1))
    | inr e ↦
        let named = ne_of_test (st1.cell c).after "" e in
        rw e (elim (Option-cases (get_r_index st1.sorted (st1.cell c).after)) [
          | inr (index, found) ↦
              rw found (at (rule.insert_after fuel c index st st1 good r named found))
          | inl absent ↦ rw absent (elim (Option-cases (get_r_index all_names (st1.cell c).after)) [
            | inl unknown ↦ rw unknown (at (rule.reflexive st1))
            | inr (index, found) ↦ rw found (
                call_at-Ends (λ cp s. rec cp (set_before_if_empty cp (name_of st1 c) s)) index
                  (st1.cell c).after st1 st1 found (rule.reflexive st1)
                  λ cp here.
                    Ends-mono _
                      (λ s.
                        rule.transitive st1 _ s (rule.write_after fuel c cp st st1 good r named))
                      (ih cp _ (rule.call_after fuel c index cp st st1 good r named found here)))
          ])
        ])
  ]

  pub append_last-Ends :
      (fuel c : ℕ) (st st2 : State) → Ok (suc fuel) c st → R st st2 → R st2 (append_last c st2)
  append_last-Ends fuel c st st2 good r =
      elim (Option-cases (get_r_index st2.sorted (name_of st2 c))) [
        | inr (index, found) ↦ rw (found, append_last) (rule.reflexive st2)
        | inl absent ↦ rw (absent, append_last) (rule.append_after fuel c st st2 good r absent)
      ]

  sort_body-Ends :
      (fuel c : ℕ) (st : State) (rec : Call)
      → ((cp : ℕ) (s : State) → Ok fuel cp s → Ends N (R s) (rec cp s))
      → Ok (suc fuel) c st
      → Ends N (λ s. R st s × IsDone c s) (sort_body cps all_names rec c st)
  unfolding sort_body
  sort_body-Ends fuel c st rec ih good =
      elim (Option-cases (get_r_index st.sorted (name_of st c))) [
        | inr (index, found) ↦
            rw (found, sort_body) (at (rule.reflexive st, IsDone-of_found c st found))
        | inl new ↦
            rw (new, sort_body)
              (Ends-and_then _ _ (sort_before-Ends fuel c st rec ih good new) λ st1 r1.
                Ends-and_then _ _ (sort_after-Ends fuel c st st1 rec ih good r1) λ st2 r2.
                  let r = rule.transitive st st1 st2 r1 r2 in
                  at (
                    rule.transitive st st2 _ r (append_last-Ends fuel c st st2 good r),
                    append_last-IsDone c st2,
                  ))
      ]

  pub sort_callback_processor-Ends :
      (fuel c : ℕ) (st : State)
      → Ok fuel c st
      → Ends N (λ s. R st s × IsDone c s) (sort_callback_processor cps all_names fuel c st)
  unfolding sort_callback_processor
  sort_callback_processor-Ends zero c st good = nowhere (rule.no_fuel c st good)
  sort_callback_processor-Ends (suc fuel) c st good =
      sort_body-Ends fuel c st _
        (λ cp s ok. Ends-mono _ (λ t p. p.0) (sort_callback_processor-Ends fuel cp s ok)) good

  -- The loop over `cps`, where every call may assume `Ok` whatever the calls before it did.
  pub sort_each-Ends :
      (fuel : ℕ) (rest : List ℕ) (first st : State)
      → ((c : ℕ) (a b : State) → R a b → IsDone c a → IsDone c b)
      → R first st
      → ((c : ℕ) (s : State) → contains_address rest c ≡ true → R first s → Ok fuel c s)
      → Ends N (λ s. R st s × AllDone rest s) (sort_each cps all_names fuel rest st)
  unfolding sort_each
  sort_each-Ends fuel [] first st keep r good = at (rule.reflexive st, tt)
  sort_each-Ends fuel (c ∷ rest) first st keep r good =
      Ends-and_then _ _ (sort_callback_processor-Ends fuel c st (good c st (ground arith) r))
        λ st1 (r1, done).
          Ends-mono _ (λ s (r2, all). (rule.transitive st st1 s r1 r2, (keep c st1 s r2 done, all)))
            (sort_each-Ends fuel rest first st1 keep (rule.transitive first st st1 r r1)
              λ cp s m. good cp s (ground arith))
