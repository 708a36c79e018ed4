-- ===== src/Callbacks/Context.antt =====
-- The recursion of `sortCallbackProcessor` inside `sortProcessors`, where `allNames` holds the names
-- of `cps`: the growth of the state, for any bound on the fuel that the recursive calls keep.
use gorm.Prelude.{
  ℕ, zero, suc, String, ◌≡◌, ◌≢◌, refl, true, false, none, some, List, [], ◌∷◌, ◌++◌, arith,
  ==_refl, get_elem?, contains,
}
use gorm.Callbacks.Objects.{CallbackProcessor}
use gorm.Callbacks.Index.{get_elem?-get_r_index, is_some-get_r_index}
use gorm.Callbacks.Sort.{get_r_index, State, names, set_before_if_empty}
use gorm.Callbacks.Rule.{Rule, put, name_of, contains_address}
use gorm.Callbacks.Growth.{
  SameFields, SameFields-trans, Extends, Extends-refl, Extends-trans, Extends-insert_at,
  Extends-snoc, Extends-set_before_if_empty,
}

abbrev pub Cell : Type 0
Cell = ℕ → CallbackProcessor

pub names_same :
    (a b : Cell) (cps : List ℕ) → ((c : ℕ) → SameFields (b c) (a c)) → names b cps ≡ names a cps
names_same a b [] f = refl
names_same a b (c ∷ cps) f = ground (arith, (f c).name, names_same a b cps f)

pub contains-names :
    (cell : Cell) (cps : List ℕ) (c : ℕ)
    → contains_address cps c ≡ true
    → contains (names cell cps) (cell c).name ≡ true
contains-names cell [] c h = ground arith
contains-names cell (d ∷ cps) c h = ground (arith, contains-names cell cps c, ==_refl (cell c).name)

contains_address_of_get_elem? :
    (cps : List ℕ) (i c : ℕ) → get_elem? cps i ≡ some c → contains_address cps c ≡ true
contains_address_of_get_elem? [] i c h = ground arith
contains_address_of_get_elem? (d ∷ cps) zero c h = ground arith
contains_address_of_get_elem? (d ∷ cps) (suc i) c h =
    ground (arith, contains_address_of_get_elem? cps i c)

pub get_elem?-names :
    (cell : Cell) (cps : List ℕ) (i c : ℕ)
    → get_elem? cps i ≡ some c
    → get_elem? (names cell cps) i ≡ some (cell c).name
get_elem?-names cell [] i c h = ground arith
get_elem?-names cell (d ∷ cps) zero c h = ground arith
get_elem?-names cell (d ∷ cps) (suc i) c h = get_elem?-names cell cps i c h

pub get_elem?-names-none :
    (cell : Cell) (cps : List ℕ) (i : ℕ)
    → get_elem? cps i ≡ none
    → get_elem? (names cell cps) i ≡ none
get_elem?-names-none cell [] i h = refl
get_elem?-names-none cell (d ∷ cps) zero h = ground arith
get_elem?-names-none cell (d ∷ cps) (suc i) h = get_elem?-names-none cell cps i h

module _ (cps : List ℕ) (cell : Cell) where
  -- The processors are those that sorting began with, but for the field `before`.
  pub record IsInside (c : ℕ) (st : State) : Type 0 where
    pub fields : (p : ℕ) → SameFields (st.cell p) (cell p)
    pub member : contains_address cps c ≡ true

  abbrev pub all_names : List String
  all_names = names cell cps

  own_name : (c : ℕ) (st : State) → IsInside c st → contains all_names (name_of st c) ≡ true
  own_name c st h = ground (arith, contains-names cell cps c h.member, (h.fields c).name)

  pub IsInside-Extends :
      (c d : ℕ) (a b : State)
      → Extends all_names a b
      → contains_address cps d ≡ true
      → IsInside c a
      → IsInside d b
  IsInside-Extends c d a b r m h = record {
    fields = λ p. SameFields-trans (r.fields p) (h.fields p);
    member = m;
  }

-- A bound on the fuel that the recursive calls keep, and what follows where it is used up.
pub record Bounds (cps : List ℕ) (cell : Cell) (N : Type 0) (Bound : ℕ → ℕ → State → Type 0)
    : Type 0 where
  pub used_up : (c : ℕ) (st : State) → IsInside cps cell c st → Bound zero c st → N
  pub before :
      (fuel c cp : ℕ) (st : State)
      → IsInside cps cell c st
      → Bound (suc fuel) c st
      → contains st.sorted (name_of st c) ≡ false
      → contains (names cell cps) (name_of st c) ≡ true
      → contains (names cell cps) (name_of st cp) ≡ true
      → Bound fuel cp (put st (st.sorted ++ name_of st c ∷ []))
  pub after :
      (fuel c cp : ℕ) (st st1 : State)
      → IsInside cps cell c st
      → Bound (suc fuel) c st
      → Extends (names cell cps) st st1
      → (st1.cell c).after ≢ ""
      → contains_address cps cp ≡ true
      → name_of st1 cp ≡ (st1.cell c).after
      → Bound fuel cp (set_before_if_empty cp (name_of st1 c) st1)

pub absent : (xs : List String) (s : String) → get_r_index xs s ≡ none → contains xs s ≡ false
absent xs s h = ground (arith, is_some-get_r_index xs s)

module _ {cps : List ℕ} {cell : Cell} {N : Type 0} {Bound : ℕ → ℕ → State → Type 0}
    (bounds : Bounds cps cell N Bound) where
  found_name :
      (index cp : ℕ) (name : String) (st : State)
      → ((p : ℕ) → SameFields (st.cell p) (cell p))
      → get_r_index (names cell cps) name ≡ some index
      → get_elem? cps index ≡ some cp
      → name_of st cp ≡ name
  found_name index cp name st f found here = ground (
    arith,
    get_elem?-get_r_index (names cell cps) name index,
    get_elem?-names cell cps index cp here,
    (f cp).name,
  )

  pub context_rule :
      Rule cps
        (names cell cps)
        N
        (Extends (names cell cps))
        (λ fuel c st. IsInside cps cell c st × Bound fuel c st)
  context_rule = record {
    reflexive = Extends-refl;
    transitive = Extends-trans;
    no_fuel = λ c st ok. bounds.used_up c st ok.0 ok.1;
    out_of_range = λ index name found missing. absurd (in_range index name found missing);
    insert_before = λ fuel c index st ok new named found.
        Extends-insert_at st index (name_of st c) (own_name cps cell c st ok.0);
    append_before =
        λ fuel c st ok new. Extends-snoc st (name_of st c) (own_name cps cell c st ok.0);
    call_before = λ fuel c index cp st ok new named found here.
        let m = contains_address_of_get_elem? cps index cp here in
        let r = Extends-snoc st (name_of st c) (own_name cps cell c st ok.0) in
        (
          IsInside-Extends cps cell c cp st _ r m ok.0,
          bounds.before fuel c cp st ok.0 ok.1 (absent st.sorted (name_of st c) new)
              (own_name cps cell c st ok.0)
              (own_name cps cell cp st (record { fields = ok.0.fields; member = m })),
        );
    insert_after = λ fuel c index st st1 ok r named found.
        Extends-insert_at st1 _ (name_of st1 c)
          (own_name cps cell c st1 (IsInside-Extends cps cell c c st st1 r ok.0.member ok.0));
    write_after = λ fuel c cp st st1 ok r named. Extends-set_before_if_empty st1 cp (name_of st1 c);
    call_after = λ fuel c index cp st st1 ok r named found here.
        let m = contains_address_of_get_elem? cps index cp here in
        let inside = IsInside-Extends cps cell c c st st1 r ok.0.member ok.0 in
        (
          IsInside-Extends cps cell c cp st1 _ (Extends-set_before_if_empty st1 cp (name_of st1 c))
              m inside,
          bounds.after fuel c cp st st1 ok.0 ok.1 r named m
              (found_name index cp (st1.cell c).after st1 inside.fields found here),
        );
    append_after = λ fuel c st st2 ok r new.
        Extends-snoc st2 (name_of st2 c)
          (own_name cps cell c st2 (IsInside-Extends cps cell c c st st2 r ok.0.member ok.0));
  }
    where
      in_range :
          (index : ℕ) (name : String)
          → get_r_index (names cell cps) name ≡ some index
          → get_elem? cps index ≡ none
          → ⊥
      in_range index name found missing = ground (
        arith,
        get_elem?-get_r_index (names cell cps) name index,
        get_elem?-names-none cell cps index missing,
      )
