-- ===== src/Callbacks/Growth.antt =====
-- What every call of `sortCallbackProcessor` keeps, whatever the processors ask for: names are only
-- added to `sortedNames`, in front of, between or behind those that stand there, and of a processor
-- only the field `before` is ever written.
use gorm.Prelude.{
  ℕ, zero, suc, String, ◌≡◌, refl, ◌∙◌, Bool, true, false, ◌||◌, ◌&&◌, List, [], ◌∷◌, ◌++◌, ◌==◌,
  eq_iff, arith, contains,
}
use gorm.Callbacks.Objects.{CallbackProcessor}
use gorm.Callbacks.Index.{contains-append, contains-insert_at}
use gorm.Callbacks.Sort.{insert_at, State, set_before_if_empty}
use gorm.Callbacks.Rule.{put}

-- `x` stands before an occurrence of `y`.
abbrev pub precedes : String → String → List String → Bool
precedes x y [] = false
precedes x y (z ∷ zs) = (z == x && contains zs y) || precedes x y zs

precedes-append :
    (x y : String) (xs ys : List String) → precedes x y xs ≡ true → precedes x y (xs ++ ys) ≡ true
precedes-append x y [] ys h = ground arith
precedes-append x y (z ∷ zs) ys h =
    ground (arith, contains-append zs ys y, precedes-append x y zs ys)

precedes-insert_at :
    (x y : String) (i : ℕ) (n : String) (xs : List String)
    → precedes x y xs ≡ true
    → precedes x y (insert_at i n xs) ≡ true
precedes-insert_at x y zero n xs h = ground arith
precedes-insert_at x y (suc i) n [] h = ground arith
precedes-insert_at x y (suc i) n (z ∷ zs) h =
    ground (arith, contains-insert_at i n zs y, precedes-insert_at x y i n zs)

-- The fields of a processor that sorting leaves alone.
pub record SameFields (p q : CallbackProcessor) : Type 0 where
  pub name : p.name ≡ q.name
  pub after : p.after ≡ q.after
  pub remove : p.remove ≡ q.remove
  pub kind : p.kind ≡ q.kind
  pub processor : p.processor ≡ q.processor

pub SameFields-refl : (p : CallbackProcessor) → SameFields p p
SameFields-refl p = record {
  name = refl;
  after = refl;
  remove = refl;
  kind = refl;
  processor = refl;
}

pub SameFields-trans :
    {p q r : CallbackProcessor} → SameFields p q → SameFields q r → SameFields p r
SameFields-trans f g = record {
  name = f.name ∙ g.name;
  after = f.after ∙ g.after;
  remove = f.remove ∙ g.remove;
  kind = f.kind ∙ g.kind;
  processor = f.processor ∙ g.processor;
}

pub record Extends (all_names : List String) (a b : State) : Type 0 where
  pub fields : (c : ℕ) → SameFields (b.cell c) (a.cell c)
  pub keeps : (s : String) → contains a.sorted s ≡ true → contains b.sorted s ≡ true
  pub order : (x y : String) → precedes x y a.sorted ≡ true → precedes x y b.sorted ≡ true
  pub only :
      (s : String)
      → contains b.sorted s ≡ true
      → (contains a.sorted s || contains all_names s) ≡ true

module _ {all_names : List String} where
  pub Extends-refl : (st : State) → Extends all_names st st
  Extends-refl st = record {
    fields = λ c. SameFields-refl _;
    keeps = λ s h. h;
    order = λ x y h. h;
    only = λ s h. ground arith;
  }

  pub Extends-trans :
      (a b c : State) → Extends all_names a b → Extends all_names b c → Extends all_names a c
  Extends-trans a b c r1 r2 = record {
    fields = λ p. SameFields-trans (r2.fields p) (r1.fields p);
    keeps = λ s h. r2.keeps s (r1.keeps s h);
    order = λ x y h. r2.order x y (r1.order x y h);
    only = λ s h. ground (arith, r2.only s h, r1.only s);
  }

  pub Extends-insert_at :
      (st : State) (i : ℕ) (n : String)
      → contains all_names n ≡ true
      → Extends all_names st (put st (insert_at i n st.sorted))
  Extends-insert_at st i n h = record {
    fields = λ c. SameFields-refl _;
    keeps = λ s m. ground (arith, contains-insert_at i n st.sorted s);
    order = λ x y m. precedes-insert_at x y i n st.sorted m;
    only = λ s m. ground (arith, contains-insert_at i n st.sorted s, eq_iff n s);
  }

  pub Extends-snoc :
      (st : State) (n : String)
      → contains all_names n ≡ true
      → Extends all_names st (put st (st.sorted ++ n ∷ []))
  Extends-snoc st n h = record {
    fields = λ c. SameFields-refl _;
    keeps = λ s m. ground (arith, contains-append st.sorted (n ∷ []) s);
    order = λ x y m. precedes-append x y st.sorted (n ∷ []) m;
    only = λ s m. ground (arith, contains-append st.sorted (n ∷ []) s, eq_iff n s);
  }

  pub Extends-set_before_if_empty :
      (st : State) (cp : ℕ) (n : String) → Extends all_names st (set_before_if_empty cp n st)
  Extends-set_before_if_empty st cp n = record {
    fields = λ c. record {
      name = ground arith;
      after = ground arith;
      remove = ground arith;
      kind = ground arith;
      processor = ground arith;
    };
    keeps = λ s m. ground arith;
    order = λ x y m. ground arith;
    only = λ s m. ground arith;
  }
