-- ===== src/Errors/Add.antt =====
-- What `Errors.Add` of errors.go keeps, for slices nested to any depth.
use gorm.Prelude.{
  ℕ, String, ◌≡◌, refl, ◌∙◌, ap, Bool, true, false, ◌||◌, inl, inr, arith, nat_eq, Bool-cases,
}
use gorm.Errors.{Error, null, plain, many, Errors, empty, next, same, known, snoc, add_one, add}

-- A slice as `Add` builds it: no nil, no slice inside, and no error twice.
abbrev pub IsProper : Errors → Type 0
IsProper empty = Unit
IsProper (next null errs) = ⊥
IsProper (next (plain a m) errs) = (known errs (plain a m) ≡ false) × IsProper errs
IsProper (next (many es) errs) = ⊥

-- Whether an error with this identity stands in a slice at any depth.
mutual
  mentions_one : ℕ → Error → Bool
  mentions_one a null = false
  mentions_one a (plain b m) = nat_eq b a
  mentions_one a (many es) = mentions a es

  pub mentions : ℕ → Errors → Bool
  mentions a empty = false
  mentions a (next e es) = mentions_one a e || mentions a es

known-snoc : (errs : Errors) (e x : Error) → known (snoc errs e) x ≡ (known errs x || same e x)
unfolding known snoc
known-snoc empty e x = ground arith
known-snoc (next y errs) e x = ground (arith, known-snoc errs e x)

snoc-IsProper :
    (errs : Errors) (a : ℕ) (m : String)
    → known errs (plain a m) ≡ false
    → IsProper errs
    → IsProper (snoc errs (plain a m))
unfolding known snoc same
snoc-IsProper empty a m h p = (refl, tt)
snoc-IsProper (next null errs) a m h p = elim p [ ]
snoc-IsProper (next (many es) errs) a m h p = elim p [ ]
snoc-IsProper (next (plain b n) errs) a m h p = (
  ground (arith, known-snoc errs (plain a m) (plain b n), p.0),
  snoc-IsProper errs a m (ground arith) p.1,
)

mutual
  unfolding add

  add_one-IsProper_lem : (e : Error) (errs : Errors) → IsProper errs → IsProper (add_one e errs)
  add_one-IsProper_lem null errs p = p
  add_one-IsProper_lem (plain a m) errs p = elim (Bool-cases (known errs (plain a m))) [
    | inl old ↦ rw old p
    | inr new ↦ rw new (snoc-IsProper errs a m new p)
  ]
  add_one-IsProper_lem (many es) errs p = add-IsProper_lem es errs p

  add-IsProper_lem : (new errs : Errors) → IsProper errs → IsProper (add new errs)
  add-IsProper_lem empty errs p = p
  add-IsProper_lem (next e new) errs p =
      add-IsProper_lem new (add_one e errs) (add_one-IsProper_lem e errs p)

-- `==` looks at the identity alone.
known-plain :
    (errs : Errors) (a : ℕ) (m n : String) → known errs (plain a m) ≡ known errs (plain a n)
unfolding known same
known-plain empty a m n = refl
known-plain (next null errs) a m n = known-plain errs a m n
known-plain (next (many es) errs) a m n = known-plain errs a m n
known-plain (next (plain b k) errs) a m n = ground (arith, known-plain errs a m n)

pub known-add_plain :
    (errs : Errors) (a b : ℕ) (m n : String)
    → known (add_one (plain b n) errs) (plain a m) ≡ (known errs (plain a m) || nat_eq b a)
unfolding add same
known-add_plain errs a b m n =
    ground (arith, known-snoc errs (plain b n) (plain a m), known-plain errs a m n)

mutual
  unfolding add mentions known

  known-add_one :
      (e : Error) (errs : Errors) (a : ℕ) (m : String)
      → known (add_one e errs) (plain a m) ≡ (known errs (plain a m) || mentions_one a e)
  known-add_one null errs a m = ground arith
  known-add_one (plain b n) errs a m = known-add_plain errs a b m n
  known-add_one (many es) errs a m = known-add_lem es errs a m

  known-add_lem :
      (new errs : Errors) (a : ℕ) (m : String)
      → known (add new errs) (plain a m) ≡ (known errs (plain a m) || mentions a new)
  known-add_lem empty errs a m = ground arith
  known-add_lem (next e new) errs a m =
      ground (arith, known-add_lem new (add_one e errs) a m, known-add_one e errs a m)

-- Every error of `new` is in `errs` already.
mutual
  CoveredOne : Error → Errors → Type 0
  CoveredOne null errs = Unit
  CoveredOne (plain a m) errs = known errs (plain a m) ≡ true
  CoveredOne (many es) errs = Covered es errs

  Covered : Errors → Errors → Type 0
  Covered empty errs = Unit
  Covered (next e es) errs = CoveredOne e errs × Covered es errs

mutual
  unfolding Covered add

  add_one_covered : (e : Error) (errs : Errors) → CoveredOne e errs → add_one e errs ≡ errs
  add_one_covered null errs c = refl
  add_one_covered (plain a m) errs c = rw c
  add_one_covered (many es) errs c = add-Covered es errs c

  add-Covered : (new errs : Errors) → Covered new errs → add new errs ≡ errs
  add-Covered empty errs c = refl
  add-Covered (next e new) errs c =
      ap (add new) (add_one_covered e errs c.0) ∙ add-Covered new errs c.1

mutual
  unfolding Covered mentions

  Covered_one_of_mentions :
      (e : Error) (errs : Errors)
      → ((a : ℕ) (m : String) → mentions_one a e ≡ true → known errs (plain a m) ≡ true)
      → CoveredOne e errs
  Covered_one_of_mentions null errs h = tt
  Covered_one_of_mentions (plain a m) errs h = h a m (ground arith)
  Covered_one_of_mentions (many es) errs h = Covered-of_mentions es errs h

  Covered-of_mentions :
      (new errs : Errors)
      → ((a : ℕ) (m : String) → mentions a new ≡ true → known errs (plain a m) ≡ true)
      → Covered new errs
  Covered-of_mentions empty errs h = tt
  Covered-of_mentions (next e new) errs h = (
    Covered_one_of_mentions e errs (λ a m x. h a m (rw x)),
    Covered-of_mentions new errs (λ a m x. h a m (ground arith)),
  )

-- Adding any errors to a proper slice leaves it proper: nested slices are flattened, nils dropped,
-- and no error stands in it twice.
pub add-IsProper : (new errs : Errors) → IsProper errs → IsProper (add new errs)
add-IsProper = add-IsProper_lem

-- After Errors.Add exactly the errors are known that were known or that the added slice holds at
-- any depth.
pub known-add :
    (new errs : Errors) (a : ℕ) (m : String)
    → known (add new errs) (plain a m) ≡ (known errs (plain a m) || mentions a new)
known-add = known-add_lem

-- Adding the same errors again changes nothing, neither the errors nor their order.
pub add_idem : (new errs : Errors) → add new (add new errs) ≡ add new errs
add_idem new errs =
    add-Covered new (add new errs)
      (Covered-of_mentions new (add new errs) λ a m x. ground (arith, known-add_lem new errs a m))
