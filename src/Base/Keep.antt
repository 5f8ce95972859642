-- ===== src/Base/Keep.antt =====
-- Lemmas on `[x for x in xs if p(x)]`.
use Prim.Native.Nat.{ℕ, zero, suc, ◌≤◌}
use mathlib.Core.Path.{◌≡◌, refl, ap}
use mathlib.Core.Logic.{inl, inr}
use mathlib.Core.Bool.{Bool, true, false, not}
use mathlib.Core.List.{List, [], ◌∷◌, ◌++◌, map}
use native.Mathlib.Omega.{arith}
use paper_rag.Base.Tests.{Bool-cases}
use paper_rag.Base.Lists.{keep, length, take, All}

module _ {A : Type 0} (p : A → Bool) where
  pub keep-keep : (xs : List A) → keep p (keep p xs) ≡ keep p xs
  keep-keep [] = refl
  keep-keep (x ∷ xs) = elim (Bool-cases (p x)) [
    | inl e ↦ rw e (rw e (ap (◌∷◌ x) (keep-keep xs)))
    | inr e ↦ rw e (keep-keep xs)
  ]

  pub keep-append : (xs ys : List A) → keep p (xs ++ ys) ≡ keep p xs ++ keep p ys
  keep-append [] ys = refl
  keep-append (x ∷ xs) ys = elim (Bool-cases (p x)) [
    | inl e ↦ rw e (ap (◌∷◌ x) (keep-append xs ys))
    | inr e ↦ rw e (keep-append xs ys)
  ]

  -- Lists in which all, or none, are kept.
  pub keep-All : (xs : List A) → All (λ x. p x ≡ true) xs → keep p xs ≡ xs
  keep-All [] a = refl
  keep-All (x ∷ xs) a = rw a.0 (ap (◌∷◌ x) (keep-All xs a.1))

  pub keep-none : (xs : List A) → All (λ x. p x ≡ false) xs → keep p xs ≡ []
  keep-none [] a = refl
  keep-none (x ∷ xs) a = rw a.0 (keep-none xs a.1)

  pub All-keep : (xs : List A) → All (λ x. p x ≡ true) (keep p xs)
  All-keep [] = tt
  All-keep (x ∷ xs) = elim (Bool-cases (p x)) [
    | inl e ↦ rw e (e, All-keep xs)
    | inr e ↦ rw e (All-keep xs)
  ]

  pub All-keep-not : (xs : List A) → All (λ x. p x ≡ false) (keep (λ x. not (p x)) xs)
  All-keep-not [] = tt
  All-keep-not (x ∷ xs) = elim (Bool-cases (p x)) [
    | inl e ↦ rw e (All-keep-not xs)
    | inr e ↦ rw e (e, All-keep-not xs)
  ]

pub append-nil : {A : Type 0} (xs : List A) → xs ++ [] ≡ xs
append-nil [] = refl
append-nil (x ∷ xs) = ap (◌∷◌ x) (append-nil xs)

pub take-all : {A : Type 0} (n : ℕ) (xs : List A) → length xs ≤ n → take n xs ≡ xs
take-all zero [] h = refl
take-all zero (x ∷ xs) h = absurd (omega arith)
take-all (suc n) [] h = refl
take-all (suc n) (x ∷ xs) h = ap (◌∷◌ x) (take-all n xs (omega arith))

pub length-keep-le : {A : Type 0} (p : A → Bool) (xs : List A) → length (keep p xs) ≤ length xs
length-keep-le p [] = omega arith
length-keep-le p (x ∷ xs) = ground (arith, length-keep-le p xs)

pub keep-keep-not :
    {A : Type 0} (p : A → Bool) (xs : List A) → keep p (keep (λ x. not (p x)) xs) ≡ []
keep-keep-not p xs = keep-none p _ (All-keep-not p xs)

pub All-map :
    {A B : Type 0} (P : B → Type 0) (f : A → B) (xs : List A)
    → All (λ x. P (f x)) xs
    → All P (map f xs)
All-map P f [] a = tt
All-map P f (x ∷ xs) a = (a.0, All-map P f xs a.1)

pub All-kept :
    {A : Type 0} (P : A → Type 0) (p : A → Bool) (xs : List A) → All P xs → All P (keep p xs)
All-kept P p [] a = tt
All-kept P p (x ∷ xs) a = elim (Bool-cases (p x)) [
  | inl e ↦ rw e (a.0, All-kept P p xs a.1)
  | inr e ↦ rw e (All-kept P p xs a.1)
]

pub All-append :
    {A : Type 0} (P : A → Type 0) (xs ys : List A) → All P xs → All P ys → All P (xs ++ ys)
All-append P [] ys a b = b
All-append P (x ∷ xs) ys a b = (a.0, All-append P xs ys a.1 b)
